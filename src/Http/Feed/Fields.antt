-- ===== src/Http/Feed/Fields.antt =====
-- What the loop over the header lines of src/http/http_parse_dfa.c makes of the header fields of a
-- request.
use litehttp_c.Base.{
  ℕ, zero, suc, ◌+◌, ◌-◌, ◌^◌, ◌<◌, ◌≡◌, refl, sym, ◌∙◌, ap, true, false, List, [], ◌∷◌, ◌++◌,
  Bytes, length, ◌==◌, ◌>>=◌, arith, length-append, append_assoc, append-nil,
}
use litehttp_c.Http.HdrValue.{HttpHeader}
use litehttp_c.Http.Request.{HttpRequest}
use litehttp_c.Http.ParseCtx.{HttpParseCtx, http_parse_wait_hdr, BodyType, Build, Mem}
use litehttp_c.Http.ParseCtx.Header.{parse_header_line}
use litehttp_c.Http.ParseCtx.HeaderLine.{header_line, header_from, framed, parse_header_line-Headed}
use litehttp_c.Http.ParseCtx.Lines.{parse_header_line-Frame}
use litehttp_c.Http.ParseCtx.Scan.{Lacks, Lacks-append}
use litehttp_c.Http.Feed.{header_loop, after_headers, label_wait_hdr, start_body}
use litehttp_c.Http.Feed.Steps.{
  AtLine, header_step_line, header_step_blank, header_loop-suc, pushed_line, after_blank,
}

-- Header fields that end neither their name nor their line early.
abbrev pub AreFields : List (Bytes × Bytes) → Type 0
AreFields [] = Unit {0}
AreFields ((name, value) ∷ fields) =
    (Lacks b':' name × Lacks b'\r' name × Lacks b'\r' value) × AreFields fields

-- The lines of the fields, each of them ended, in front of `rest`.
abbrev pub fields_text : List (Bytes × Bytes) → Bytes → Bytes
fields_text [] rest = rest
fields_text (field ∷ fields) rest = header_line field ++ (b'\r' ∷ b'\n' ∷ fields_text fields rest)

abbrev pub headers_of : List (Bytes × Bytes) → List HttpHeader
headers_of [] = []
headers_of (field ∷ fields) = header_from field ∷ headers_of fields

-- What the fields say of the body.
abbrev pub framing : List (Bytes × Bytes) → BodyType × ℕ → BodyType × ℕ
framing [] body = body
framing (field ∷ fields) body = framing fields (framed (header_from field) body)

abbrev pub with_headers : List HttpHeader → HttpRequest → HttpRequest
with_headers headers request = record request { header_list = request.header_list ++ headers }

-- The node when the loop has read the fields: it stands in front of `rest`.
pub record Loaded (c : HttpParseCtx) (fields : List (Bytes × Bytes)) (rest : Bytes)
    (d : HttpParseCtx) : Type 0 where
  pub request_eq : d.http_request ≡ with_headers (headers_of fields) c.http_request
  pub body_eq : (d.body_type, d.body_length) ≡ framing fields (c.body_type, c.body_length)
  pub state_eq : d.wait_state ≡ c.wait_state
  pub post_eq : d.post ≡ c.post
  pub before : Bytes
  pub post_is : d.post ≡ before ++ rest
  pub next_is : d.next_line ≡ length before

field_at :
    (c : HttpParseCtx) (before name value rest : Bytes)
    → Lacks b'\r' name
    → Lacks b'\r' value
    → c.post ≡ before ++ (header_line (name, value) ++ (b'\r' ∷ b'\n' ∷ rest))
    → c.next_line ≡ length before
    → AtLine c before (header_line (name, value)) rest
field_at c before name value rest n v p q = record {
  post_is = p;
  next_is = q;
  one_line = Lacks-append b'\r' name _ n ((λ e. cc), ((λ e. cc), v));
}

module _ (build : Build) (mem : Mem) (rest : Bytes) (lines : (n : ℕ) → mem.line_ok n ≡ true)
    (headers : (n : ℕ) → mem.header_ok n ≡ true) where
  pub loop_fields :
      (fields : List (Bytes × Bytes)) (r k n m : ℕ) (c : HttpParseCtx) (before : Bytes)
      → AreFields fields
      → r ≡ length fields + k
      → n + length fields ≡ m
      → length (fields_text fields rest) < 2 ^ 64
      → c.post ≡ before ++ fields_text fields rest
      → c.next_line ≡ length before
      → (d : HttpParseCtx) × (header_loop build mem r n c ≡ header_loop build mem k m d)
        × Loaded c fields rest d
  loop_fields [] r k n m c before a e f b p q =
      let r-k : r ≡ k = omega arith in
      let n-m : n ≡ m = omega arith in
      (
        c,
        rw (r-k, n-m) refl,
        record {
          request_eq = simp append-nil;
          body_eq = refl;
          state_eq = refl;
          post_eq = refl;
          before = before;
          post_is = p;
          next_is = q;
        },
      )
  loop_fields (field ∷ fields) zero k n m c before a e f b p q = absurd (omega arith)
  loop_fields ((name, value) ∷ fields) (suc r) k n m c before a e f b p q =
      let l = header_line (name, value) in
      let line = field_at c before name value (fields_text fields rest) a.0.1 a.0.2 p q in
      let pushed = pushed_line c l in
      let d = (parse_header_line mem pushed l).0 in
      let frame = parse_header_line-Frame mem pushed l in
      let size = length-append l (b'\r' ∷ b'\n' ∷ fields_text fields rest) in
      let headed =
        parse_header_line-Headed mem pushed name value a.0.0 (omega arith)
          (headers (length c.http_request.header_list)) in
      let step =
        header_loop-suc build mem r n c
        ∙ header_step_line build mem (header_loop build mem r (n + 1)) n c before l
            (fields_text fields rest) line (omega (arith, length-append name (b':' ∷ b' ' ∷ value)))
            (lines (length c.header_list)) in
      let (d', e', w) =
        loop_fields fields r k (n + 1) m d ((before ++ l) ++ (b'\r' ∷ b'\n' ∷ [])) a.1 (omega arith)
          (omega arith) (omega arith) (frame.post_eq ∙ p ∙ simp append_assoc)
          (omega (
            arith,
            frame.next_eq,
            length-append (before ++ l) (b'\r' ∷ b'\n' ∷ []),
            length-append before l,
          )) in
      (
        d',
        step ∙ e',
        record {
          request_eq =
              w.request_eq
              ∙ ap (with_headers (headers_of fields)) headed.request_eq
              ∙ ap (λ l. record c.http_request { header_list = l })
                  (append_assoc c.http_request.header_list (header_from (name, value) ∷ [])
                    (headers_of fields));
          body_eq = w.body_eq ∙ ap (framing fields) headed.body_eq;
          state_eq = w.state_eq ∙ frame.wait_state_eq;
          post_eq = w.post_eq ∙ frame.post_eq;
          before = w.before;
          post_is = w.post_is;
          next_is = w.next_is;
        },
      )

-- The node behind the blank line, in front of the body.
pub record Ready (c : HttpParseCtx) (fields : List (Bytes × Bytes)) (body : Bytes)
    (d : HttpParseCtx) : Type 0 where
  pub request_eq : d.http_request ≡ with_headers (headers_of fields) c.http_request
  pub body_eq : (d.body_type, d.body_length) ≡ framing fields (c.body_type, c.body_length)
  pub post_eq : d.post ≡ c.post
  pub before : Bytes
  pub post_is : d.post ≡ before ++ body
  pub next_is : d.next_line ≡ length before
  pub cur_is : d.cur ≡ d.next_line

module _ (build : Build) (mem : Mem) (lines : (n : ℕ) → mem.line_ok n ≡ true)
    (headers : (n : ℕ) → mem.header_ok n ≡ true) (post before body : Bytes)
    (fields : List (Bytes × Bytes)) (c : HttpParseCtx) (sound : AreFields fields)
    (few : length fields < 99) (at : c.post ≡ before ++ fields_text fields (b'\r' ∷ b'\n' ∷ body))
    (next : c.next_line ≡ length before) (fits : length c.post < 2 ^ 64) where
  -- A node in front of these fields, the blank line, and whatever bytes the body has so far.
  pub headers_pass :
      (d : HttpParseCtx) × (label_wait_hdr build mem post c
        ≡ start_body build mem post d.body_type d)
      × Ready c fields body d
  unfolding label_wait_hdr
  headers_pass =
      let rest = b'\r' ∷ b'\n' ∷ body in
      let waiting = record c { wait_state = http_parse_wait_hdr } in
      let n = length fields in
      let (d, e, w) =
        loop_fields build mem rest lines headers fields 100 (100 - n) 1 (1 + n) waiting before sound
          (omega arith) (omega arith)
          (omega (arith, ap length at, length-append before (fields_text fields rest))) at next in
      let k = 99 - n in
      let more : 100 - n ≡ suc k = omega arith in
      let blank =
        ap (λ r. header_loop build mem r (1 + n) d) more
        ∙ header_loop-suc build mem k (1 + n) d
        ∙ header_step_blank build mem (header_loop build mem k (1 + n + 1)) (1 + n) d w.before body
            (record { post_is = w.post_is; next_is = w.next_is; one_line = tt }) in
      let below : (1 + n == 100) ≡ false = ground arith in
      (
        after_blank d,
        ap (λ h. h >>= after_headers build mem post) (e ∙ blank) ∙ rw below refl,
        record {
          request_eq = w.request_eq;
          body_eq = w.body_eq;
          post_eq = w.post_eq;
          before = w.before ++ (b'\r' ∷ b'\n' ∷ []);
          post_is = w.post_is ∙ sym (append_assoc w.before (b'\r' ∷ b'\n' ∷ []) body);
          next_is = omega (arith, w.next_is, length-append w.before (b'\r' ∷ b'\n' ∷ []));
          cur_is = omega arith;
        },
      )
