-- ===== src/Http/Feed/Pieces/Waiting.antt =====
-- The nodes that `http_parse_feed` of src/http/http_parse_dfa.c leaves when a request has arrived in
-- part, and what the labels make of a further part.
use litehttp_c.Base.{
  ℕ, suc, ◌+◌, ◌-◌, ◌^◌, ◌<◌, ◌≡◌, refl, sym, ◌∙◌, ap, ◌⊎◌, true, List, [], ◌∷◌, ◌++◌, Option, none,
  some, Bytes, length, drop, drop-append_self, ◌>>=◌, arith, length-append, append_assoc, size_add,
  lt→ltb,
}
use litehttp_c.Util.ErrorCode.{
  HttpErr, http_err_parse_cannot_find_clrf, http_err_request_tcp_segment_in_body,
}
use litehttp_c.Http.HdrValue.{HttpHeader}
use litehttp_c.Http.Request.{HttpRequest}
use litehttp_c.Http.ParseCtx.{
  HttpParseCtx, http_parse_wait_hdr, http_parse_wait_fix_body, BodyType, Build, Mem, find_clrf,
  update_ctx_to_next_clrf,
}
use litehttp_c.Http.ParseCtx.HeaderLine.{header_from, framed}
use litehttp_c.Http.Feed.{
  returned, Headers, stopped, header_step, header_loop, after_headers, label_wait_hdr,
  label_wait_fix_body,
}
use litehttp_c.Http.Feed.Fields.{
  AreFields, fields_text, headers_of, framing, with_headers, loop_fields, Loaded,
}
use litehttp_c.Http.Feed.Steps.{header_loop-suc}

pub step_none :
    (build : Build) (mem : Mem) (next : HttpParseCtx → Option Headers) (n : ℕ) (c : HttpParseCtx)
    → find_clrf (drop c.next_line c.post) ≡ none
    → header_step build mem next n c ≡ some (stopped c http_err_parse_cannot_find_clrf)
unfolding header_step update_ctx_to_next_clrf
step_none build mem next n c e = rw (e, update_ctx_to_next_clrf, header_step) refl

-- The fields that have arrived are read, and the loop stops at the part of a line behind them.
pub fields_stop :
    (build : Build) (mem : Mem) (post before part : Bytes) (fields : List (Bytes × Bytes))
    (c : HttpParseCtx)
    → ((n : ℕ) → mem.line_ok n ≡ true)
    → ((n : ℕ) → mem.header_ok n ≡ true)
    → AreFields fields
    → length fields < 100
    → c.post ≡ before ++ fields_text fields part
    → c.next_line ≡ length before
    → length c.post < 2 ^ 64
    → find_clrf part ≡ none
    → (d : HttpParseCtx) × (label_wait_hdr build mem post c
        ≡ some (returned d http_err_parse_cannot_find_clrf))
      × Loaded (record c { wait_state = http_parse_wait_hdr }) fields part d
unfolding label_wait_hdr
fields_stop build mem post before part fields c lines headers a few p q fits e =
    let waiting = record c { wait_state = http_parse_wait_hdr } in
    let n = length fields in
    let (d, f, w) =
      loop_fields build mem part lines headers fields 100 (100 - n) 1 (1 + n) waiting before a
        (omega arith) (omega arith)
        (omega (arith, ap length p, length-append before (fields_text fields part))) p q in
    let k = 99 - n in
    let more : 100 - n ≡ suc k = omega arith in
    let no_line : find_clrf (drop d.next_line d.post) ≡ none =
      ap (λ t. find_clrf (drop d.next_line t)) w.post_is
      ∙ ap find_clrf (drop-append_self d.next_line w.before part w.next_is)
      ∙ e in
    let stop =
      ap (λ r. header_loop build mem r (1 + n) d) more
      ∙ header_loop-suc build mem k (1 + n) d
      ∙ step_none build mem (header_loop build mem k (1 + n + 1)) (1 + n) d no_line in
    (d, ap (λ h. h >>= after_headers build mem post) (f ∙ stop), w)

-- A short body is waited for.
pub short_body :
    (build : Build) (mem : Mem) (post : Bytes) (c : HttpParseCtx)
    → length c.post < size_add c.cur c.body_length
    → label_wait_fix_body build mem post c
      ≡ some (
          returned
            (record c {
              wait_state = http_parse_wait_fix_body;
              body_cur = 0;
              post_full_length = size_add c.cur c.body_length;
            })
            http_err_request_tcp_segment_in_body)
unfolding label_wait_fix_body
short_body build mem post c h = rw (lt→ltb (length c.post) (size_add c.cur c.body_length) h) refl

-- The codes that ask for more.
abbrev pub AsksForMore : HttpErr → Type 0
AsksForMore e = (e ≡ http_err_parse_cannot_find_clrf) ⊎ (e ≡ http_err_request_tcp_segment_in_body)

pub headers_of-append :
    (fields more : List (Bytes × Bytes))
    → headers_of (fields ++ more) ≡ headers_of fields ++ headers_of more
headers_of-append [] more = refl
headers_of-append (field ∷ fields) more =
    ap (◌∷◌ (header_from field)) (headers_of-append fields more)

pub framing-append :
    (fields more : List (Bytes × Bytes)) (body : BodyType × ℕ)
    → framing (fields ++ more) body ≡ framing more (framing fields body)
framing-append [] more body = refl
framing-append (field ∷ fields) more body =
    framing-append fields more (framed (header_from field) body)

pub AreFields-right :
    (fields more : List (Bytes × Bytes)) → AreFields (fields ++ more) → AreFields more
AreFields-right [] more a = a
AreFields-right (field ∷ fields) more a = AreFields-right fields more a.1

pub AreFields-left :
    (fields more : List (Bytes × Bytes)) → AreFields (fields ++ more) → AreFields fields
AreFields-left [] more a = tt
AreFields-left (field ∷ fields) more a = (a.0, AreFields-left fields more a.1)

-- Headers that are added in two parts.
pub add_headers :
    (request : HttpRequest) (fields more : List (Bytes × Bytes))
    → with_headers (headers_of more) (with_headers (headers_of fields) request)
      ≡ with_headers (headers_of (fields ++ more)) request
add_headers request fields more =
    ap (λ (l : List HttpHeader). record request { header_list = l })
      (append_assoc request.header_list (headers_of fields) (headers_of more)
        ∙ ap (λ l. request.header_list ++ l) (sym (headers_of-append fields more)))
