-- ===== src/Http/Feed/Limit.antt =====
-- The bound on header lines in `http_parse_feed` of src/http/http_parse_dfa.c.
use mathlib.Core.Path.{subst}
use litehttp_c.Base.{
  ℕ, zero, suc, ◌+◌, ◌<◌, ◌≡◌, refl, ◌∙◌, ap, true, List, [], ◌∷◌, ◌++◌, Option, none, some, Bytes,
  length, arith, length-append, append_assoc, ◌>>=◌,
}
use litehttp_c.Util.ErrorCode.{http_err_request_fatal}
use litehttp_c.Http.ParseCtx.{HttpParseCtx, Build, Mem, http_parse_wait_hdr}
use litehttp_c.Http.ParseCtx.Header.{parse_header_line}
use litehttp_c.Http.ParseCtx.Lines.{parse_header_line-Frame}
use litehttp_c.Http.ParseCtx.Scan.{Lacks}
use litehttp_c.Http.Feed.{
  returned, Headers, left, header_loop, after_headers, label_wait_hdr, start_body,
}
use litehttp_c.Http.Feed.Steps.{
  AtLine, header_step_line, header_step_blank, header_loop-suc, pushed_line, after_blank,
}

-- Lines with text, each of them ended, in front of `rest`.
abbrev pub AreLines : List Bytes → Type 0
AreLines [] = Unit {0}
AreLines (l ∷ ls) = (0 < length l) × Lacks b'\r' l × AreLines ls

abbrev pub lines_text : List Bytes → Bytes → Bytes
lines_text [] rest = rest
lines_text (l ∷ ls) rest = l ++ (b'\r' ∷ b'\n' ∷ lines_text ls rest)

-- The last of some lines, behind those of which this was the last.
abbrev pub last_of : Option Bytes → List Bytes → Option Bytes
last_of last [] = last
last_of last (l ∷ ls) = last_of (some l) ls

-- The node's current place is the start of this line, which `rest` follows.
abbrev pub AtStart : Option Bytes → Bytes → HttpParseCtx → Type 0
AtStart none rest c = Unit {0}
AtStart (some line) rest c =
    (start : Bytes) × (c.post ≡ start ++ (line ++ (b'\r' ∷ b'\n' ∷ rest))) × (c.cur ≡ length start)

-- The loop after the lines: the node stands in front of `rest`.
abbrev Reaches : Build → Mem → ℕ → ℕ → Option Bytes → Bytes → Option Headers → Type 0
Reaches build mem k m last rest r =
    (d : HttpParseCtx) × (before : Bytes) × (r ≡ header_loop build mem k m d)
    × (d.post ≡ before ++ rest)
    × (d.next_line ≡ length before)
    × AtStart last rest d

module _ (build : Build) (mem : Mem) (rest : Bytes) (memory : (n : ℕ) → mem.line_ok n ≡ true) where
  loop_lines :
      (lines : List Bytes) (last : Option Bytes) (r k n m : ℕ) (c : HttpParseCtx) (before : Bytes)
      → AreLines lines
      → r ≡ length lines + k
      → n + length lines ≡ m
      → c.post ≡ before ++ lines_text lines rest
      → c.next_line ≡ length before
      → AtStart last (lines_text lines rest) c
      → Reaches build mem k m (last_of last lines) rest (header_loop build mem r n c)
  loop_lines [] last r k n m c before a e f p q z =
      let r-k : r ≡ k = omega arith in
      let n-m : n ≡ m = omega arith in (c, before, rw (r-k, n-m) refl, p, q, z)
  loop_lines (l ∷ ls) last zero k n m c before a e f p q z = absurd (omega arith)
  loop_lines (l ∷ ls) last (suc r) k n m c before a e f p q z =
      let line : AtLine c before l (lines_text ls rest) = record {
        post_is = p;
        next_is = q;
        one_line = a.1;
      } in
      let d = (parse_header_line mem (pushed_line c l) l).0 in
      let frame = parse_header_line-Frame mem (pushed_line c l) l in
      let step =
        header_loop-suc build mem r n c
        ∙ header_step_line build mem (header_loop build mem r (n + 1)) n c before l
            (lines_text ls rest) line a.0 (memory (length c.header_list)) in
      let (d', before', e', p', q', z') =
        loop_lines ls (some l) r k (n + 1) m d ((before ++ l) ++ (b'\r' ∷ b'\n' ∷ [])) a.2
          (omega arith) (omega arith) (frame.post_eq ∙ p ∙ simp append_assoc)
          (omega (
            arith,
            frame.next_eq,
            length-append (before ++ l) (b'\r' ∷ b'\n' ∷ []),
            length-append before l,
          ))
          (before, frame.post_eq ∙ p, frame.cur_eq ∙ q) in
      (d', before', step ∙ e', p', q', z')

last_of-append :
    (o : Option Bytes) (front : List Bytes) (last : Bytes)
    → last_of o (front ++ (last ∷ [])) ≡ some last
last_of-append o [] last = refl
last_of-append o (l ∷ ls) last = last_of-append (some l) ls last

left_at :
    (build : Build) (mem : Mem) (n : ℕ) (d : HttpParseCtx)
    → header_loop build mem 0 n d ≡ some (left d n)
unfolding header_loop
left_at build mem n d = refl

module _ (build : Build) (mem : Mem) (post rest : Bytes) (memory : (n : ℕ) → mem.line_ok n ≡ true)
    (lines : List Bytes) (c : HttpParseCtx) (before : Bytes) (text : AreLines lines)
    (next : c.next_line ≡ length before) where
  -- Exactly 99 header lines with text, and the blank line behind them, all in one call, are refused as a fatal error,
  -- in either build, when the memory for the lines is there.
  pub limit_refused :
      length lines ≡ 99
      → c.post ≡ before ++ lines_text lines (b'\r' ∷ b'\n' ∷ rest)
      → (d : HttpParseCtx) × (label_wait_hdr build mem post c
          ≡ some (returned d http_err_request_fatal))
  unfolding label_wait_hdr
  limit_refused count at =
      let waiting = record c { wait_state = http_parse_wait_hdr } in
      let (d, before', e, p, q, z) =
        loop_lines build mem (b'\r' ∷ b'\n' ∷ rest) memory lines none 100 1 1 100 waiting before
          text (omega arith) (omega arith) at next tt in
      let blank =
        header_loop-suc build mem 0 100 d
        ∙ header_step_blank build mem (header_loop build mem 0 (100 + 1)) 100 d before' rest
            (record { post_is = p; next_is = q; one_line = tt }) in
      (after_blank d, ap (λ h. h >>= after_headers build mem post) (e ∙ blank))

  -- Behind 100 header lines with text, which one call reads, the switch for the body comes at once, in
  -- either build, when the memory for the lines is there: no blank line is read or asked for. The node's
  -- next line is behind the lines, but its current place, where a body is cut, is still the start of the
  -- 100th line, so that the line itself is taken for the start of the body.
  pub limit_open :
      (front : List Bytes) (last : Bytes)
      → lines ≡ front ++ (last ∷ [])
      → length lines ≡ 100
      → c.post ≡ before ++ lines_text lines rest
      → (d : HttpParseCtx) × (before' : Bytes) × (label_wait_hdr build mem post c
          ≡ start_body build mem post d.body_type d)
        × (d.post ≡ before' ++ rest)
        × (d.next_line ≡ length before')
        × (start : Bytes) × (d.post ≡ start ++ (last ++ (b'\r' ∷ b'\n' ∷ rest)))
        × (d.cur ≡ length start)
  unfolding label_wait_hdr
  limit_open front last are count at =
      let waiting = record c { wait_state = http_parse_wait_hdr } in
      let (d, before', e, p, q, z) =
        loop_lines build mem rest memory lines none 100 0 1 101 waiting before text (omega arith)
          (omega arith) at next tt in
      let same = ap (last_of none) are ∙ last_of-append none front last in
      let (start, text, place) = subst (λ l. AtStart l rest d) same z in
      (
        d,
        before',
        ap (λ h. h >>= after_headers build mem post) (e ∙ left_at build mem 101 d),
        p,
        q,
        start,
        text,
        place,
      )
