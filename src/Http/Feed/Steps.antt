-- ===== src/Http/Feed/Steps.antt =====
-- The lines that `http_parse_feed` of src/http/http_parse_dfa.c reads: where they are found, what a
-- round of the loop over the header lines makes of them, and how a request ends.
use litehttp_c.Base.{
  ℕ, suc, ◌+◌, ◌-◌, ◌<◌, ◌≡◌, refl, sym, ◌∙◌, ap, true, false, [], ◌∷◌, ◌++◌, Option, none, some,
  Bytes, length, drop, get_or, ◌==◌, ==_iff, arith, inl, inr, Option-cases, length-append,
  append_assoc, ge→ltb, drop-append_self, get_or-append_self,
}
use litehttp_c.Util.ErrorCode.{HttpErr, http_success}
use litehttp_c.Util.StringView.{view}
use litehttp_c.Http.HdrValue.Outcome.{parse_value_code}
use litehttp_c.Http.HdrValue.{HttpHeader, http_hdr_parse_value}
use litehttp_c.Http.ParseCtx.{
  HttpParseCtx, http_parse_end, Build, update_ctx_to_next_clrf, get_ctx_focus_line, substr, Mem,
  find_clrf, pos_next_token,
}
use litehttp_c.Http.ParseCtx.Header.{
  parse_header_line, degraded, header_of_line, named_header, value_of_line,
}
use litehttp_c.Http.ParseCtx.Scan.{Lacks, find_clrf_line}
use litehttp_c.Http.ParseCtx.Tokens.{substr_middle, check-true}
use litehttp_c.Http.Feed.{returned, label_end, Headers, left, header_step, header_loop, is_fatal}

-- The text at the node's next line: `line`, its end, and what follows.
pub record AtLine (c : HttpParseCtx) (before line rest : Bytes) : Type 0 where
  pub post_is : c.post ≡ before ++ (line ++ (b'\r' ∷ b'\n' ∷ rest))
  pub next_is : c.next_line ≡ length before
  pub one_line : Lacks b'\r' line

abbrev pub moved : HttpParseCtx → Bytes → HttpParseCtx
moved c line = record c { cur = c.next_line; next_line = c.next_line + length line + 2 }

pub update_ctx_line :
    (c : HttpParseCtx) (before line rest : Bytes)
    → AtLine c before line rest
    → update_ctx_to_next_clrf c ≡ some (moved c line)
unfolding update_ctx_to_next_clrf
update_ctx_line c before line rest at =
    let found =
      ap (λ t. find_clrf (drop c.next_line t)) at.post_is
      ∙ ap find_clrf (drop-append_self c.next_line before _ at.next_is)
      ∙ find_clrf_line line rest at.one_line in
    rw (found, update_ctx_to_next_clrf) refl

pub focus_line :
    (c : HttpParseCtx) (before line rest : Bytes)
    → AtLine c before line rest
    → get_ctx_focus_line (moved c line) ≡ line
focus_line c before line rest at =
    ap (λ t. substr t c.next_line (c.next_line + length line + 2 - c.next_line - 2)) at.post_is
    ∙ substr_middle before line (b'\r' ∷ b'\n' ∷ rest) c.next_line _ at.next_is (omega arith)

-- The blank line ends the headers.
abbrev pub after_blank : HttpParseCtx → HttpParseCtx
after_blank c = record c { cur = c.next_line + 2; next_line = c.next_line + 0 + 2 }

pub header_step_blank :
    (build : Build) (mem : Mem) (next : HttpParseCtx → Option Headers) (n : ℕ) (c : HttpParseCtx)
    (before rest : Bytes)
    → AtLine c before [] rest
    → header_step build mem next n c ≡ some (left (after_blank c) n)
unfolding header_step
header_step_blank build mem next n c before rest at =
    let found = update_ctx_line c before [] rest at in
    let blank : (c.next_line + 0 + 2 - c.next_line - 2 == 0) ≡ true = ground arith in
    let cr : get_or c.post c.next_line 0 ≡ b'\r' =
      ap (λ t. get_or t c.next_line 0) at.post_is
      ∙ get_or-append_self c.next_line before b'\r' (b'\n' ∷ rest) 0 at.next_is in
    let lf : get_or c.post (c.next_line + 1) 0 ≡ b'\n' =
      ap (λ t. get_or t (c.next_line + 1) 0)
        (at.post_is ∙ sym (append_assoc before (b'\r' ∷ []) (b'\n' ∷ rest)))
      ∙ get_or-append_self (c.next_line + 1) (before ++ (b'\r' ∷ [])) b'\n' rest 0
          (omega (arith, at.next_is, length-append before (b'\r' ∷ []))) in
    rw (found, header_step, blank, cr, lf, check-true build true refl) refl

-- A header line with text: it is pushed, parsed, and the loop goes on.
abbrev pub pushed_line : HttpParseCtx → Bytes → HttpParseCtx
pushed_line c line = record (moved c line) { header_list = c.header_list ++ (line ∷ []) }

degraded_code :
    (old : HttpHeader) (key : Bytes) (r : Option HttpHeader × HttpErr)
    → (degraded old key r).1 ≡ r.1
degraded_code old key (none, e) = refl
degraded_code old key (some h, e) = refl

header_of_line_code : (line : Bytes) (n k : ℕ) → is_fatal (header_of_line line n k).1 ≡ false
unfolding header_of_line
header_of_line_code line n k =
    let key = substr line 0 n in
    let sv = view (value_of_line line k) in
    rw (degraded_code (named_header key) key (http_hdr_parse_value (some (named_header key)) sv))
      (ground (arith, parse_value_code (named_header key) sv))

parse_header_line_code :
    (mem : Mem) (c : HttpParseCtx) (line : Bytes)
    → is_fatal (parse_header_line mem c line).1 ≡ false
unfolding parse_header_line
parse_header_line_code mem c line = elim (Option-cases (pos_next_token line b':' 0)) [
  | inl e ↦ rw (e, parse_header_line) refl
  | inr ((n, k), e) ↦ rw (e, parse_header_line) (ground (arith, header_of_line_code line n k))
]

pub header_step_line :
    (build : Build) (mem : Mem) (next : HttpParseCtx → Option Headers) (n : ℕ) (c : HttpParseCtx)
    (before line rest : Bytes)
    → AtLine c before line rest
    → 0 < length line
    → mem.line_ok (length c.header_list) ≡ true
    → header_step build mem next n c ≡ next (parse_header_line mem (pushed_line c line) line).0
unfolding header_step
header_step_line build mem next n c before line rest at h ok =
    let found = update_ctx_line c before line rest at in
    let text : (c.next_line + length line + 2 - c.next_line - 2 == 0) ≡ false = ground arith in
    let focus = focus_line c before line rest at in
    let calm = parse_header_line_code mem (pushed_line c line) line in
    rw (found, header_step, text, ok, focus, calm) refl

-- A request with no body ends with its text.
pub label_end_exact :
    (build : Build) (mem : Mem) (post : Bytes) (c : HttpParseCtx)
    → c.post_full_length ≡ c.next_line
    → c.next_line ≡ length c.post
    → label_end build mem post c
      ≡ some (returned (record c { wait_state = http_parse_end }) http_success)
unfolding label_end
label_end_exact build mem post c e f =
    let one = check-true build (c.post_full_length == c.next_line) ((==_iff _ _).1 e) in
    let two = check-true build (c.post_full_length == length c.post) ((==_iff _ _).1 (e ∙ f)) in
    rw (one, ge→ltb c.next_line c.post_full_length (omega arith), two) refl

pub header_loop-suc :
    (build : Build) (mem : Mem) (rounds n : ℕ) (c : HttpParseCtx)
    → header_loop build mem (suc rounds) n c
      ≡ header_step build mem (header_loop build mem rounds (n + 1)) n c
unfolding header_loop
header_loop-suc build mem rounds n c = refl
