-- ===== src/Http/ParseCtx/Lines.antt =====
-- What the functions of src/http/http_parse_dfa.c that read one line leave alone.
use litehttp_c.Base.{
  ◌+◌, ◌≤◌, ◌≡◌, Option, none, some, Bytes, length, drop, arith, length-drop, Option-cases, inl,
  inr,
}
use litehttp_c.Util.ErrorCode.{HttpErr}
use litehttp_c.Http.Types.{HttpHeaderField, http_hdr_host}
use litehttp_c.Http.HdrValue.{HttpHeader}
use litehttp_c.Http.ParseCtx.{
  HttpParseCtx, Build, debug, release, Mem, find_clrf, update_ctx_to_next_clrf, parse_request_line,
  parse_path, pos_next_token,
}
use litehttp_c.Http.ParseCtx.Header.{
  parse_header_line, header_line_update_body_type, update_body_type_at, header_of_line,
}
use litehttp_c.Http.ParseCtx.Scan.{find_clrf-lt}

-- Everything that places the parser in its text.
pub record Frame (c d : HttpParseCtx) : Type 0 where
  pub wait_state_eq : d.wait_state ≡ c.wait_state
  pub post_eq : d.post ≡ c.post
  pub full_eq : d.post_full_length ≡ c.post_full_length
  pub cur_eq : d.cur ≡ c.cur
  pub next_eq : d.next_line ≡ c.next_line

-- Only a build with assertions stops on one.
abbrev pub MayStop : Build → Type 0
MayStop debug = Unit {0}
MayStop release = ⊥

abbrev pub FrameOf : Build → HttpParseCtx → Option (HttpParseCtx × HttpErr) → Type 0
FrameOf build c none = MayStop build
FrameOf build c (some (d, e)) = Frame c d

pub parse_request_line-Frame :
    (build : Build) (mem : Mem) (c : HttpParseCtx)
    → FrameOf build c (parse_request_line build mem c)
unfolding parse_request_line parse_path
parse_request_line-Frame debug mem c = ground arith
parse_request_line-Frame release mem c = ground arith

update_body_type-Frame :
    (f : HttpHeaderField) (h : HttpHeader) (c : HttpParseCtx)
    → Frame c (update_body_type_at f h c).0
update_body_type-Frame http_hdr_host h c = ground arith
update_body_type-Frame _ h c = ground arith

pub parse_header_line-Frame :
    (mem : Mem) (c : HttpParseCtx) (line : Bytes) → Frame c (parse_header_line mem c line).0
unfolding parse_header_line header_line_update_body_type
parse_header_line-Frame mem c line = elim (Option-cases (pos_next_token line b':' 0)) [
  | inl e ↦ rw (e, parse_header_line) (ground arith)
  | inr ((n, k), e) ↦
      rw (e, parse_header_line)
        (ground (
          arith,
          update_body_type-Frame (header_of_line line n k).0.field (header_of_line line n k).0,
        ))
]

-- A line that is found lies behind the one before it, and within the text.
pub update_ctx_lem :
    (c d : HttpParseCtx)
    → update_ctx_to_next_clrf c ≡ some d
    → (d.post ≡ c.post)
      × (d.wait_state ≡ c.wait_state)
      × (d.post_full_length ≡ c.post_full_length)
      × (d.cur ≡ c.next_line)
      × (d.cur + 2 ≤ d.next_line)
      × (d.next_line ≤ length d.post)
unfolding update_ctx_to_next_clrf
update_ctx_lem c d e = elim (Option-cases (find_clrf (drop c.next_line c.post))) [
  | inl n ↦ absurd (ground arith)
  | inr (i, f) ↦
      let within = find_clrf-lt (drop c.next_line c.post) i f in
      ground (arith, length-drop c.next_line c.post)
]
