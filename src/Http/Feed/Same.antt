-- ===== src/Http/Feed/Same.antt =====
-- How `http_parse_feed` of src/http/http_parse_dfa.c depends on the bytes of one call.
use litehttp_c.Base.{
  ℕ, ◌≤◌, ◌≡◌, refl, ap, Option, none, some, Bytes, ◌==◌, if◌then◌else◌, ◌>>=◌, arith, inl, inr,
  Option-cases,
}
use litehttp_c.Util.ErrorCode.{HttpErr, http_err_request_fatal}
use litehttp_c.Http.ParseCtx.{
  HttpParseCtx, http_parse_wait_req, http_parse_wait_hdr, BodyType, http_transfer_body_unset,
  http_transfer_body_fixed, http_transfer_body_chunked, Build, debug, release,
  update_ctx_to_next_clrf, Mem, parse_request_line,
}
use litehttp_c.Http.ParseCtx.Lines.{FrameOf, parse_request_line-Frame}
use litehttp_c.Http.Feed.{
  Pass, returned, sticky, label_end, label_wait_cval, label_wait_clen, label_wait_fix_body,
  start_body, Headers, stopped, left, header_loop, after_headers, label_wait_hdr, label_wait_req,
  chain, is_fatal,
}
use litehttp_c.Http.Feed.Bounds.{seen}
use litehttp_c.Http.Feed.Bounds.Placing.{
  Placed, update-Placed, Placed-Frame, LoopKept, header_loop-Kept, Kept,
}

-- The bytes of one call matter only through the text that they are appended to.
module _ (mem : Mem) (p q : Bytes) where
  pub end_same :
      (build : Build) (c : HttpParseCtx)
      → c.post_full_length ≤ c.next_line
      → label_end build mem p c ≡ label_end build mem q c
  unfolding label_end
  end_same debug c h = ground arith
  end_same release c h = ground arith

  pub fix_body_same :
      (build : Build) (c : HttpParseCtx)
      → label_wait_fix_body build mem p c ≡ label_wait_fix_body build mem q c
  unfolding label_wait_fix_body label_end
  fix_body_same debug c = ground arith
  fix_body_same release c = ground arith

  pub start_body_same :
      (build : Build) (body : BodyType) (c : HttpParseCtx)
      → c.post_full_length ≤ c.next_line
      → start_body build mem p body c ≡ start_body build mem q body c
  unfolding label_wait_clen label_wait_cval
  start_body_same build http_transfer_body_unset c h = end_same build _ (omega arith)
  start_body_same build http_transfer_body_fixed c h = fix_body_same build c
  start_body_same build http_transfer_body_chunked c h = end_same build _ h

  pub after_headers_same :
      (build : Build) (text : Bytes) (h : Option Headers)
      → LoopKept build text h
      → (h >>= after_headers build mem p) ≡ (h >>= after_headers build mem q)
  after_headers_same build text none k = refl
  after_headers_same build text (some (stopped c e)) k = refl
  after_headers_same build text (some (left c n)) k =
      ap (λ x. if n == 100 then some (returned c http_err_request_fatal) else x)
        (start_body_same build c.body_type c k.1)

  pub hdr_same :
      (build : Build) (text : Bytes) (c : HttpParseCtx)
      → Placed text c
      → label_wait_hdr build mem p c ≡ label_wait_hdr build mem q c
  unfolding label_wait_hdr
  hdr_same build text c k =
      let start = record c { wait_state = http_parse_wait_hdr } in
      after_headers_same build text (header_loop build mem 100 1 start)
        (header_loop-Kept build mem text 100 1 start k)

  pub line_same :
      (build : Build) (text : Bytes) (c : HttpParseCtx) (r : Option (HttpParseCtx × HttpErr))
      → Placed text c
      → FrameOf build c r
      → (r >>= λ d.
          if is_fatal d.1 then some (returned d.0 d.1) else label_wait_hdr build mem p d.0)
        ≡ (r >>= λ d.
            if is_fatal d.1 then some (returned d.0 d.1) else label_wait_hdr build mem q d.0)
  line_same build text c none k f = refl
  line_same build text c (some (d, e)) k f =
      ap (λ x. if is_fatal e then some (returned d e) else x)
        (hdr_same build text d (Placed-Frame text c d k f))

  pub req_same :
      (build : Build) (text : Bytes) (c : HttpParseCtx)
      → Placed text c
      → label_wait_req build mem p c ≡ label_wait_req build mem q c
  unfolding label_wait_req
  req_same build text c k =
      let waiting = record c { wait_state = http_parse_wait_req } in
      elim (Option-cases (update_ctx_to_next_clrf waiting)) [
        | inl e ↦ rw (e, label_wait_req) refl
        | inr (c1, e) ↦
            rw (e, label_wait_req)
              (line_same build text (seen c1) (parse_request_line build mem (seen c1))
                (update-Placed text waiting c1 k e) (parse_request_line-Frame build mem (seen c1)))
      ]

  pub chain_same :
      (build : Build) (text : Bytes) (fuel : ℕ) (r : Option Pass)
      → Kept build text r
      → chain build mem p fuel r ≡ chain build mem q fuel r
  unfolding chain
  chain_same build text fuel none k = refl
  chain_same build text fuel (some (returned c e)) k = refl
  chain_same build text fuel (some (sticky c d)) k = absurd k
