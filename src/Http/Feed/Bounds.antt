-- ===== src/Http/Feed/Bounds.antt =====
-- `http_parse_feed` of src/http/http_parse_dfa.c keeps its places within its text.
pub mod Placing
use litehttp_c.Base.{
  ℕ, zero, suc, ◌+◌, ◌≤◌, ◌^◌, size_add, ltb, ltb→ge, ◌≡◌, refl, ◌≢◌, true, List, [], ◌∷◌, ◌++◌,
  Option, none, some, Bytes, length, ◌==◌, if◌then◌else◌, ◌>>=◌, arith, ◌⊎◌, inl, inr, Option-cases,
  Bool-cases, length-append,
}
use litehttp_c.Util.ErrorCode.{HttpErr}
use litehttp_c.Http.ParseCtx.{
  HttpParseCtx, WaitState, http_parse_start, http_parse_wait_req, http_parse_wait_hdr,
  http_parse_wait_fix_body, http_parse_wait_clen, http_parse_wait_cval, http_parse_end, BodyType,
  http_transfer_body_unset, http_transfer_body_fixed, http_transfer_body_chunked, Build, debug,
  release, update_ctx_to_next_clrf, get_ctx_focus_line, Mem, parse_request_line,
}
use litehttp_c.Http.ParseCtx.Header.{parse_header_line}
use litehttp_c.Http.ParseCtx.Lines.{
  MayStop, Frame, FrameOf, parse_request_line-Frame, parse_header_line-Frame, update_ctx_lem,
}
use litehttp_c.Http.Feed.{
  Pass, returned, sticky, label_end, label_wait_cval, label_wait_clen, label_wait_fix_body,
  start_body, Headers, stopped, left, header_step, header_loop, after_headers, label_wait_hdr,
  label_wait_req, enter, chain, http_parse_feed, is_fatal, room, extended,
}
use litehttp_c.Http.Feed.Bounds.Placing.{
  Inv, Kept, end-Kept, fix_body-Kept, Placed, Placed-Frame, update-Placed, hdr-Kept, MayFault,
  may_fault,
}
use litehttp_c.Http.Feed.Append.{room_large}

abbrev pub seen : HttpParseCtx → HttpParseCtx
seen c = record c { request_line = get_ctx_focus_line c }

line-Kept :
    (build : Build) (mem : Mem) (post text : Bytes) (c : HttpParseCtx)
    (r : Option (HttpParseCtx × HttpErr))
    → Placed text c
    → FrameOf build c r
    → Kept build text (
        r >>= λ d.
        if is_fatal d.1 then some (returned d.0 d.1) else label_wait_hdr build mem post d.0)
line-Kept build mem post text c none p f = may_fault build text f
line-Kept build mem post text c (some (d, e)) p f =
    let p' = Placed-Frame text c d p f in
    elim (Bool-cases (is_fatal e)) [
      | inl t ↦ rw t (record { in_post = p'.0; cur_in_post = p'.3; full = inr p'.1 }, p'.2)
      | inr t ↦ rw t (hdr-Kept build mem post text d p')
    ]

req-Kept :
    (build : Build) (mem : Mem) (post text : Bytes) (c : HttpParseCtx)
    → Placed text c
    → Kept build text (label_wait_req build mem post c)
unfolding label_wait_req
req-Kept build mem post text c p =
    let waiting = record c { wait_state = http_parse_wait_req } in
    elim (Option-cases (update_ctx_to_next_clrf waiting)) [
      | inl e ↦
          rw (e, label_wait_req) (record { in_post = p.0; cur_in_post = p.3; full = inr p.1 }, p.2)
      | inr (c1, e) ↦
          rw (e, label_wait_req)
            (line-Kept build mem post text (seen c1) (parse_request_line build mem (seen c1))
              (update-Placed text waiting c1 p e) (parse_request_line-Frame build mem (seen c1)))
    ]

-- A node that does not wait for its body.
pub placed :
    (w : WaitState) (c : HttpParseCtx)
    → c.wait_state ≡ w
    → w ≢ http_parse_wait_fix_body
    → Inv c
    → Placed c.post c
placed w c e ne v = ground (arith, v.full)

pub enter-Kept :
    (build : Build) (mem : Mem) (post : Bytes) (w : WaitState) (c : HttpParseCtx)
    → c.wait_state ≡ w
    → Inv c
    → Kept build c.post (enter build mem post w c)
unfolding enter label_wait_clen label_wait_cval
enter-Kept build mem post http_parse_start c e v =
    req-Kept build mem post c.post c (placed http_parse_start c e (λ q. cc) v)
enter-Kept build mem post http_parse_wait_req c e v =
    req-Kept build mem post c.post c (placed http_parse_wait_req c e (λ q. cc) v)
enter-Kept build mem post http_parse_wait_hdr c e v =
    hdr-Kept build mem post c.post c (placed http_parse_wait_hdr c e (λ q. cc) v)
enter-Kept build mem post http_parse_wait_fix_body c e v =
    fix_body-Kept build mem post c v.in_post v.cur_in_post
enter-Kept build mem post http_parse_wait_clen c e v =
    let p = placed http_parse_wait_clen c e (λ q. cc) v in
    end-Kept build mem post (record c { wait_state = http_parse_wait_cval }) p.0 p.1 p.3
enter-Kept build mem post http_parse_wait_cval c e v =
    let p = placed http_parse_wait_cval c e (λ q. cc) v in
    end-Kept build mem post (record c { wait_state = http_parse_wait_cval }) p.0 p.1 p.3
enter-Kept build mem post http_parse_end c e v =
    let p = placed http_parse_end c e (λ q. cc) v in end-Kept build mem post c p.0 p.1 p.3

-- The result of a call: one node, still well-formed, with this text. Only a build with assertions, or
-- a text that a string cannot hold, may give no result.
abbrev pub OneNode : Build → Bytes → Option (List HttpParseCtx × HttpErr) → Type 0
OneNode build text none = MayFault build text
OneNode build text (some ([], e)) = ⊥
OneNode build text (some (c ∷ [], e)) = Inv c × (c.post ≡ text)
OneNode build text (some (c ∷ _ ∷ _, e)) = ⊥

chain-OneNode :
    (build : Build) (mem : Mem) (post text : Bytes) (fuel : ℕ) (r : Option Pass)
    → Kept build text r
    → OneNode build text (chain build mem post fuel r)
unfolding chain
chain-OneNode build mem post text fuel none k = k
chain-OneNode build mem post text fuel (some (returned c e)) k = k
chain-OneNode build mem post text fuel (some (sticky c d)) k = absurd k

large_text :
    (build : Build) (text post : Bytes)
    → 2 ^ 30 ≤ size_add (length post) (length text) + 1
    → MayFault build (text ++ post)
large_text debug text post h = tt
large_text release text post h = omega (arith, length-append text post)

long_text :
    (build : Build) (text post : Bytes) → 2 ^ 30 ≤ length text → MayFault build (text ++ post)
long_text debug text post h = tt
long_text release text post h = omega (arith, length-append text post)

-- Feeding a well-formed node whose memory is granted never makes a second node, whatever is fed: when
-- the call returns, the node's places, the current one and the next line, lie within its text, which is
-- the old one with what was fed behind it. A build without assertions returns whenever the size of that
-- text stays below 2^30; one with assertions may stop on one.
pub http_parse_feed-OneNode :
    (build : Build) (mem : Mem) (c : HttpParseCtx) (post : Bytes)
    → Inv c
    → mem.append_ok ≡ true
    → OneNode build (c.post ++ post) (http_parse_feed build mem c post)
unfolding http_parse_feed
http_parse_feed-OneNode build mem c post v h =
    let longer = extended mem c post in
    let v' : Inv longer = record {
      in_post = omega (arith, length-append c.post post, v.in_post);
      cur_in_post = omega (arith, length-append c.post post, v.cur_in_post);
      full = v.full;
    } in
    let kept =
      chain-OneNode build mem post (c.post ++ post) 1 _
        (enter-Kept build mem post c.wait_state longer refl v') in
    let size = size_add (length post) (length c.post) in
    elim (Option-cases (room size)) [
      | inl e ↦ rw (e, http_parse_feed) (large_text build c.post post (room_large size e))
      | inr (cap, e) ↦ elim (Bool-cases (ltb (length c.post) (2 ^ 31))) [
        | inl y ↦ simp (e, h, y) kept
        | inr n ↦
            let long = ltb→ge (length c.post) (2 ^ 31) n in
            simp (e, h, n) (long_text build c.post post (omega arith))
      ]
    ]
