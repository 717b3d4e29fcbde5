-- ===== src/Http/Feed/Resume.antt =====
-- What `http_parse_feed` of src/http/http_parse_dfa.c does with a request that arrives in pieces.
use litehttp_c.Base.{
  ◌≤◌, ◌≡◌, refl, sym, ◌∙◌, ap, true, [], ◌∷◌, ◌++◌, none, some, Bytes, length, arith, ◌⊎◌, inr,
  length-append, append_assoc,
}
use litehttp_c.Util.ErrorCode.{http_err_parse_cannot_find_clrf}
use litehttp_c.Http.ParseCtx.{
  HttpParseCtx, WaitState, http_parse_start, http_parse_wait_req, Build, update_ctx_to_next_clrf,
  Mem,
}
use litehttp_c.Http.Feed.{returned, label_wait_req, enter, chain, http_parse_feed}
use litehttp_c.Http.Feed.Bounds.{placed, enter-Kept}
use litehttp_c.Http.Feed.Bounds.Placing.{Inv}
use litehttp_c.Http.ParseCtx.Views.{moved_ctx}
use litehttp_c.Http.Feed.Append.{Fits, feed_appended}
use litehttp_c.Http.Feed.Same.{req_same, chain_same}

-- The node waits for its request line.
abbrev pub WaitsForRequest : WaitState → Type 0
WaitsForRequest w = (w ≡ http_parse_start) ⊎ (w ≡ http_parse_wait_req)

pub enter_req :
    (build : Build) (mem : Mem) (post : Bytes) (w : WaitState) (c : HttpParseCtx)
    → WaitsForRequest w
    → enter build mem post w c ≡ label_wait_req build mem post c
unfolding enter
enter_req build mem post w c h = ground arith

front-Fits : (text p q : Bytes) → Fits (text ++ (p ++ q)) → Fits (text ++ p)
front-Fits text p q h =
    omega (arith, length-append text (p ++ q), length-append p q, length-append text p)

-- A node without views, such as one that has read nothing yet, is the same when its text has moved.
abbrev pub Viewless : HttpParseCtx → Type 0
Viewless c = (reads : Bytes → Bytes) → moved_ctx reads c ≡ c

-- The node as the first piece leaves it.
abbrev pub waiting_line : HttpParseCtx → Bytes → HttpParseCtx
waiting_line c p = record c { wait_state = http_parse_wait_req; post = c.post ++ p }

req_none :
    (build : Build) (mem : Mem) (post : Bytes) (c : HttpParseCtx)
    → update_ctx_to_next_clrf (record c { wait_state = http_parse_wait_req }) ≡ none
    → label_wait_req build mem post c
      ≡ some
          (returned (record c { wait_state = http_parse_wait_req }) http_err_parse_cannot_find_clrf)
unfolding label_wait_req
req_none build mem post c e = rw (e, label_wait_req) refl

req_of_waiting :
    (build : Build) (mem : Mem) (post text : Bytes) (c : HttpParseCtx)
    → label_wait_req build mem post (record c { wait_state = http_parse_wait_req; post = text })
      ≡ label_wait_req build mem post (record c { post = text })
unfolding label_wait_req
req_of_waiting build mem post text c = refl

module _ (build : Build) (mem : Mem) (c : HttpParseCtx) (p q : Bytes) where
  feed_first :
      Fits (c.post ++ p)
      → Viewless c
      → WaitsForRequest c.wait_state
      → mem.append_ok ≡ true
      → update_ctx_to_next_clrf (waiting_line c p) ≡ none
      → http_parse_feed build mem c p
        ≡ some (waiting_line c p ∷ [], http_err_parse_cannot_find_clrf)
  unfolding chain
  feed_first fits still w h e =
      feed_appended build mem c p fits h
      ∙ ap (chain build mem p 1) (
          ap (λ n. enter build mem p c.wait_state (record n { post = c.post ++ p }))
            (still mem.reads)
          ∙ enter_req build mem p c.wait_state (record c { post = c.post ++ p }) w
          ∙ req_none build mem p (record c { post = c.post ++ p }) e)

  feed_second :
      Fits (c.post ++ (p ++ q))
      → Inv c
      → Viewless c
      → WaitsForRequest c.wait_state
      → mem.append_ok ≡ true
      → http_parse_feed build mem (waiting_line c p) q ≡ http_parse_feed build mem c (p ++ q)
  feed_second fits v still w h =
      let whole = record c { post = c.post ++ (p ++ q) } in
      let longer : length c.post ≤ length (c.post ++ (p ++ q)) =
        omega (arith, length-append c.post (p ++ q)) in
      let v' : Inv whole = record {
        in_post = omega (arith, v.in_post);
        cur_in_post = omega (arith, v.cur_in_post);
        full = v.full;
      } in
      let one =
        ap
          (λ n.
            enter build mem q http_parse_wait_req
              (record n { wait_state = http_parse_wait_req; post = (c.post ++ p) ++ q }))
          (still mem.reads) in
      let both =
        ap (λ n. enter build mem (p ++ q) c.wait_state (record n { post = c.post ++ (p ++ q) }))
          (still mem.reads) in
      let k = placed c.wait_state whole refl (λ e. ground arith) v' in
      let pieces : enter build mem q http_parse_wait_req
            (record (waiting_line c p) { post = (c.post ++ p) ++ q })
          ≡ label_wait_req build mem q whole =
        enter_req build mem q http_parse_wait_req _ (inr refl)
        ∙ req_of_waiting build mem q ((c.post ++ p) ++ q) c
        ∙ ap (λ t. label_wait_req build mem q (record c { post = t })) (append_assoc c.post p q) in
      let first : label_wait_req build mem q whole ≡ enter build mem (p ++ q) c.wait_state whole =
        req_same mem q (p ++ q) build whole.post whole k
        ∙ sym (enter_req build mem (p ++ q) c.wait_state whole w) in
      feed_appended build mem (waiting_line c p) q (rw (append_assoc c.post p q) fits) h
      ∙ ap (chain build mem q 1) (one ∙ pieces ∙ first)
      ∙ chain_same mem q (p ++ q) build whole.post 1 _
          (enter-Kept build mem (p ++ q) c.wait_state whole refl v')
      ∙ sym (ap (chain build mem (p ++ q) 1) both)
      ∙ sym (feed_appended build mem c (p ++ q) fits h)

  -- A request line that arrives in two pieces at a well-formed node without views that waits for a request is waited
  -- for after the first, and the second piece gives exactly what both at once would have given, in
  -- either build and whatever follows the line, when there is memory for the text and a string can hold
  -- it.
  pub http_parse_feed_resume :
      Fits (c.post ++ (p ++ q))
      → Inv c
      → Viewless c
      → WaitsForRequest c.wait_state
      → mem.append_ok ≡ true
      → update_ctx_to_next_clrf (waiting_line c p) ≡ none
      → (http_parse_feed build mem c p
          ≡ some (waiting_line c p ∷ [], http_err_parse_cannot_find_clrf))
        × (http_parse_feed build mem (waiting_line c p) q ≡ http_parse_feed build mem c (p ++ q))
  http_parse_feed_resume fits v still w h e =
      let front : Fits (c.post ++ p) = front-Fits c.post p q fits in
      (feed_first front still w h e, feed_second fits v still w h)
