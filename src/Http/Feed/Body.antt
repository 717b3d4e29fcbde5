-- ===== src/Http/Feed/Body.antt =====
-- The body of a request in `http_parse_feed` of src/http/http_parse_dfa.c.
use litehttp_c.Base.{
  ℕ, ◌+◌, ◌-◌, ◌^◌, ◌≤◌, ◌<◌, ◌≡◌, ◌≢◌, refl, ◌∙◌, true, false, none, some, Bytes, length, drop,
  ◌==◌, ==_iff, size_add, size_sub, size_of_int, negsuc, arith, ge→ltb, length-drop, take_all,
}
use litehttp_c.Util.ErrorCode.{http_success}
use litehttp_c.Http.ParseCtx.{
  HttpParseCtx, http_parse_end, http_transfer_body_unset, Build, debug, release, substr, Mem,
}
use litehttp_c.Http.ParseCtx.Tokens.{substr_lem, substr_rest, check-true}
use litehttp_c.Http.Feed.{returned, label_end, label_wait_fix_body, start_body}
use litehttp_c.Http.Feed.Append.{Fits, room_small}
use litehttp_c.Http.Feed.Steps.{label_end_exact}

-- The node as the body leaves it.
abbrev pub bodied : HttpParseCtx → ℕ → Bytes → HttpParseCtx
bodied c full body = record c {
  wait_state = http_parse_end;
  body_cur = 0;
  post_full_length = full;
  next_line = full;
  body_view = body;
  http_request = record c.http_request { body = body };
}

full_body :
    (text : Bytes) (start n : ℕ) → start + n ≡ length text → substr text start n ≡ drop start text
full_body text start n h =
    substr_lem text start n (omega arith)
    ∙ take_all n (drop start text) (omega (arith, length-drop start text))

-- A body of known length that ends with the text is taken whole, and the request is complete, in
-- either build, when there is memory for the body and a string can hold the text.
pub fixed_body_complete :
    (build : Build) (mem : Mem) (post : Bytes) (c : HttpParseCtx)
    → c.cur + c.body_length ≡ length c.post
    → Fits c.post
    → mem.body_ok ≡ true
    → label_wait_fix_body build mem post c
      ≡ some (returned (bodied c (length c.post) (drop c.cur c.post)) http_success)
unfolding label_wait_fix_body
fixed_body_complete build mem post c h k ok =
    let full : size_add c.cur c.body_length ≡ length c.post = omega arith in
    let n : size_sub (length c.post) c.cur ≡ c.body_length = omega arith in
    let body = full_body c.post c.cur c.body_length h in
    let whole =
      check-true build (length (drop c.cur c.post) == c.body_length)
        ((==_iff _ _).1 (omega (arith, length-drop c.cur c.post))) in
    let room = room_small (length (drop c.cur c.post)) (omega (arith, length-drop c.cur c.post)) in
    rw (full, ge→ltb (length c.post) (length c.post) (omega arith), n, body, whole)
      (simp (room.1, ok) (label_end_exact build mem post _ refl refl))

-- Bytes behind a request without a body.
pub start_surplus :
    (mem : Mem) (post : Bytes) (c : HttpParseCtx)
    → c.next_line < length c.post
    → (start_body debug mem post http_transfer_body_unset c ≡ none)
      × (start_body release mem post http_transfer_body_unset c
          ≡ some (
              returned
                (record c { post_full_length = c.next_line; wait_state = http_parse_end })
                http_success))
unfolding label_end
start_surplus mem post c h = (ground arith, ground arith)

ne→false : (a b : ℕ) → a ≢ b → (a == b) ≡ false
ne→false a b h = ground arith

-- A negative content length `-(k + 1)` that does not reach back before the text passes the test for a
-- short body. A build with assertions stops on it; one without takes everything that has
-- arrived as the body, and calls the request complete at a place before its body.
pub negative_length :
    (mem : Mem) (post : Bytes) (c : HttpParseCtx) (k : ℕ)
    → c.body_length ≡ size_of_int (negsuc k)
    → k < c.cur
    → c.cur ≤ length c.post
    → Fits c.post
    → mem.body_ok ≡ true
    → (label_wait_fix_body debug mem post c ≡ none)
      × (label_wait_fix_body release mem post c
          ≡ some (returned (bodied c (c.cur - (k + 1)) (drop c.cur c.post)) http_success))
unfolding label_wait_fix_body label_end
negative_length mem post c k e h w bound ok =
    let full : size_add c.cur c.body_length ≡ c.cur - (k + 1) = omega arith in
    let n : size_sub (c.cur - (k + 1)) c.cur ≡ 2 ^ 64 - 1 - k = omega arith in
    let body : substr c.post c.cur (2 ^ 64 - 1 - k) ≡ drop c.cur c.post =
      substr_rest c.post c.cur _ (omega arith) in
    let short : (length (drop c.cur c.post) == c.body_length) ≡ false =
      ne→false _ _ (λ q. absurd (omega (arith, length-drop c.cur c.post))) in
    let long = ge→ltb (length c.post) (c.cur - (k + 1)) (omega arith) in
    let room = room_small (length (drop c.cur c.post)) (omega (arith, length-drop c.cur c.post)) in
    (
      rw (full, long, n, body, short) refl,
      rw (full, long, n, body)
          (simp (room.1, ok) (rw (ge→ltb (c.cur - (k + 1)) (c.cur - (k + 1)) (omega arith)) refl)),
    )
