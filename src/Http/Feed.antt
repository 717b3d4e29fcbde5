-- ===== src/Http/Feed.antt =====
-- `http_parse_feed` of src/http/http_parse_dfa.c. Its labels are functions, a `goto` is a call, and
-- the loop from the end of one request to the start of the next runs on fuel. A list of nodes is the
-- chain that hangs on the node fed, whose last one becomes the tail on success.
pub mod Append
pub mod Steps
pub mod Same
pub mod Resume
pub mod Fields
pub mod Message
pub mod Sized
pub mod Pieces
pub mod Limit
pub mod Body
pub mod Surplus
pub mod Request
pub mod Bounds
use litehttp_c.Base.{
  ℕ, zero, suc, ◌+◌, ◌-◌, ◌*◌, Bool, true, false, not, ◌&&◌, List, [], ◌∷◌, ◌++◌, Option, none,
  some, Bytes, length, take, get_or, ltb, ◌==◌, if◌then◌else◌, size_add, size_sub, ◌>>=◌, ◌>>◌, ◌^◌,
  assert,
}
use litehttp_c.Util.ErrorCode.{
  HttpErr, http_success, http_err_malloc, http_err_parse_cannot_find_clrf, http_err_request_fatal,
  http_err_request_tcp_segment_in_body,
}
use litehttp_c.Util.StringView.{string_t_npos}
use litehttp_c.Util.StringT.{next_capacity}
use litehttp_c.Http.Request.{HttpRequest}
use litehttp_c.Http.ParseCtx.{
  HttpParseCtx, WaitState, http_parse_start, http_parse_wait_req, http_parse_wait_hdr,
  http_parse_wait_fix_body, http_parse_wait_clen, http_parse_wait_cval, http_parse_end, BodyType,
  http_transfer_body_unset, http_transfer_body_fixed, http_transfer_body_chunked, fresh_ctx, Build,
  check, update_ctx_to_next_clrf, get_ctx_line, get_ctx_focus_line, substr, Mem, set_request,
  parse_request_line,
}
use litehttp_c.Http.ParseCtx.Views.{moved_ctx}
use litehttp_c.Http.ParseCtx.Header.{parse_header_line}

-- How a pass over one node ends: it returns, or it leaves a finished node and goes on with the next.
pub data Pass : Type 0 where
  returned : HttpParseCtx → HttpErr → Pass
  sticky : HttpParseCtx → HttpParseCtx → Pass

abbrev pub is_fatal : HttpErr → Bool
is_fatal http_err_request_fatal = true
is_fatal _ = false

-- `end`: more bytes than this request is the next request's.
unfoldable pub label_end : Build → Mem → Bytes → HttpParseCtx → Option Pass
label_end build mem post ctx = do
  check build (ctx.post_full_length == ctx.next_line)
  if ltb ctx.next_line ctx.post_full_length
      then (do
        check build (ltb ctx.post_full_length (length ctx.post))
        let resized = record ctx { post = take ctx.post_full_length ctx.post }
        let bias = size_sub ctx.body_length ctx.post_full_length
        some (
            if mem.ctx_ok
            then sticky resized (record fresh_ctx { post = substr post bias string_t_npos })
            else returned resized http_err_request_fatal))
      else (do
        check build (ctx.post_full_length == length ctx.post)
        some (returned (record ctx { wait_state = http_parse_end }) http_success))

unfoldable pub label_wait_cval : Build → Mem → Bytes → HttpParseCtx → Option Pass
label_wait_cval build mem post ctx =
    label_end build mem post (record ctx { wait_state = http_parse_wait_cval })

unfoldable pub label_wait_clen : Build → Mem → Bytes → HttpParseCtx → Option Pass
label_wait_clen build mem post ctx =
    label_wait_cval build mem post (record ctx { wait_state = http_parse_wait_clen })

-- The room that a string needs for a text of this length; `none` is the fault of `next_capacity` on a
-- size that it cannot double.
abbrev pub room : ℕ → Option ℕ
room n = next_capacity (size_add n 1)

unfoldable pub label_wait_fix_body : Build → Mem → Bytes → HttpParseCtx → Option Pass
label_wait_fix_body build mem post ctx =
    let full = size_add ctx.cur ctx.body_length in
    let waiting = record ctx {
      wait_state = http_parse_wait_fix_body;
      body_cur = 0;
      post_full_length = full;
    } in
    if ltb (length ctx.post) full
    then some (returned waiting http_err_request_tcp_segment_in_body)
    else let body = substr ctx.post ctx.cur (size_sub full ctx.cur) in
      let viewed = record waiting { next_line = full; body_view = body } in
      check build (length body == ctx.body_length) >>= λ _. room (length body) >>= λ _.
      (if mem.body_ok
        then label_end build mem post (set_request viewed (record ctx.http_request { body = body }))
        else some (returned viewed http_err_malloc))

-- The switch behind the header lines.
abbrev pub start_body : Build → Mem → Bytes → BodyType → HttpParseCtx → Option Pass
start_body build mem post http_transfer_body_unset ctx =
    label_end build mem post (record ctx { post_full_length = ctx.next_line })
start_body build mem post http_transfer_body_fixed ctx = label_wait_fix_body build mem post ctx
start_body build mem post http_transfer_body_chunked ctx = label_wait_clen build mem post ctx

-- How the loop over the header lines ends: in a return, or with its counter.
pub data Headers : Type 0 where
  stopped : HttpParseCtx → HttpErr → Headers
  left : HttpParseCtx → ℕ → Headers

-- The body of the loop, with what follows it as an argument.
unfoldable pub header_step :
    Build → Mem → (HttpParseCtx → Option Headers) → ℕ → HttpParseCtx → Option Headers
header_step build mem next header_cnt ctx = elim (update_ctx_to_next_clrf ctx) [
  | none ↦ some (stopped ctx http_err_parse_cannot_find_clrf)
  | some ctx1 ↦
      if get_ctx_line ctx1 == 0
      then (do
        check build (get_or ctx1.post ctx1.cur 0 == b'\r')
        check build (get_or ctx1.post (ctx1.cur + 1) 0 == b'\n')
        some (left (record ctx1 { cur = ctx1.cur + 2 }) header_cnt))
      else if not (mem.line_ok (length ctx1.header_list))
      then some (stopped ctx1 http_err_malloc)
      else let line = get_ctx_focus_line ctx1 in
        let (ctx2, herr) =
          parse_header_line mem (record ctx1 { header_list = ctx1.header_list ++ (line ∷ []) })
            line in
        if is_fatal herr then some (stopped ctx2 herr) else next ctx2
]

-- `for (; header_cnt <= 100; ++header_cnt)`, by the rounds left.
unfoldable pub header_loop : Build → Mem → ℕ → ℕ → HttpParseCtx → Option Headers
header_loop build mem zero header_cnt ctx = some (left ctx header_cnt)
header_loop build mem (suc rounds) header_cnt ctx =
    header_step build mem (header_loop build mem rounds (header_cnt + 1)) header_cnt ctx

abbrev pub after_headers : Build → Mem → Bytes → Headers → Option Pass
after_headers build mem post (stopped ctx err) = some (returned ctx err)
after_headers build mem post (left ctx header_cnt) =
    if header_cnt == 100
    then some (returned ctx http_err_request_fatal)
    else start_body build mem post ctx.body_type ctx

unfoldable pub label_wait_hdr : Build → Mem → Bytes → HttpParseCtx → Option Pass
label_wait_hdr build mem post ctx = do
  headers ← header_loop build mem 100 1 (record ctx { wait_state = http_parse_wait_hdr })
  after_headers build mem post headers

unfoldable pub label_wait_req : Build → Mem → Bytes → HttpParseCtx → Option Pass
label_wait_req build mem post ctx =
    let waiting = record ctx { wait_state = http_parse_wait_req } in
    elim (update_ctx_to_next_clrf waiting) [
      | none ↦ some (returned waiting http_err_parse_cannot_find_clrf)
      | some ctx1 ↦ do
        (ctx2, herr) ←
            parse_request_line build mem (record ctx1 { request_line = get_ctx_focus_line ctx1 })
        if is_fatal herr then some (returned ctx2 herr) else label_wait_hdr build mem post ctx2
    ]

-- The switch on the wait state.
unfoldable pub enter : Build → Mem → Bytes → WaitState → HttpParseCtx → Option Pass
enter build mem post http_parse_start ctx = label_wait_req build mem post ctx
enter build mem post http_parse_wait_req ctx = label_wait_req build mem post ctx
enter build mem post http_parse_wait_hdr ctx = label_wait_hdr build mem post ctx
enter build mem post http_parse_wait_fix_body ctx = label_wait_fix_body build mem post ctx
enter build mem post http_parse_wait_clen ctx = label_wait_clen build mem post ctx
enter build mem post http_parse_wait_cval ctx = label_wait_cval build mem post ctx
enter build mem post http_parse_end ctx = label_end build mem post ctx

-- The chain of nodes behind a pass. Running out of fuel is a fault too.
unfoldable pub chain : Build → Mem → Bytes → ℕ → Option Pass → Option (List HttpParseCtx × HttpErr)
chain build mem post fuel none = none
chain build mem post fuel (some (returned ctx err)) = some (ctx ∷ [], err)
chain build mem post zero (some (sticky ctx next)) = none
chain build mem post (suc fuel) (some (sticky ctx next)) =
    chain build mem post fuel (label_wait_req build mem post next) >>= λ r. some (ctx ∷ r.0, r.1)

-- The node with a longer text, whose block may have moved.
abbrev pub extended : Mem → HttpParseCtx → Bytes → HttpParseCtx
extended mem ctx post = record (moved_ctx mem.reads ctx) { post = ctx.post ++ post }

-- The append may fault on the room, be refused, or fault on its offset, which is an `int`.
unfoldable pub http_parse_feed :
    Build → Mem → HttpParseCtx → Bytes → Option (List HttpParseCtx × HttpErr)
http_parse_feed build mem ctx post = room (size_add (length post) (length ctx.post)) >>= λ _.
    (if not mem.append_ok
      then some (ctx ∷ [], http_err_malloc)
      else assert (ltb (length ctx.post) (2 ^ 31)) >>= λ _.
          chain build mem post 1 (enter build mem post ctx.wait_state (extended mem ctx post)))
