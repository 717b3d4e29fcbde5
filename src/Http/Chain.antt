-- ===== src/Http/Chain.antt =====
-- The chain of parse nodes of src/http/http_parse_dfa.c: its nodes are made, popped and given back.
use litehttp_c.Base.{
  Bool, true, false, List, [], ◌∷◌, ◌++◌, Bytes, Option, none, some, if◌then◌else◌,
}
use litehttp_c.Util.ErrorCode.{HttpErr, http_err_malloc}
use litehttp_c.Http.Request.{HttpRequest, Freed, http_request_new, http_request_free}
use litehttp_c.Http.ParseCtx.{HttpParseCtx, WaitState, http_parse_end, fresh_ctx}
use litehttp_c.Http.ParseCtx.Views.{stale_request}

-- What `*pctx` is afterwards: null, a node whose request is null, or a whole node.
pub data NewCtx : Type 0 where
  no_ctx ctx_without_request : NewCtx
  new_ctx : HttpParseCtx → NewCtx

abbrev pub with_request : Option HttpRequest × HttpErr → NewCtx × HttpErr
with_request (none, herr) = (ctx_without_request, herr)
with_request (some request, herr) = (new_ctx (record fresh_ctx { http_request = request }), herr)

abbrev pub request_outcome : Option (Option HttpRequest × HttpErr) → Option (NewCtx × HttpErr)
request_outcome none = none
request_outcome (some r) = some (with_request r)

-- The outcomes are those of `calloc` and of `cc_init` here, and of the two in `http_request_new`. When
-- the list fails, `free(pctx)` is given the address of the caller's variable: a fault.
unfoldable pub http_parse_ctx_new : Bool → Bool → Bool → Bool → Option (NewCtx × HttpErr)
http_parse_ctx_new false list_ok req_ok req_list_ok = some (no_ctx, http_err_malloc)
http_parse_ctx_new true false req_ok req_list_ok = none
http_parse_ctx_new true true req_ok req_list_ok =
    request_outcome (http_request_new req_ok req_list_ok)

-- The blocks of one node that `http_parse_ctx_free_node` gives back, in its order.
pub data NodeFreed : Type 0 where
  request_blocks : List Freed → NodeFreed
  list_freed post_freed node_freed : NodeFreed

-- The argument is the node's request, null once it has been popped.
unfoldable pub http_parse_ctx_free_node : Option HttpRequest → List NodeFreed
http_parse_ctx_free_node request =
    request_blocks (http_request_free request) ∷ list_freed ∷ post_freed ∷ node_freed ∷ []

-- The recursion is on the chain, whose last node goes first.
unfoldable pub http_parse_ctx_destroy_chain : List HttpParseCtx → List NodeFreed
http_parse_ctx_destroy_chain [] = []
http_parse_ctx_destroy_chain (ctx ∷ next) =
    http_parse_ctx_destroy_chain next ++ http_parse_ctx_free_node (some ctx.http_request)

abbrev pub is_end : WaitState → Bool
is_end http_parse_end = true
is_end _ = false

-- The request that is handed out, and the chain that is left; `none` is `false`. The node's text is freed,
-- so that the views of the request's headers read what stands there then, which is the first argument.
unfoldable pub http_parse_pop_request_and_release :
    (Bytes → Bytes) → List HttpParseCtx → Option (HttpRequest × List HttpParseCtx)
http_parse_pop_request_and_release reads [] = none
http_parse_pop_request_and_release reads (ctx ∷ next) =
    if is_end ctx.wait_state then some (stale_request reads ctx.http_request, next) else none
