-- ===== src/Core/Client/Errors.antt =====
-- A GET request that fails before it has a response, between src/core/http_method_dispatch.c and
-- src/core/client.c.
use litehttp_c.Base.{
  ℕ, ◌≡◌, refl, ap, ◌⊎◌, inl, inr, Bool, true, false, List, ◌∷◌, Option, none, some, Bytes,
  Bool-cases, Option-cases,
}
use litehttp_c.Util.ErrorCode.{HttpErr, http_success, http_err_hash_uninitialized, http_err_getcwd}
use litehttp_c.Util.Text.{Text}
use litehttp_c.Http.Types.{http_method_get}
use litehttp_c.Http.Request.{HttpRequest}
use litehttp_c.Http.Response.{HttpResponse}
use litehttp_c.Http.ParseCtx.Views.{stale_request}
use litehttp_c.Http.ParseCtx.{HttpParseCtx, http_parse_end, Build}
use litehttp_c.Http.ParseCtx.Tokens.{check-true}
use litehttp_c.Http.Resource.{
  KHash, TableState, unset, resource_getter_initial, get_resource_cached, get_resource_lazy,
}
use litehttp_c.Core.Dispatch.{
  is_success, is_get, GetCalls, with_path, answer_resource, http_method_get_handler,
  handle_http_request,
}
use litehttp_c.Core.SocketUtil.{get_absolue_path}
use litehttp_c.Core.Client.{http_backend, serve_nodes, serve_requests}
use litehttp_c.Core.Client.Events.{pop_end}

-- A call that is a fault, or that reports success without a response.
abbrev NoResponse : {A : Type 0} → Option (A × Option HttpResponse × HttpErr) → Type 0
NoResponse {A} r = (r ≡ none) ⊎ ((t : A) × (r ≡ some (t, none, http_success)))

abbrev Fails : {A : Type 0} → Option (A × Option HttpResponse × HttpErr) → Type 0
Fails {A} r = (r ≡ none) ⊎ ((t : A) × (e : HttpErr) × (r ≡ some (t, none, e)))

module _ (T : Text) (H : KHash) (build : Build) (calls : GetCalls H.Table) (base_dir : Bytes) where
  -- Without a table, whatever the path is.
  unset_Fails : (r : Option T.Str × HttpErr) → Fails (with_path T H build calls base_dir unset r)
  unfolding get_resource_cached get_resource_lazy answer_resource
  unset_Fails (none, e) = inr (unset, e, refl)
  unset_Fails (some path, e) = elim (Bool-cases (is_success e)) [
    | inl y ↦ rw y (inr (unset, http_err_hash_uninitialized, refl))
    | inr n ↦ rw n (inr (unset, e, refl))
  ]

  handler-Fails :
      (table : TableState H.Table) (request : HttpRequest)
      → request.method ≡ http_method_get
      → (table ≡ unset) ⊎ (calls.cwd ≡ none)
      → Fails (http_method_get_handler T H build calls base_dir table request)
  unfolding http_method_get_handler get_absolue_path
  handler-Fails table request g (inl e) =
      rw (ap is_get g, check-true build true refl, e)
        (elim (Option-cases
          (get_absolue_path T calls.cwd calls.path_memory base_dir request.path)) [
            | inl f ↦ rw f (inl refl)
            | inr (r, f) ↦ rw f (unset_Fails r)
          ])
  handler-Fails table request g (inr e) =
      rw (ap is_get g, check-true build true refl, e) (inr (table, http_err_getcwd, refl))

  handle-NoResponse :
      (table : TableState H.Table) (request : HttpRequest)
      → request.method ≡ http_method_get
      → (table ≡ unset) ⊎ (calls.cwd ≡ none)
      → NoResponse (handle_http_request T H build calls base_dir table request)
  unfolding handle_http_request
  handle-NoResponse table request g h = elim (handler-Fails table request g h) [
    | inl e ↦ inl (simp (g, e))
    | inr (t, e, f) ↦ inr (t, simp (g, f))
  ]

module _ (T : Text) (H : KHash) (build : Build) (calls : TableState H.Table → GetCalls H.Table)
    (base_dir : Bytes) (write : Option ℕ) (reads : Bytes → Bytes) where
  -- A finished GET request at the front of the chain is a fault of the server when the working
  -- directory cannot be read, and also when the table of resources was never made, which `main` does not
  -- look at: the handler's error is dropped, and the response is null. It holds in either build, whatever
  -- the request and the other calls are.
  pub failed_get_faults :
      (herr : HttpErr) (table : TableState H.Table) (ctx : HttpParseCtx) (chain : List HttpParseCtx)
      (mutex_ok : Bool)
      → ctx.wait_state ≡ http_parse_end
      → ctx.http_request.method ≡ http_method_get
      → (table ≡ (resource_getter_initial H false mutex_ok).0) ⊎ ((calls table).cwd ≡ none)
      → serve_requests (http_backend T H build calls base_dir write reads) herr table (ctx ∷ chain)
        ≡ none
  unfolding serve_requests serve_nodes resource_getter_initial
  failed_get_faults herr table ctx chain mutex_ok ended get h =
      elim (handle-NoResponse T H build (calls table) base_dir table
        (stale_request reads ctx.http_request) get h) [
          | inl e ↦ simp (pop_end reads ctx chain ended, e)
          | inr (t, e) ↦ simp (pop_end reads ctx chain ended, e)
        ]
