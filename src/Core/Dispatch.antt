-- ===== src/Core/Dispatch.antt =====
-- src/core/http_method_dispatch.c: the answer to a request.
pub mod Get
use litehttp_c.Base.{
  ℕ, Bool, true, false, not, List, [], ◌∷◌, Option, none, some, Bytes, codes, length, take, ◌==◌,
  if◌then◌else◌, pos, ◌>>=◌, ◌>>◌,
}
use litehttp_c.Util.ErrorCode.{HttpErr, http_success, http_err_request_unkown_method}
use litehttp_c.Util.StringView.{StringView, null, view, string_view_len}
use litehttp_c.Util.StringT.Decimal.{digits_onto}
use litehttp_c.Util.Text.{Text}
use litehttp_c.Http.Types.{
  HttpMethod, http_method_get, http_hdr_content_type, http_hdr_content_length, http_set_status,
  HttpStatus,
}
use litehttp_c.Http.Request.{HttpRequest}
use litehttp_c.Http.Response.{HttpResponse, http_response_new, http_response_add_header}
use litehttp_c.Http.ParseCtx.{Build, check}
use litehttp_c.Http.Resource.{
  MapData, null_data, map_failed, mapped, MappedMemory, no_memory, KHash, TableState, Calls,
  get_resource_cached,
}
use litehttp_c.Core.SocketUtil.{get_absolue_path}

abbrev pub is_success : HttpErr → Bool
is_success http_success = true
is_success _ = false

abbrev pub is_get : HttpMethod → Bool
is_get http_method_get = true
is_get _ = false

-- The bytes of a view of mapped memory. A view of `MAP_FAILED` has bytes that nobody can read: the
-- fault of their first reader is taken here.
abbrev pub view_of_data : MapData → ℕ → Option StringView
view_of_data null_data len = some null
view_of_data (mapped bs) len = some (view bs)
view_of_data map_failed len = if len == 0 then some (view []) else none

abbrev pub view_of_memory : MappedMemory → Option StringView
view_of_memory m = view_of_data m.data_ptr m.len

-- `snprintf(numbuf, sizeof(numbuf), "%zu", n)`: at most fifteen digits. A `size_t` has at most twenty.
abbrev pub numbuf : ℕ → Bytes
numbuf n = take 15 (digits_onto 20 n [])

-- What the handler meets: the outcomes of its calls, and the bytes that are found in the place of
-- `numbuf` when the response is read, since the header keeps a view of this local array.
pub record GetCalls (A : Type 0) : Type 0 where
  pub cwd : Option Bytes
  pub path_memory : Bool
  pub resource : Calls A
  pub response_memory : Bool
  pub list_memory : Bool
  pub push_type : Bool
  pub push_length : Bool
  pub numbuf_later : Bytes

module _ (T : Text) (H : KHash) (build : Build) (calls : GetCalls H.Table) (base_dir : Bytes) where
  -- The response is filled in. A null one is written to before its error is looked at.
  unfoldable pub fill_response :
      HttpStatus
      → StringView
      → Option HttpResponse × HttpErr
      → Option (Option HttpResponse × HttpErr)
  fill_response status html_post (none, herr) = none
  fill_response status html_post (some response, herr) =
      if not (is_success herr)
      then some (none, herr)
      else let (typed, herr') =
          http_response_add_header calls.push_type (record response { status = status })
            http_hdr_content_type (view (codes "text/html; charset=UTF-8")) in
        if not (is_success herr')
        then some (none, herr')
        else let digits = take (length (numbuf (string_view_len html_post))) calls.numbuf_later in
          let sized =
            http_response_add_header calls.push_length typed http_hdr_content_length
              (view digits) in
          some (some (record sized.0 { body = html_post }), http_success)

  -- With the result of the resource.
  unfoldable pub answer_resource :
      TableState H.Table × MappedMemory × HttpErr
      → Option (TableState H.Table × Option HttpResponse × HttpErr)
  answer_resource (table, resource, herr) =
      if not (is_success herr)
      then some (table, none, herr)
      else if not (is_success (http_set_status (pos 200)).1)
      then some (table, none, (http_set_status (pos 200)).1)
      else view_of_memory resource >>= λ html_post.
          fill_response (http_set_status (pos 200)).0 html_post
            (http_response_new calls.response_memory calls.list_memory)
          >>= λ r. some (table, r.0, r.1)

  abbrev pub with_path :
      TableState H.Table
      → Option T.Str × HttpErr
      → Option (TableState H.Table × Option HttpResponse × HttpErr)
  with_path table (none, herr) = some (table, none, herr)
  with_path table (some path, herr) =
      if not (is_success herr)
      then some (table, none, herr)
      else get_resource_cached H build calls.resource table (view (T.text path)) no_memory
        >>= answer_resource

  unfoldable pub http_method_get_handler :
      TableState H.Table → HttpRequest → Option (TableState H.Table × Option HttpResponse × HttpErr)
  http_method_get_handler table request = check build (is_get request.method) >>= λ _.
      get_absolue_path T calls.cwd calls.path_memory base_dir request.path >>= with_path table

  -- The result of the handler is not looked at.
  unfoldable pub handle_http_request :
      TableState H.Table → HttpRequest → Option (TableState H.Table × Option HttpResponse × HttpErr)
  handle_http_request table request =
      if is_get request.method
      then (http_method_get_handler table request >>= λ r. some (r.0, r.1, http_success))
      else some (table, none, http_err_request_unkown_method)
