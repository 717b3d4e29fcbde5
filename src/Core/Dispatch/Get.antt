-- ===== src/Core/Dispatch/Get.antt =====
-- What `handle_http_request` of src/core/http_method_dispatch.c answers to a GET request, the first time
-- and later.
use litehttp_c.Base.{
  ◌+◌, ◌^◌, ◌<◌, ◌≡◌, refl, ap, true, false, [], ◌∷◌, ◌++◌, none, some, Bytes, codes, length, take,
  pos, arith,
}
use litehttp_c.Util.ErrorCode.{http_success}
use litehttp_c.Util.StringView.{StringView, null, view, string_view_len}
use litehttp_c.Util.StringT.Decimal.{digits_onto}
use litehttp_c.Util.Text.{Text}
use litehttp_c.Http.Types.{
  http_method_get, http_ver_1_0, HttpHeaderField, http_hdr_content_type, http_hdr_content_length,
  http_set_status, http_get_status_msg,
}
use litehttp_c.Http.HdrValue.{HttpHeader}
use litehttp_c.Http.Request.{HttpRequest}
use litehttp_c.Http.Response.{HttpResponse, http_response_new, http_response_add_header}
use litehttp_c.Http.ParseCtx.{Build}
use litehttp_c.Http.ParseCtx.Tokens.{check-true}
use litehttp_c.Http.Resource.{
  MappedMemory, no_memory, KHash, TableState, live, opened_result, get_resource_cached,
}
use litehttp_c.Http.Resource.Cache.{Reads, second_request_empty}
use litehttp_c.Core.SocketUtil.{get_absolue_path_lem}
use litehttp_c.Core.Dispatch.{
  view_of_memory, numbuf, GetCalls, fill_response, answer_resource, http_method_get_handler,
  handle_http_request,
}

abbrev header_of : HttpHeaderField → Bytes → HttpHeader
header_of field text = record {
  field = field;
  value = record { value_sv = view text; has_parsed_type = false; word = 0 };
  name = null;
}

-- A 200 response with the two headers; `length_text` stands for the length of the body.
abbrev pub ok_response : Bytes → StringView → HttpResponse
ok_response length_text body = record {
  method = http_method_get;
  version = http_ver_1_0;
  status = record { code = pos 200; message = view (codes "OK") };
  header_list =
      header_of http_hdr_content_type (codes "text/html; charset=UTF-8")
      ∷ header_of http_hdr_content_length length_text
      ∷ [];
  body = body;
}

-- The path that the server reads for a request.
abbrev pub resource_path : Bytes → Bytes → HttpRequest → Bytes
resource_path cwd base_dir request = cwd ++ codes "/" ++ base_dir ++ codes "/" ++ request.path

-- Memory for everything that one request allocates, and a working directory.
pub record Granted {A : Type 0} (calls : GetCalls A) (cwd : Bytes) : Type 0 where
  pub cwd_is : calls.cwd ≡ some cwd
  pub path_granted : calls.path_memory ≡ true
  pub response_granted : calls.response_memory ≡ true
  pub list_granted : calls.list_memory ≡ true
  pub type_granted : calls.push_type ≡ true
  pub length_granted : calls.push_length ≡ true

module _ (T : Text) (H : KHash) (build : Build) (calls : GetCalls H.Table) (base_dir cwd : Bytes)
    (granted : Granted calls cwd) where
  answer_lem :
      (t : TableState H.Table) (m : MappedMemory) (body : StringView)
      → view_of_memory m ≡ some body
      → answer_resource T H build calls base_dir (t, m, http_success)
        ≡ some (
          t,
          some
              (ok_response (take (length (numbuf (string_view_len body))) calls.numbuf_later) body),
          http_success,
        )
  unfolding answer_resource fill_response http_set_status http_get_status_msg http_response_new
      http_response_add_header
  answer_lem t m body e = simp (
    e, granted.response_granted, granted.list_granted, granted.type_granted, granted.length_granted,
  )

  got_at :
      (t t' : TableState H.Table) (path : StringView) (m : MappedMemory) {whole : StringView}
      → path ≡ whole
      → get_resource_cached H build calls.resource t whole no_memory ≡ some (t', m, http_success)
      → get_resource_cached H build calls.resource t path no_memory ≡ some (t', m, http_success)
  got_at t t' path m e got = rw e got

  answered :
      (t : TableState H.Table) (t' : TableState H.Table) (request : HttpRequest) (m : MappedMemory)
      (body : StringView)
      → request.method ≡ http_method_get
      → length (resource_path cwd base_dir request) + 1 < 2 ^ 30
      → get_resource_cached H build calls.resource t
          (view (resource_path cwd base_dir request))
          no_memory
        ≡ some (t', m, http_success)
      → view_of_memory m ≡ some body
      → handle_http_request T H build calls base_dir t request
        ≡ some (
          t',
          some
              (ok_response (take (length (numbuf (string_view_len body))) calls.numbuf_later) body),
          http_success,
        )
  unfolding handle_http_request http_method_get_handler
  answered t t' request m body method small got seen =
      let (path, e, v, text) = get_absolue_path_lem T cwd base_dir request.path small in
      let a = answer_lem t' m body seen in
      let asked = got_at t t' (view (T.text path)) m (ap (λ p. view p) text) got in
      simp (method, granted.cwd_is, granted.path_granted, check-true build, e, asked, a)

module _ (T : Text) (H : KHash) (build : Build) (base_dir cwd : Bytes) where
  -- A first GET for a path that the cache does not hold is answered with 200 whatever the file system
  -- says, and its body is what the file system gave: the bytes of the file, or nothing when there is
  -- no such file. The same GET again is answered with 200 and an empty body. The bytes of the
  -- Content-Length value are those found in the place of the handler's dead buffer, in the number of
  -- digits that the length of the body has. Memory and mutexes are granted, the path has no NUL byte
  -- and is below the limit of the strings, and the body can be read.
  pub get_twice :
      (calls calls' : GetCalls H.Table) (t : H.Table) (request : HttpRequest) (body : StringView)
      → Granted calls cwd
      → Granted calls' cwd
      → request.method ≡ http_method_get
      → length (resource_path cwd base_dir request) + 1 < 2 ^ 30
      → H.get t (view (resource_path cwd base_dir request)) ≡ none
      → Reads H calls.resource t (resource_path cwd base_dir request)
      → view_of_memory (opened_result (calls.resource.files (resource_path cwd base_dir request))).0
        ≡ some body
      → calls'.resource.lock_ok ≡ true
      → calls'.resource.unlock_ok ≡ true
      → (t1 : H.Table) × (handle_http_request T H build calls base_dir (live t) request
          ≡ some (
            live t1,
            some (
                ok_response
                  (take (length (numbuf (string_view_len body))) calls.numbuf_later)
                  body),
            http_success,
          ))
        × (handle_http_request T H build calls' base_dir (live t1) request
            ≡ some (live t1, some (ok_response (take 1 calls'.numbuf_later) null), http_success))
  unfolding digits_onto
  get_twice calls calls' t request body granted granted' method small new reads seen locked
        unlocked =
      let path = resource_path cwd base_dir request in
      let (t1, first, again) =
        second_request_empty H build calls.resource calls'.resource t path new reads (omega arith)
          locked unlocked in
      (
        t1,
        answered T H build calls base_dir cwd granted (live t) (live t1) request
            (opened_result (calls.resource.files path)).0 body method small first seen,
        answered T H build calls' base_dir cwd granted' (live t1) (live t1) request no_memory null
            method small again refl,
      )

module _ (T : Text) (H : KHash) (build : Build) (calls : GetCalls H.Table) (base_dir : Bytes) where
  -- Nothing of a request but its method and its path matters to its answer.
  pub handle_http_request_same :
      (table : TableState H.Table) (r t : HttpRequest)
      → r.method ≡ t.method
      → r.path ≡ t.path
      → handle_http_request T H build calls base_dir table r
        ≡ handle_http_request T H build calls base_dir table t
  unfolding handle_http_request http_method_get_handler
  handle_http_request_same table r t method path = rw (method, path) refl
