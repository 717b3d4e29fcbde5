-- ===== src/Http/Request.antt =====
-- src/http/http_request.c: a request owns its path, headers and body.
use litehttp_c.Base.{Bool, true, false, List, [], Option, none, some, Bytes, ◌∷◌}
use litehttp_c.Util.ErrorCode.{HttpErr, http_success, http_err_malloc}
use litehttp_c.Http.Types.{HttpMethod, http_method_get, HttpVersion, http_ver_1_0}
use litehttp_c.Http.HdrValue.{HttpHeader}

pub record HttpRequest : Type 0 where
  pub method : HttpMethod
  pub path : Bytes
  pub version : HttpVersion
  pub header_list : List HttpHeader
  pub body : Bytes

-- What `calloc` and the initialisers leave.
abbrev pub fresh_request : HttpRequest
fresh_request = record {
  method = http_method_get;
  path = [];
  version = http_ver_1_0;
  header_list = [];
  body = [];
}

-- The two outcomes are those of `calloc` and of `cc_init`. When the second fails, `free(req)` is
-- given the address of the caller's variable, which no allocation returned: a fault.
unfoldable pub http_request_new : Bool → Bool → Option (Option HttpRequest × HttpErr)
http_request_new false list_ok = some (none, http_err_malloc)
http_request_new true false = none
http_request_new true true = some (some fresh_request, http_success)

-- The blocks that `http_request_free` gives back. It does not destroy the path and the body.
pub data Freed : Type 0 where
  header_list_freed request_freed : Freed

unfoldable pub http_request_free : Option HttpRequest → List Freed
http_request_free none = []
http_request_free (some req) = header_list_freed ∷ request_freed ∷ []
