-- ===== src/Http/Response.antt =====
-- src/http/http_response.c: a response, and the text that goes to the client. `status_chars` is what
-- `string_append_cstr` reads of the four bytes that `http_get_status_sv` fills.
pub mod Render
use litehttp_c.Base.{
  ℕ, ◌+◌, Bool, true, false, List, [], ◌∷◌, ◌++◌, map, Option, none, some, Bytes, codes,
  if◌then◌else◌, pos, ◌>>=◌,
}
use litehttp_c.Util.ErrorCode.{HttpErr, http_success, http_err_malloc, http_err_get_unkown_version}
use litehttp_c.Util.StringView.{StringView, null, view, view_bytes, string_view_empty}
use litehttp_c.Util.Text.{Text, append_each}
use litehttp_c.Http.Types.{
  HttpMethod, http_method_get, HttpVersion, http_ver_1_0, HttpStatus, HttpHeaderField,
  http_get_version_sv, http_get_status_sv, http_get_header_field_sv,
}
use litehttp_c.Http.HdrValue.{HttpHeader}
use litehttp_c.Http.HdrValue.Scanning.{c_string}

pub record HttpResponse : Type 0 where
  pub method : HttpMethod
  pub version : HttpVersion
  pub status : HttpStatus
  pub header_list : List HttpHeader
  pub body : StringView

-- What `calloc` and `cc_init` leave.
abbrev pub fresh_response : HttpResponse
fresh_response = record {
  method = http_method_get;
  version = http_ver_1_0;
  status = record { code = pos 0; message = null };
  header_list = [];
  body = null;
}

-- The two outcomes are those of `calloc` and of `cc_init`.
unfoldable pub http_response_new : Bool → Bool → Option HttpResponse × HttpErr
http_response_new false list_ok = (none, http_err_malloc)
http_response_new true false = (some fresh_response, http_err_malloc)
http_response_new true true = (some fresh_response, http_success)

pub data Released : Type 0 where
  header_list_released response_released : Released

unfoldable pub http_response_free : Option HttpResponse → List Released
http_response_free none = []
http_response_free (some rep) = header_list_released ∷ response_released ∷ []

-- The outcome is that of `cc_push`.
unfoldable pub http_response_add_header :
    Bool → HttpResponse → HttpHeaderField → StringView → HttpResponse × HttpErr
http_response_add_header push_ok response key value =
    let new_header : HttpHeader = record {
      field = key;
      value = record { value_sv = value; has_parsed_type = false; word = 0 };
      name = null;
    } in
    if push_ok
    then (record response { header_list = response.header_list ++ (new_header ∷ []) }, http_success)
    else (response, http_err_malloc)

abbrev pub status_chars : HttpResponse → Bytes
status_chars rep = c_string (http_get_status_sv rep.status.code (0 ∷ 0 ∷ 0 ∷ 0 ∷ [])).0

-- The appends of one round of the loop over the headers.
abbrev pub header_pieces : HttpHeader → List Bytes
header_pieces header =
    view_bytes (http_get_header_field_sv header.field)
    ∷ codes ": "
    ∷ view_bytes header.value.value_sv
    ∷ codes "\r\n"
    ∷ []

abbrev pub each_header : List HttpHeader → List Bytes
each_header [] = []
each_header (header ∷ headers) = header_pieces header ++ each_header headers

-- The appends of the whole function, in their order.
abbrev pub response_pieces : HttpResponse → List Bytes
response_pieces rep =
    view_bytes (http_get_version_sv rep.version)
    ∷ (b' ' ∷ [])
    ∷ status_chars rep
    ∷ (b' ' ∷ [])
    ∷ view_bytes rep.status.message
    ∷ codes "\r\n"
    ∷ (each_header rep.header_list ++ (codes "\r\n" ∷ view_bytes rep.body ∷ codes "\r\n" ∷ []))

module _ (T : Text) where
  unfoldable pub http_response_to_string : HttpResponse → Option (T.Str × HttpErr)
  http_response_to_string rep =
      if string_view_empty (http_get_version_sv rep.version)
      then some (T.init, http_err_get_unkown_version)
      else append_each T T.init (response_pieces rep) >>= λ post. some (post, http_success)

unfoldable pub http_get_simple_response : StringView
http_get_simple_response = view (
    codes
      "HTTP/1.1 200 OK\r\nContent-Type: text/html; charset=UTF-8\r\nContent-Length: 25\r\n\r\n<html>Hello, world!</html>\r\n")
