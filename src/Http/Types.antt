-- ===== src/Http/Types.antt =====
-- src/http/http_types.c: methods, versions, header fields and status lines, and the tables behind them.
pub mod Table
pub mod Status
use Prim.Native.String.{String}
use litehttp_c.Base.{
  ℕ, zero, suc, ◌+◌, ◌-◌, ◌/◌, ◌%◌, Bool, true, false, not, ◌&&◌, ◌||◌, List, [], ◌∷◌, ◌++◌, Option,
  none, some, Bytes, codes, length, get_or, drop, ltb, ◌==◌, if◌then◌else◌, ℤ, pos, negsuc, is_zero,
}
use litehttp_c.Util.ErrorCode.{HttpErr, http_success, http_err_get_unkown_status}
use litehttp_c.Util.StringView.{
  StringView, view, view_bytes, string_view_len, string_view_empty, string_view_compare_cstr,
  string_view_from_cstr, strncmp,
}

pub data HttpMethod : Type 0 where
  http_method_get http_method_head http_method_post http_method_put : HttpMethod
  http_method_max_known http_method_unkown : HttpMethod

pub data HttpVersion : Type 0 where
  http_ver_1_0 http_ver_1_1 http_ver_2_0 http_ver_3_0 http_ver_unkown : HttpVersion

pub data HttpHeaderField : Type 0 where
  http_hdr_host http_hdr_user_agent http_hdr_accept http_hdr_content_type : HttpHeaderField
  http_hdr_content_length http_hdr_connection http_hdr_transfer_encoding : HttpHeaderField
  http_hdr_max http_hdr_unkown : HttpHeaderField

pub record HttpStatus : Type 0 where
  pub code : ℤ
  pub message : StringView

abbrev pub http_methods_str : List Bytes
http_methods_str = codes "GET" ∷ codes "HEAD" ∷ codes "POST" ∷ codes "PUT" ∷ []

abbrev pub http_header_fields_str : List Bytes
http_header_fields_str =
    codes "Host"
    ∷ codes "User-Agent"
    ∷ codes "Accept"
    ∷ codes "Content-Type"
    ∷ codes "Content-Length"
    ∷ codes "Connection"
    ∷ codes "Transfer-Encoding"
    ∷ []

abbrev pub http_get_methods_len : ℕ
http_get_methods_len = length http_methods_str

-- The loop that four functions share: the index of the first text of a table that equals the view.
unfoldable pub match_from : ℕ → List Bytes → StringView → Option ℕ
match_from i [] sv = none
match_from i (text ∷ table) sv =
    let rest = match_from (i + 1) table sv in
    if is_zero (string_view_compare_cstr sv (some text)) then some i else rest

-- `return i;` at the type of the enumeration.
abbrev pub method_of_index : ℕ → HttpMethod
method_of_index zero = http_method_get
method_of_index (suc zero) = http_method_head
method_of_index (suc (suc zero)) = http_method_post
method_of_index (suc (suc (suc zero))) = http_method_put
method_of_index (suc (suc (suc (suc zero)))) = http_method_max_known
method_of_index (suc (suc (suc (suc (suc _))))) = http_method_unkown

unfoldable pub http_match_method : StringView → HttpMethod
http_match_method sv = elim (match_from 0 http_methods_str sv) [
  | some i ↦ method_of_index i
  | none ↦ http_method_unkown
]

-- `sv_buf[i]`, for an index that the length test in front of it has put in range.
abbrev pub byte_at : Bytes → ℕ → ℕ
byte_at bs i = get_or bs i 0

abbrev pub match_version_digit : Bytes → HttpVersion
match_version_digit sv_buf =
    if byte_at sv_buf 5 == b'1'
    then (if not (length sv_buf == 8)
          || not (byte_at sv_buf 6 == b'.')
          || (not (byte_at sv_buf 7 == b'1') && not (byte_at sv_buf 7 == b'0'))
        then http_ver_unkown
        else if byte_at sv_buf 7 == b'1'
        then http_ver_1_1
        else http_ver_1_0)
    else if byte_at sv_buf 5 == b'2'
    then http_ver_2_0
    else if byte_at sv_buf 5 == b'3'
    then http_ver_3_0
    else http_ver_unkown

unfoldable pub http_match_version : StringView → HttpVersion
http_match_version sv =
    if ltb (string_view_len sv) 6 || not (is_zero (strncmp 5 (codes "HTTP/") (view_bytes sv)))
    then http_ver_unkown
    else match_version_digit (view_bytes sv)

unfoldable pub http_get_version_sv : HttpVersion → StringView
http_get_version_sv http_ver_1_0 = view (codes "HTTP/1.0")
http_get_version_sv http_ver_1_1 = view (codes "HTTP/1.1")
http_get_version_sv http_ver_2_0 = view (codes "HTTP/2.0")
http_get_version_sv http_ver_3_0 = view (codes "HTTP/3.0")
http_get_version_sv http_ver_unkown = view []

unfoldable pub http_get_header_field_sv : HttpHeaderField → StringView
http_get_header_field_sv http_hdr_host = view (codes "Host")
http_get_header_field_sv http_hdr_user_agent = view (codes "User-Agent")
http_get_header_field_sv http_hdr_accept = view (codes "Accept")
http_get_header_field_sv http_hdr_content_type = view (codes "Content-Type")
http_get_header_field_sv http_hdr_content_length = view (codes "Content-Length")
http_get_header_field_sv http_hdr_connection = view (codes "Connection")
http_get_header_field_sv http_hdr_transfer_encoding = view (codes "Transfer-Encoding")
http_get_header_field_sv http_hdr_max = view []
http_get_header_field_sv http_hdr_unkown = view []

abbrev pub field_of_index : ℕ → HttpHeaderField
field_of_index zero = http_hdr_host
field_of_index (suc zero) = http_hdr_user_agent
field_of_index (suc (suc zero)) = http_hdr_accept
field_of_index (suc (suc (suc zero))) = http_hdr_content_type
field_of_index (suc (suc (suc (suc zero)))) = http_hdr_content_length
field_of_index (suc (suc (suc (suc (suc zero))))) = http_hdr_connection
field_of_index (suc (suc (suc (suc (suc (suc zero)))))) = http_hdr_transfer_encoding
field_of_index (suc (suc (suc (suc (suc (suc (suc zero))))))) = http_hdr_max
field_of_index (suc (suc (suc (suc (suc (suc (suc (suc _)))))))) = http_hdr_unkown

unfoldable pub http_match_header_field : StringView → HttpHeaderField
http_match_header_field sv = elim (match_from 0 http_header_fields_str sv) [
  | some i ↦ field_of_index i
  | none ↦ http_hdr_unkown
]

-- src/http/include/http_status.def
abbrev pub http_status_table : List (ℕ × String)
http_status_table =
    (100, "Continue")
    ∷ (101, "Switching Protocols")
    ∷ (102, "Processing")
    ∷ (103, "Early Hints")
    ∷ (200, "OK")
    ∷ (201, "Created")
    ∷ (202, "Accepted")
    ∷ (203, "Non-Authoritative Information")
    ∷ (204, "No Content")
    ∷ (205, "Reset Content")
    ∷ (206, "Partial Content")
    ∷ (207, "Multi-Status")
    ∷ (208, "Already Reported")
    ∷ (226, "IM Used")
    ∷ (300, "Multiple Choices")
    ∷ (301, "Moved Permanently")
    ∷ (302, "Found")
    ∷ (303, "See Other")
    ∷ (304, "Not Modified")
    ∷ (305, "Use Proxy")
    ∷ (307, "Temporary Redirect")
    ∷ (308, "Permanent Redirect")
    ∷ (400, "Bad Request")
    ∷ (401, "Unauthorized")
    ∷ (402, "Payment Required")
    ∷ (403, "Forbidden")
    ∷ (404, "Not Found")
    ∷ (405, "Method Not Allowed")
    ∷ (406, "Not Acceptable")
    ∷ (407, "Proxy Authentication Required")
    ∷ (408, "Request Timeout")
    ∷ (409, "Conflict")
    ∷ (410, "Gone")
    ∷ (411, "Length Required")
    ∷ (412, "Precondition Failed")
    ∷ (413, "Payload Too Large")
    ∷ (414, "URI Too Long")
    ∷ (415, "Unsupported Media Type")
    ∷ (416, "Range Not Satisfiable")
    ∷ (417, "Expectation Failed")
    ∷ (418, "I'm a Teapot")
    ∷ (421, "Misdirected Request")
    ∷ (422, "Unprocessable Entity")
    ∷ (423, "Locked")
    ∷ (424, "Failed Dependency")
    ∷ (425, "Too Early")
    ∷ (426, "Upgrade Required")
    ∷ (428, "Precondition Required")
    ∷ (429, "Too Many Requests")
    ∷ (431, "Request Header Fields Too Large")
    ∷ (451, "Unavailable For Legal Reasons")
    ∷ (500, "Internal Server Error")
    ∷ (501, "Not Implemented")
    ∷ (502, "Bad Gateway")
    ∷ (503, "Service Unavailable")
    ∷ (504, "Gateway Timeout")
    ∷ (505, "HTTP Version Not Supported")
    ∷ (506, "Variant Also Negotiates")
    ∷ (507, "Insufficient Storage")
    ∷ (508, "Loop Detected")
    ∷ (510, "Not Extended")
    ∷ (511, "Network Authentication Required")
    ∷ []

abbrev pub status_text : List (ℕ × String) → ℕ → Bytes
status_text [] code = []
status_text ((c, text) ∷ table) code = if code == c then codes text else status_text table code

unfoldable pub http_get_status_msg : ℤ → StringView
http_get_status_msg (pos code) = view (status_text http_status_table code)
http_get_status_msg (negsuc _) = view []

-- The status is filled in on both branches.
unfoldable pub http_set_status : ℤ → HttpStatus × HttpErr
http_set_status code =
    let status : HttpStatus = record { code = code; message = http_get_status_msg code } in
    if string_view_empty (http_get_status_msg code)
    then (status, http_err_get_unkown_status)
    else (status, http_success)

-- The three digits and a terminator, at the front of the caller's buffer.
unfoldable pub http_get_status_sv : ℤ → Bytes → Bytes × Bool
http_get_status_sv (negsuc _) buf = (buf, false)
http_get_status_sv (pos code) buf =
    if ltb 600 code || ltb code 100
    then (buf, false)
    else ((code / 100 + b'0') ∷ (code / 10 % 10 + b'0') ∷ (code % 10 + b'0') ∷ 0 ∷ drop 4 buf, true)
