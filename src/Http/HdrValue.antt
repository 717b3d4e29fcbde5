-- ===== src/Http/HdrValue.antt =====
-- src/http/http_types.c: the values of the header fields that the server understands. The union in
-- `http_hdr_value_t` is the 64-bit word that its members share, little-endian.
pub mod Scanning
pub mod Outcome
pub mod Length
pub mod ContentType
use litehttp_c.Base.{
  ℕ, zero, suc, ◌+◌, ◌-◌, ◌*◌, ◌/◌, ◌%◌, ◌^◌, Bool, true, false, not, ◌&&◌, ◌||◌, List, [], ◌∷◌,
  ◌++◌, Option, none, some, Bytes, codes, ltb, leb, ◌==◌, if◌then◌else◌, ℤ, pos, negsuc,
  size_of_int,
}
use litehttp_c.Http.HdrValue.Scanning.{
  c_string, skip_blank, trim_major, split_at, cut_at, enum_of, strtoll,
}
use litehttp_c.Util.ErrorCode.{
  HttpErr, http_success, http_err_param_invalid_nullptr, http_err_parse_value,
  http_err_parse_unkown_content_type, http_err_parse_invalid_content_length,
  http_err_parse_unkown_connection_type, http_err_parse_unkown_transfer_encoding,
}
use litehttp_c.Util.StringView.{StringView, view_bytes}
use litehttp_c.Http.Types.{
  HttpHeaderField, http_hdr_host, http_hdr_user_agent, http_hdr_accept, http_hdr_content_type,
  http_hdr_content_length, http_hdr_connection, http_hdr_transfer_encoding, http_hdr_max,
  http_hdr_unkown, match_from,
}

pub record HttpHdrValue : Type 0 where
  pub value_sv : StringView
  pub has_parsed_type : Bool
  pub word : ℕ

-- The members of the union: the content length is the whole word, the two enumerations of a content
-- type are its halves, and a connection or transfer encoding type is its low half.
abbrev pub content_length : HttpHdrValue → ℕ
content_length value = value.word

abbrev pub content_type_major : HttpHdrValue → ℕ
content_type_major value = value.word % 2 ^ 32

abbrev pub content_type_sub : HttpHdrValue → ℕ
content_type_sub value = value.word / 2 ^ 32

abbrev pub connection_type : HttpHdrValue → ℕ
connection_type value = value.word % 2 ^ 32

abbrev pub transfer_encoding_type : HttpHdrValue → ℕ
transfer_encoding_type value = value.word % 2 ^ 32

abbrev pub set_content_length : HttpHdrValue → ℤ → HttpHdrValue
set_content_length value z = record value { word = size_of_int z }

abbrev pub set_content_type : HttpHdrValue → ℕ → ℕ → HttpHdrValue
set_content_type value major sub = record value { word = major + sub * 2 ^ 32 }

abbrev pub set_low_half : HttpHdrValue → ℕ → HttpHdrValue
set_low_half value t = record value { word = t + value.word / 2 ^ 32 * 2 ^ 32 }

abbrev pub http_connection_unkown : ℕ
http_connection_unkown = 0

abbrev pub http_connection_keep_alive : ℕ
http_connection_keep_alive = 1

abbrev pub http_connection_close : ℕ
http_connection_close = 2

abbrev pub http_transfer_encoding_unkown : ℕ
http_transfer_encoding_unkown = 0

abbrev pub http_transfer_encoding_chunked : ℕ
http_transfer_encoding_chunked = 1

pub record HttpHeader : Type 0 where
  pub field : HttpHeaderField
  pub value : HttpHdrValue
  pub name : StringView

-- The text in the buffer that `string_view_to_buf` fills: it ends at the first NUL.
abbrev pub content_type_majors : List Bytes
content_type_majors =
    codes "text" ∷ codes "application" ∷ codes "image" ∷ codes "audio" ∷ codes "video" ∷ []

abbrev pub content_type_subs : List Bytes
content_type_subs =
    codes "plain"
    ∷ codes "html"
    ∷ codes "json"
    ∷ codes "xml"
    ∷ codes "x-www-form-urlencoded"
    ∷ codes "form-data"
    ∷ codes "png"
    ∷ codes "jpeg"
    ∷ codes "gif"
    ∷ []

unfoldable pub http_hdr_value_parse_content_type : HttpHdrValue → HttpHdrValue × HttpErr
http_hdr_value_parse_content_type value =
    elim (split_at b'/' (skip_blank (c_string (view_bytes value.value_sv)))) [
      | none ↦ (set_content_type value 0 0, http_err_parse_unkown_content_type)
      | some (p, behind) ↦
          let major = enum_of 1 content_type_majors (trim_major p) in
          let sub = enum_of 1 content_type_subs (cut_at b';' (skip_blank behind)) in
          let typed = record (set_content_type value major sub) { has_parsed_type = true } in
          if major == 0 && sub == 0
          then (typed, http_err_parse_unkown_content_type)
          else (typed, http_success)
    ]

unfoldable pub http_hdr_value_parse_content_length : HttpHdrValue → HttpHdrValue × HttpErr
http_hdr_value_parse_content_length value =
    elim (strtoll (skip_blank (c_string (view_bytes value.value_sv)))) [
      | none ↦ (value, http_err_parse_invalid_content_length)
      | some z ↦ (set_content_length value z, http_success)
    ]

unfoldable pub http_hdr_value_parse_connection : HttpHdrValue → HttpHdrValue × HttpErr
http_hdr_value_parse_connection value =
    elim (match_from 0 (codes "keep-alive" ∷ codes "close" ∷ []) value.value_sv) [
      | some i ↦ (set_low_half value (i + 1), http_success)
      | none ↦ (set_low_half value http_connection_unkown, http_err_parse_unkown_connection_type)
    ]

unfoldable pub http_hdr_value_parse_transfer_encoding : HttpHdrValue → HttpHdrValue × HttpErr
http_hdr_value_parse_transfer_encoding value =
    elim (match_from 0 (codes "chunked" ∷ []) value.value_sv) [
      | some i ↦ (set_low_half value (i + 1), http_success)
      | none ↦ (
        set_low_half value http_transfer_encoding_unkown,
        http_err_parse_unkown_transfer_encoding,
      )
    ]

-- The switch on the field.
unfoldable pub parse_field_value : HttpHeaderField → HttpHdrValue → HttpHdrValue × HttpErr
parse_field_value http_hdr_content_type value = http_hdr_value_parse_content_type value
parse_field_value http_hdr_content_length value = http_hdr_value_parse_content_length value
parse_field_value http_hdr_connection value = http_hdr_value_parse_connection value
parse_field_value http_hdr_transfer_encoding value = http_hdr_value_parse_transfer_encoding value
parse_field_value _ value = (record value { has_parsed_type = false }, http_success)

abbrev pub conclude_value : HttpHeader → HttpHdrValue × HttpErr → HttpHeader × HttpErr
conclude_value header (value, http_success) = (record header { value = value }, http_success)
conclude_value header (value, _) =
    (record header { value = record value { has_parsed_type = false } }, http_err_parse_value)

unfoldable pub http_hdr_parse_value : Option HttpHeader → StringView → Option HttpHeader × HttpErr
http_hdr_parse_value none value_sv = (none, http_err_param_invalid_nullptr)
http_hdr_parse_value (some header) value_sv =
    let value = record header.value { value_sv = value_sv; has_parsed_type = true } in
    let (header', err) = conclude_value header (parse_field_value header.field value) in
    (some header', err)
