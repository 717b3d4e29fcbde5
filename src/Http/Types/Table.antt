-- ===== src/Http/Types/Table.antt =====
-- The tables of src/http/http_types.c, read in both directions.
use litehttp_c.Base.{◌≡◌, ◌≢◌, refl}
use litehttp_c.Util.StringView.{string_view_compare_cstr, strncmp}
use litehttp_c.Http.Types.{
  HttpVersion, http_ver_1_0, http_ver_1_1, http_ver_2_0, http_ver_3_0, http_ver_unkown,
  http_match_version, http_get_version_sv, HttpHeaderField, http_hdr_host, http_hdr_user_agent,
  http_hdr_accept, http_hdr_content_type, http_hdr_content_length, http_hdr_connection,
  http_hdr_transfer_encoding, http_hdr_max, http_hdr_unkown, http_match_header_field,
  http_get_header_field_sv, match_from,
}

-- The text of a known version is read back as that version, and the empty text of the unknown one as
-- the unknown one.
pub http_match_version-http_get_version_sv :
    (version : HttpVersion) → http_match_version (http_get_version_sv version) ≡ version
unfolding http_match_version http_get_version_sv strncmp
http_match_version-http_get_version_sv http_ver_1_0 = refl
http_match_version-http_get_version_sv http_ver_1_1 = refl
http_match_version-http_get_version_sv http_ver_2_0 = refl
http_match_version-http_get_version_sv http_ver_3_0 = refl
http_match_version-http_get_version_sv http_ver_unkown = refl

-- The name of a header field is read back as that field, except for the mark behind the last known
-- field, which has no name.
pub http_match_header_field-http_get_header_field_sv :
    (field : HttpHeaderField)
    → field ≢ http_hdr_max
    → http_match_header_field (http_get_header_field_sv field) ≡ field
unfolding http_match_header_field http_get_header_field_sv string_view_compare_cstr strncmp
    match_from
http_match_header_field-http_get_header_field_sv http_hdr_host n = refl
http_match_header_field-http_get_header_field_sv http_hdr_user_agent n = refl
http_match_header_field-http_get_header_field_sv http_hdr_accept n = refl
http_match_header_field-http_get_header_field_sv http_hdr_content_type n = refl
http_match_header_field-http_get_header_field_sv http_hdr_content_length n = refl
http_match_header_field-http_get_header_field_sv http_hdr_connection n = refl
http_match_header_field-http_get_header_field_sv http_hdr_transfer_encoding n = refl
http_match_header_field-http_get_header_field_sv http_hdr_max n = absurd (n refl)
http_match_header_field-http_get_header_field_sv http_hdr_unkown n = refl
