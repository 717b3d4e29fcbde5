-- ===== src/Http/HdrValue/Outcome.antt =====
-- The codes that `http_hdr_parse_value` of src/http/http_types.c returns.
use litehttp_c.Base.{◌≡◌, refl, true, some, ◌⊎◌, inl, inr}
use litehttp_c.Util.ErrorCode.{HttpErr, http_success, http_err_parse_value}
use litehttp_c.Util.StringView.{StringView}
use litehttp_c.Http.HdrValue.{
  HttpHeader, HttpHdrValue, parse_field_value, http_hdr_parse_value, conclude_value,
}

conclude_code :
    (h : HttpHeader) (v : HttpHdrValue) (e : HttpErr)
    → ((conclude_value h (v, e)).1 ≡ http_success)
      ⊎ ((conclude_value h (v, e)).1 ≡ http_err_parse_value)
conclude_code h v http_success = inl refl
conclude_code h v _ = inr refl

pub parse_value_code :
    (h : HttpHeader) (sv : StringView)
    → ((http_hdr_parse_value (some h) sv).1 ≡ http_success)
      ⊎ ((http_hdr_parse_value (some h) sv).1 ≡ http_err_parse_value)
unfolding http_hdr_parse_value
parse_value_code h sv =
    let value = record h.value { value_sv = sv; has_parsed_type = true } in
    conclude_code h (parse_field_value h.field value).0 (parse_field_value h.field value).1
