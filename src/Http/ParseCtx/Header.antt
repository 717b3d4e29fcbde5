-- ===== src/Http/ParseCtx/Header.antt =====
-- `parse_header_line` of src/http/http_parse_dfa.c, and what a header says of the body.
use litehttp_c.Base.{
  ℕ, ◌+◌, Bool, true, false, not, ◌&&◌, [], ◌∷◌, ◌++◌, Option, none, some, Bytes, length, get_or,
  ◌==◌, if◌then◌else◌,
}
use litehttp_c.Util.ErrorCode.{
  HttpErr, http_success, http_err_malloc, http_err_parse_cannot_find_space,
  http_err_request_keep_alive, http_err_request_want_to_close,
}
use litehttp_c.Util.StringView.{null, view, string_t_npos}
use litehttp_c.Http.Types.{
  HttpHeaderField, http_hdr_host, http_hdr_content_type, http_hdr_content_length,
  http_hdr_transfer_encoding, http_hdr_unkown, http_match_header_field,
}
use litehttp_c.Http.HdrValue.{
  HttpHeader, content_length, connection_type, transfer_encoding_type,
  http_transfer_encoding_chunked, http_connection_keep_alive, http_connection_close,
  http_hdr_parse_value,
}
use litehttp_c.Http.ParseCtx.{
  HttpParseCtx, http_transfer_body_fixed, http_transfer_body_chunked, Mem, set_request, substr,
  pos_next_token,
}

-- The header's effect on the body that is expected, and the code that its caller drops. The content
-- type is read as a connection type there.
abbrev pub update_body_type_at :
    HttpHeaderField → HttpHeader → HttpParseCtx → HttpParseCtx × HttpErr
update_body_type_at http_hdr_content_length header ctx =
    if header.value.has_parsed_type
    then (
      record ctx {
        body_type = http_transfer_body_fixed;
        body_length = content_length header.value;
      },
      http_success,
    )
    else (ctx, http_success)
update_body_type_at http_hdr_transfer_encoding header ctx =
    if header.value.has_parsed_type
      && transfer_encoding_type header.value == http_transfer_encoding_chunked
    then (record ctx { body_type = http_transfer_body_chunked }, http_success)
    else (ctx, http_success)
update_body_type_at http_hdr_content_type header ctx =
    if not header.value.has_parsed_type
    then (ctx, http_success)
    else if connection_type header.value == http_connection_keep_alive
    then (ctx, http_err_request_keep_alive)
    else if connection_type header.value == http_connection_close
    then (ctx, http_err_request_want_to_close)
    else (ctx, http_success)
update_body_type_at _ header ctx = (ctx, http_success)

unfoldable pub header_line_update_body_type : HttpHeader → HttpParseCtx → HttpParseCtx × HttpErr
header_line_update_body_type header ctx = update_body_type_at header.field header ctx

abbrev pub empty_header : HttpHeader
empty_header = record {
  field = http_hdr_host;
  value = record { value_sv = null; has_parsed_type = false; word = 0 };
  name = null;
}

-- A header whose value cannot be parsed becomes an unknown one.
abbrev pub degrade : HttpHeader → Bytes → HttpErr → HttpHeader
degrade header key http_success = header
degrade header key _ = record header { field = http_hdr_unkown; name = view key }

abbrev pub degraded : HttpHeader → Bytes → Option HttpHeader × HttpErr → HttpHeader × HttpErr
degraded old key (none, err) = (degrade old key err, err)
degraded old key (some header, err) = (degrade header key err, err)

abbrev pub is_unkown : HttpHeaderField → Bool
is_unkown http_hdr_unkown = true
is_unkown _ = false

-- The header before its value is parsed: only an unknown field keeps its name.
abbrev pub named_header : Bytes → HttpHeader
named_header key =
    let field = http_match_header_field (view key) in
    record empty_header { field = field; name = if is_unkown field then view key else null }

-- The value behind the colon, without one leading space. The byte behind the line, which is read
-- when the colon is its last, is a carriage return.
abbrev pub value_of_line : Bytes → ℕ → Bytes
value_of_line header_sv next_token =
    substr header_sv
      (if get_or header_sv next_token b'\r' == b' ' then next_token + 1 else next_token)
      string_t_npos

-- The header that a line with its colon at `token_len` stands for.
unfoldable pub header_of_line : Bytes → ℕ → ℕ → HttpHeader × HttpErr
header_of_line header_sv token_len next_token =
    let key = substr header_sv 0 token_len in
    degraded (named_header key) key
      (http_hdr_parse_value (some (named_header key)) (view (value_of_line header_sv next_token)))

-- `parse_header_line`, on the line that the caller pushed last.
unfoldable pub parse_header_line : Mem → HttpParseCtx → Bytes → HttpParseCtx × HttpErr
parse_header_line mem ctx header_sv = elim (pos_next_token header_sv b':' 0) [
  | none ↦ (ctx, http_err_parse_cannot_find_space)
  | some (token_len, next_token) ↦
      let (header, err) = header_of_line header_sv token_len next_token in
      let req = ctx.http_request in
      if mem.header_ok (length req.header_list)
      then (
        (header_line_update_body_type header
            (set_request ctx (record req { header_list = req.header_list ++ (header ∷ []) }))).0,
        err,
      )
      else (ctx, http_err_malloc)
]
