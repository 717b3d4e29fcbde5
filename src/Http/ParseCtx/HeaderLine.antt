-- ===== src/Http/ParseCtx/HeaderLine.antt =====
-- `parse_header_line` and `header_line_update_body_type` of src/http/http_parse_dfa.c on a line of a
-- name and a value.
use litehttp_c.Base.{
  ℕ, ◌+◌, ◌^◌, ◌<◌, ◌≡◌, refl, sym, append_assoc, drop, ap, ◌∙◌, true, [], ◌∷◌, ◌++◌, some, Bytes,
  length, arith, ◌&&◌, ◌==◌, if◌then◌else◌, length-append, drop-append_self, get_or,
  get_or-append_self,
}
use litehttp_c.Util.StringView.{view, string_t_npos}
use litehttp_c.Http.Types.{
  HttpHeaderField, http_hdr_host, http_hdr_content_length, http_hdr_transfer_encoding,
}
use litehttp_c.Http.HdrValue.{
  HttpHeader, content_length, transfer_encoding_type, http_transfer_encoding_chunked,
  http_hdr_parse_value,
}
use litehttp_c.Http.ParseCtx.{
  HttpParseCtx, BodyType, http_transfer_body_fixed, http_transfer_body_chunked, Mem, pos_next_token,
  set_request, substr,
}
use litehttp_c.Http.ParseCtx.Header.{
  parse_header_line, header_line_update_body_type, update_body_type_at, header_of_line, degraded,
  named_header, value_of_line,
}
use litehttp_c.Http.ParseCtx.Scan.{Lacks}
use litehttp_c.Http.ParseCtx.Tokens.{substr_rest, substr_middle, pos_next_token_lem}

-- A header field as it is sent.
abbrev pub header_line : Bytes × Bytes → Bytes
header_line (name, value) = name ++ (b':' ∷ b' ' ∷ value)

-- The header that stands for it.
abbrev header_with : Bytes → Bytes → HttpHeader
header_with name value =
    (degraded (named_header name) name
      (http_hdr_parse_value (some (named_header name)) (view value))).0

abbrev pub header_from : Bytes × Bytes → HttpHeader
header_from (name, value) = header_with name value

-- What a header says of the body: its kind and its length, over what was said before.
abbrev pub framed_at : HttpHeaderField → HttpHeader → BodyType × ℕ → BodyType × ℕ
framed_at http_hdr_content_length header body =
    if header.value.has_parsed_type
    then (http_transfer_body_fixed, content_length header.value)
    else body
framed_at http_hdr_transfer_encoding header body =
    if header.value.has_parsed_type
      && transfer_encoding_type header.value == http_transfer_encoding_chunked
    then (http_transfer_body_chunked, body.1)
    else body
framed_at _ header body = body

abbrev pub framed : HttpHeader → BodyType × ℕ → BodyType × ℕ
framed header body = framed_at header.field header body

-- What a node keeps when a header has been added to it.
pub record Headed (c : HttpParseCtx) (h : HttpHeader) (d : HttpParseCtx) : Type 0 where
  pub request_eq :
      d.http_request
      ≡ record c.http_request { header_list = c.http_request.header_list ++ (h ∷ []) }
  pub body_eq : (d.body_type, d.body_length) ≡ framed h (c.body_type, c.body_length)

update_body_type-framed :
    (f : HttpHeaderField) (h : HttpHeader) (c : HttpParseCtx)
    → ((update_body_type_at f h c).0.http_request ≡ c.http_request)
      × (((update_body_type_at f h c).0.body_type, (update_body_type_at f h c).0.body_length)
          ≡ framed_at f h (c.body_type, c.body_length))
update_body_type-framed http_hdr_host h c = ground arith
update_body_type-framed _ h c = ground arith

header_of_line_lem :
    (name value : Bytes)
    → length (header_line (name, value)) < 2 ^ 64
    → (header_of_line (header_line (name, value)) (length name) (length name + 1)).0
      ≡ header_from (name, value)
unfolding header_of_line
header_of_line_lem name value h =
    let line = header_line (name, value) in
    let key : substr line 0 (length name) ≡ name =
      substr_middle [] name (b':' ∷ b' ' ∷ value) 0 (length name) refl refl in
    let front : line ≡ (name ++ (b':' ∷ [])) ++ (b' ' ∷ value) =
      sym (append_assoc name (b':' ∷ []) (b' ' ∷ value)) in
    let ends = length-append name (b':' ∷ []) in
    let space : get_or line (length name + 1) b'\r' ≡ b' ' =
      ap (λ t. get_or t (length name + 1) b'\r') front
      ∙ get_or-append_self (length name + 1) (name ++ (b':' ∷ [])) b' ' value b'\r'
          (omega (arith, ends)) in
    let behind : line ≡ (name ++ (b':' ∷ b' ' ∷ [])) ++ value =
      sym (append_assoc name (b':' ∷ b' ' ∷ []) value) in
    let rest : substr line (length name + 1 + 1) string_t_npos ≡ value =
      substr_rest line (length name + 1 + 1) string_t_npos (omega arith)
      ∙ ap (drop (length name + 1 + 1)) behind
      ∙ drop-append_self (length name + 1 + 1) (name ++ (b':' ∷ b' ' ∷ [])) value
          (omega (arith, length-append name (b':' ∷ b' ' ∷ []))) in
    let text : value_of_line line (length name + 1) ≡ value =
      ap
        (λ b.
          substr line (if b == b' ' then length name + 1 + 1 else length name + 1) string_t_npos)
        space
      ∙ rest in
    ap (λ k. header_with k (value_of_line line (length name + 1))) key ∙ ap (header_with name) text

pub parse_header_line-Headed :
    (mem : Mem) (c : HttpParseCtx) (name value : Bytes)
    → Lacks b':' name
    → length (header_line (name, value)) < 2 ^ 64
    → mem.header_ok (length c.http_request.header_list) ≡ true
    → Headed c (header_from (name, value)) (parse_header_line mem c (header_line (name, value))).0
unfolding parse_header_line header_line_update_body_type
parse_header_line-Headed mem c name value l h ok =
    let token : pos_next_token (header_line (name, value)) b':' 0
        ≡ some (length name, length name + 1) =
      pos_next_token_lem [] name (b' ' ∷ value) b':' 0 refl l
      ∙ ap (λ n. some (length name, n)) (omega arith) in
    let header = header_of_line_lem name value h in
    let req = c.http_request in
    let added =
      set_request c
        (record req { header_list = req.header_list ++ (header_from (name, value) ∷ []) }) in
    let body =
      update_body_type-framed (header_from (name, value)).field (header_from (name, value)) added in
    rw (token, parse_header_line, ok, header) (record { request_eq = body.0; body_eq = body.1 })
