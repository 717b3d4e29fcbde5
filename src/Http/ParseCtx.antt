-- ===== src/Http/ParseCtx.antt =====
-- The parse context of src/http/http_parse_ctx_internal.h, and the functions of
-- src/http/http_parse_dfa.c that read one line. The text of `post` is that of its `string_t`; a view
-- into it is the bytes that it spans when it is made.
pub mod Scan
pub mod Lines
pub mod Views
pub mod Tokens
pub mod Header
pub mod HeaderLine
use litehttp_c.Base.{
  ℕ, zero, suc, ◌+◌, ◌-◌, ◌*◌, Bool, true, false, not, ◌&&◌, List, [], ◌∷◌, ◌++◌, Option, none,
  some, Bytes, length, get_or, drop, leb, ◌==◌, if◌then◌else◌, size_add, size_sub, ◌>>=◌, ◌>>◌,
  assert,
}
use litehttp_c.Util.ErrorCode.{
  HttpErr, http_success, http_err_malloc, http_err_parse_cannot_find_space,
  http_err_request_keep_alive, http_err_request_want_to_close,
}
use litehttp_c.Util.StringView.{
  StringView, null, view, view_bytes, string_view_substr, string_t_npos,
}
use litehttp_c.Http.Types.{
  http_method_unkown, HttpHeaderField, http_hdr_host, http_hdr_user_agent, http_hdr_accept,
  http_hdr_content_type, http_hdr_content_length, http_hdr_connection, http_hdr_transfer_encoding,
  http_hdr_max, http_hdr_unkown, http_ver_unkown, http_match_method, http_match_version,
  http_match_header_field,
}
use litehttp_c.Http.HdrValue.{
  HttpHdrValue, HttpHeader, content_length, connection_type, transfer_encoding_type,
  http_transfer_encoding_chunked, http_connection_keep_alive, http_connection_close,
  http_hdr_parse_value,
}
use litehttp_c.Http.Request.{HttpRequest, fresh_request}

pub data WaitState : Type 0 where
  http_parse_start http_parse_wait_req http_parse_wait_hdr http_parse_wait_fix_body : WaitState
  http_parse_wait_clen http_parse_wait_cval http_parse_end : WaitState

pub data BodyType : Type 0 where
  http_transfer_body_unset http_transfer_body_fixed http_transfer_body_chunked : BodyType

pub record HttpParseCtx : Type 0 where
  pub wait_state : WaitState
  pub post : Bytes
  pub post_full_length : ℕ
  pub cur : ℕ
  pub next_line : ℕ
  pub request_line : Bytes
  pub header_list : List Bytes
  pub body_type : BodyType
  pub body_length : ℕ
  pub body_cur : ℕ
  pub body_view : Bytes
  pub http_request : HttpRequest

-- A node as `http_parse_ctx_new` makes it.
abbrev pub fresh_ctx : HttpParseCtx
fresh_ctx = record {
  wait_state = http_parse_start;
  post = [];
  post_full_length = 0;
  cur = 0;
  next_line = 0;
  request_line = [];
  header_list = [];
  body_type = http_transfer_body_unset;
  body_length = 0;
  body_cur = 0;
  body_view = [];
  http_request = fresh_request;
}

-- Whether assertions are compiled in.
pub data Build : Type 0 where
  debug release : Build

abbrev pub check : Build → Bool → Option (Unit {0})
check debug b = assert b
check release b = some tt

-- The place of the first carriage return and line feed.
unfoldable pub find_clrf : Bytes → Option ℕ
find_clrf [] = none
find_clrf (x ∷ []) = none
find_clrf (x ∷ y ∷ r) =
    let rest = find_clrf (y ∷ r) in
    if x == b'\r' && y == b'\n' then some 0 else elim rest [ none ↦ none | some i ↦ some (suc i) ]

-- `none` is `http_err_parse_cannot_find_clrf`.
unfoldable pub update_ctx_to_next_clrf : HttpParseCtx → Option HttpParseCtx
update_ctx_to_next_clrf ctx = elim (find_clrf (drop ctx.next_line ctx.post)) [
  | none ↦ none
  | some i ↦ some (record ctx { cur = ctx.next_line; next_line = ctx.next_line + i + 2 })
]

abbrev pub get_ctx_line : HttpParseCtx → ℕ
get_ctx_line ctx = ctx.next_line - ctx.cur - 2

abbrev pub get_ctx_focus_line : HttpParseCtx → Bytes
get_ctx_focus_line ctx =
    view_bytes (string_view_substr (view ctx.post) ctx.cur (ctx.next_line - ctx.cur - 2))

unfoldable pub find_char : ℕ → Bytes → Option ℕ
find_char c [] = none
find_char c (x ∷ xs) =
    let rest = find_char c xs in
    if x == c then some 0 else elim rest [ none ↦ none | some i ↦ some (suc i) ]

-- The token's length and the place behind its separator; `none` is
-- `http_err_parse_cannot_find_space`.
unfoldable pub pos_next_token : Bytes → ℕ → ℕ → Option (ℕ × ℕ)
pos_next_token text c this_token = elim (find_char c (drop this_token text)) [
  | none ↦ none
  | some i ↦ some (i, this_token + i + 1)
]

abbrev pub substr : Bytes → ℕ → ℕ → Bytes
substr text start len = view_bytes (string_view_substr (view text) start len)

-- The outcome of each allocation that a call of the parser makes. The pushes are numbered by the
-- header lines pushed so far. `reads` is what stands in the old block of `post` when its append has
-- moved it, by what a view into it spanned.
pub record Mem : Type 0 where
  pub append_ok : Bool
  pub path_ok : Bool
  pub body_ok : Bool
  pub ctx_ok : Bool
  pub reads : Bytes → Bytes
  pub line_ok : ℕ → Bool
  pub header_ok : ℕ → Bool

abbrev pub set_request : HttpParseCtx → HttpRequest → HttpParseCtx
set_request ctx req = record ctx { http_request = req }

-- The version, which stands behind both spaces.
abbrev pub parse_version : HttpParseCtx → HttpRequest → ℕ → HttpParseCtx × HttpErr
parse_version ctx req cur_token =
    let version_sv = substr ctx.request_line cur_token (size_sub (ctx.next_line - 2) cur_token) in
    (set_request ctx (record req { version = http_match_version (view version_sv) }), http_success)

-- The path, behind the first space.
unfoldable pub parse_path :
    Build → Mem → HttpParseCtx → HttpRequest → ℕ → Option (HttpParseCtx × HttpErr)
parse_path build mem ctx req cur_token = elim (pos_next_token ctx.request_line b' ' cur_token) [
  | none ↦ some (set_request ctx req, http_err_parse_cannot_find_space)
  | some (token_len, next_token) ↦ do
    check build (leb next_token ctx.next_line)
    check build (leb ctx.cur next_token)
    let path = substr ctx.request_line cur_token token_len
    some (
        if mem.path_ok
        then parse_version ctx (record req { path = path }) next_token
        else (set_request ctx req, http_err_malloc))
]

unfoldable pub parse_request_line : Build → Mem → HttpParseCtx → Option (HttpParseCtx × HttpErr)
parse_request_line build mem ctx = elim (pos_next_token ctx.request_line b' ' 0) [
  | none ↦ some (
    set_request ctx
        (record ctx.http_request { method = http_method_unkown; version = http_ver_unkown }),
    http_err_parse_cannot_find_space,
  )
  | some (token_len, next_token) ↦ do
    check build (leb next_token ctx.next_line)
    check build (leb ctx.cur next_token)
    let method_sv = substr ctx.request_line 0 token_len
    check build (length method_sv == token_len)
    parse_path build mem ctx
        (record ctx.http_request { method = http_match_method (view method_sv) }) next_token
]
