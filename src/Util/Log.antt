-- ===== src/Util/Log.antt =====
-- src/util/base.c and its header: what is handed to the logger, which is a library; and
-- `print_err_exit` of src/util/error_code.c.
use litehttp_c.Base.{ℕ, ◌+◌, ℤ, List, [], ◌∷◌, ◌++◌, Option, some, Bytes, codes, ◌>>=◌}
use litehttp_c.Util.ErrorCode.{HttpErr, http_err_str}
use litehttp_c.Util.Message.{
  HttpMessage, CtpLogLevel, http_message_level, http_message_str, http_message_str_with_prefix,
}
use litehttp_c.Util.StringView.{StringView, string_view_len, string_view_to_buf}

-- A call of the logger: its level, its format, and the texts that it formats.
pub record LogCall : Type 0 where
  pub level : CtpLogLevel
  pub format : Bytes
  pub args : List Bytes

unfoldable pub log_http_message : HttpMessage → List Bytes → LogCall
log_http_message name args = record {
  level = http_message_level name;
  format = codes (http_message_str name);
  args = args;
}

-- `strerror_r` is an argument: the text that it writes for a code.
unfoldable pub log_http_message_with_ec : (ℤ → Bytes) → ℤ → HttpMessage → List Bytes → LogCall
log_http_message_with_ec strerror_r ec name args = record {
  level = http_message_level name;
  format = http_message_str_with_prefix name;
  args = strerror_r ec ∷ args;
}

-- The view is copied to a buffer of its length and one byte more.
unfoldable pub log_http_message_with_1sv : Bytes → HttpMessage → StringView → Option LogCall
log_http_message_with_1sv buf name sv = string_view_to_buf sv buf (string_view_len sv + 1) >>= λ r.
    some (log_http_message name (r.0 ∷ []))

-- What is printed, and the code that the program is left with. The text is put into the buffer of
-- `stdout`, which `_exit` does not flush.
unfoldable pub print_err_exit : HttpErr → Bytes → Bytes × ℕ
print_err_exit ec msg = (codes (http_err_str ec) ++ codes " " ++ msg ++ codes "\n", 1)
