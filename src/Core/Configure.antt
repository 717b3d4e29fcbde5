-- ===== src/Core/Configure.antt =====
-- src/core/configure.c: the values that the configuration file sets, and the thread pool. The TOML
-- parser, the logger and the pool are libraries: a table is its lookups, and the pool's error codes
-- are arguments.
pub mod Values
use litehttp_c.Base.{
  ℕ, ◌+◌, ◌≡◌, Bool, true, false, not, List, [], ◌∷◌, Option, none, some, Bytes, codes, ltb, ◌==◌,
  if◌then◌else◌, ℤ, pos, negsuc, is_zero, is_neg, int_of_size, size_of_int, Alloc, ◌>>=◌,
}
use litehttp_c.Util.ErrorCode.{
  HttpErr, http_success, http_err_path, http_err_config, http_err_unset_fatal,
  http_err_unset_use_default, http_err_thd_pool_ini, http_err_thd_pool_destroy,
  http_err_thd_pool_thd_fn, http_err_thd_pool_add_job,
}
use litehttp_c.Util.StringView.{StringView}
use litehttp_c.Util.StringT.{
  StringT, string_zeroed, string_take_ownership, string_init_from_cstr, string_view_from_string,
  string_cstr,
}

-- A string of the parser: a block, and the length of the text in front of its terminator.
pub record TomlString : Type 0 where
  pub block : Bytes
  pub sl : ℕ

-- `toml_table_bool`, `toml_table_string` and `toml_table_int`, with `none` for a value that is not ok.
pub record TomlTable : Type 0 where
  pub toml_bool : Bytes → Option Bool
  pub toml_string : Bytes → Option TomlString
  pub toml_int : Bytes → Option ℤ

-- `toml_table_table` of the whole file.
abbrev pub Toml : Type 0
Toml = Bytes → Option TomlTable

pub record LoggerConfig : Type 0 where
  pub async : Bool
  pub log_file : StringT

pub record ServerConfig : Type 0 where
  pub host : StringT
  pub port : ℤ
  pub base_dir : StringT

pub record CoreConfig : Type 0 where
  pub handle_threads : ℤ
  pub listen_que : ℤ
  pub max_events : ℤ

-- The static variables, as the program starts.
abbrev pub logger_zeroed : LoggerConfig
logger_zeroed = record { async = false; log_file = string_zeroed }

abbrev pub server_zeroed : ServerConfig
server_zeroed = record { host = string_zeroed; port = pos 0; base_dir = string_zeroed }

abbrev pub core_zeroed : CoreConfig
core_zeroed = record { handle_threads = pos 0; listen_que = pos 0; max_events = pos 0 }

-- The fields of `ctp_logger_config_t` that the program sets; no path is a null pointer.
pub record CtpLoggerConfig : Type 0 where
  pub ctp_async : Bool
  pub ctp_log_file : Option Bytes

-- `(int) i` of an `int64_t`.
abbrev pub int_of_int64 : ℤ → ℤ
int_of_int64 z = int_of_size (size_of_int z)

pub data ConfigFile : Type 0 where
  open_failed parse_failed : ConfigFile
  parsed : Toml → ConfigFile

unfoldable pub parse_config_file : ConfigFile → Option Toml × HttpErr
parse_config_file open_failed = (none, http_err_path)
parse_config_file parse_failed = (none, http_err_config)
parse_config_file (parsed toml) = (some toml, http_success)

-- The blocks that `release_config_file` hands back, in its order.
pub data ConfigRelease : Type 0 where
  logger_closed : ConfigRelease
  toml_freed : Option Toml → ConfigRelease

abbrev pub release_config_file : Option Toml → List ConfigRelease
release_config_file toml = logger_closed ∷ toml_freed toml ∷ []

-- The two values of the logger's table, onto the logger's defaults.
abbrev log_async : Option Bool → LoggerConfig → CtpLoggerConfig → LoggerConfig × CtpLoggerConfig
log_async none config ctp = (config, ctp)
log_async (some b) config ctp = (record config { async = b }, record ctp { ctp_async = b })

abbrev log_path :
    Option TomlString → LoggerConfig × CtpLoggerConfig → LoggerConfig × CtpLoggerConfig
log_path none (config, ctp) = (config, ctp)
log_path (some s) (config, ctp) =
    let log_file = string_take_ownership config.log_file s.block s.sl in
    (
      record config { log_file = log_file },
      record ctp { ctp_log_file = some (string_cstr log_file) },
    )

unfoldable pub config_log :
    Toml → CtpLoggerConfig → LoggerConfig → LoggerConfig × CtpLoggerConfig × HttpErr
config_log toml ctp_default config = elim (toml (codes "logger")) [
  | none ↦ (config, ctp_default, http_err_unset_use_default)
  | some table ↦
      let (config', ctp) =
        log_path (table.toml_string (codes "log_file"))
          (log_async (table.toml_bool (codes "async")) config ctp_default) in
      (config', ctp, http_success)
]

-- The verdict of `string_init_from_cstr` is dropped.
abbrev pub host_value : Alloc → Option TomlString → ServerConfig → Option (ServerConfig × HttpErr)
host_value m none config = string_init_from_cstr m (some (codes "127.0.0.1")) >>= λ r.
    some (record config { host = r.0 }, http_err_unset_use_default)
host_value m (some s) config =
    some (record config { host = string_take_ownership config.host s.block s.sl }, http_success)

abbrev pub port_value : Option ℤ → ServerConfig × HttpErr → ServerConfig × HttpErr
port_value none (config, herr) = (record config { port = pos 2233 }, http_err_unset_use_default)
port_value (some i) (config, herr) = (record config { port = int_of_int64 i }, herr)

abbrev pub base_dir_value : Option TomlString → ServerConfig × HttpErr → ServerConfig × HttpErr
base_dir_value none (config, herr) = (config, http_err_unset_fatal)
base_dir_value (some s) (config, herr) =
    (record config { base_dir = string_take_ownership config.base_dir s.block s.sl }, herr)

abbrev pub server_of : Alloc → Option TomlTable → ServerConfig → Option (ServerConfig × HttpErr)
server_of m none config = some (config, http_err_unset_fatal)
server_of m (some table) config =
    host_value m (table.toml_string (codes "host")) config >>= λ with_host. some (
      base_dir_value (table.toml_string (codes "base_dir"))
        (port_value (table.toml_int (codes "port")) with_host))

unfoldable pub config_server : Alloc → Toml → ServerConfig → Option (ServerConfig × HttpErr)
config_server m toml config = server_of m (toml (codes "server")) config

abbrev pub handle_threads_value : Option ℤ → CoreConfig × HttpErr → CoreConfig × HttpErr
handle_threads_value none (config, herr) =
    (record config { handle_threads = pos 4 }, http_err_unset_use_default)
handle_threads_value (some i) (config, herr) =
    (record config { handle_threads = int_of_int64 i }, herr)

abbrev pub listen_que_value : Option ℤ → CoreConfig × HttpErr → CoreConfig × HttpErr
listen_que_value none (config, herr) =
    (record config { listen_que = pos 10 }, http_err_unset_use_default)
listen_que_value (some i) (config, herr) = (record config { listen_que = int_of_int64 i }, herr)

abbrev pub max_events_value : Option ℤ → CoreConfig × HttpErr → CoreConfig × HttpErr
max_events_value none (config, herr) =
    (record config { max_events = pos 100 }, http_err_unset_use_default)
max_events_value (some i) (config, herr) = (record config { max_events = int_of_int64 i }, herr)

-- The key of the third lookup is the second one's.
abbrev pub core_of : Option TomlTable → CoreConfig → CoreConfig × HttpErr
core_of none config = (config, http_err_unset_fatal)
core_of (some table) config = max_events_value (table.toml_int (codes "listen_que")) (
    listen_que_value (table.toml_int (codes "listen_que"))
      (handle_threads_value (table.toml_int (codes "handle_threads")) (config, http_success)))

unfoldable pub config_core : Toml → CoreConfig → CoreConfig × HttpErr
config_core toml config = core_of (toml (codes "core")) config

abbrev pub config_get_port : ServerConfig → ℤ
config_get_port config = config.port

abbrev pub get_host : ServerConfig → StringView
get_host config = string_view_from_string config.host

abbrev pub get_base_dir : ServerConfig → StringView
get_base_dir config = string_view_from_string config.base_dir

abbrev pub config_get_handle_threads : CoreConfig → ℤ
config_get_handle_threads config = config.handle_threads

abbrev pub config_get_max_events : CoreConfig → ℤ
config_get_max_events config = config.max_events

abbrev pub config_get_listen_que : CoreConfig → ℤ
config_get_listen_que config = config.listen_que

-- The argument is the error code of `ctp_thdpool_create`.
unfoldable pub thdpool_initial : ℤ → HttpErr
thdpool_initial ec = if not (is_zero ec) then http_err_thd_pool_ini else http_success

-- The argument is the error code of `ctp_thdpool_destroy`.
unfoldable pub thdpool_release : ℤ → HttpErr
thdpool_release ec =
    if is_zero ec
    then http_success
    else if not (is_neg ec)
    then http_err_thd_pool_destroy
    else http_err_thd_pool_thd_fn

-- The argument is the error code of `ctp_thdpool_add_job`.
unfoldable pub thdpool_addjob : ℤ → HttpErr
thdpool_addjob ec = if not (is_zero ec) then http_err_thd_pool_add_job else http_success
