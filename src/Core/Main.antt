-- ===== src/Core/Main.antt =====
-- src/main.c: the program from its configuration file to its exit.
pub mod Exits
use litehttp_c.Base.{
  ℕ, ◌≡◌, ◌↔◌, Bool, true, false, not, List, [], ◌∷◌, Option, none, some, if◌then◌else◌, Alloc,
  ◌>>=◌, ℤ, refl, arith,
}
use litehttp_c.Util.ErrorCode.{HttpErr, http_success, http_err_unset_fatal, http_err_sigaction}
use litehttp_c.Core.Configure.{
  ConfigFile, Toml, LoggerConfig, ServerConfig, CoreConfig, CtpLoggerConfig, logger_zeroed,
  server_zeroed, core_zeroed, parse_config_file, config_log, config_server, config_core,
  thdpool_initial, thdpool_release, config_get_max_events,
}
use litehttp_c.Http.Resource.{KHash, TableState, resource_getter_initial, resource_getter_release}
use litehttp_c.Core.Dispatch.{is_success}
use litehttp_c.Core.Server.{ListenCalls, Listening, get_ipv4_server_fd}
use litehttp_c.Core.Reactor.{LoopCalls, LoopEnd, Turn, Job, handle_ipv4_main_loop}

-- `http_signal` of src/util/base.c, by the outcome of `sigaction`.
unfoldable pub http_signal : Bool → HttpErr
http_signal sigaction_ok = if sigaction_ok then http_success else http_err_sigaction

abbrev pub is_unset_fatal : HttpErr → Bool
is_unset_fatal http_err_unset_fatal = true
is_unset_fatal _ = false

-- What `initial` leaves, when it does not leave the program.
pub record Configured : Type 0 where
  pub logger : LoggerConfig
  pub ctp_logger : CtpLoggerConfig
  pub server : ServerConfig
  pub core : CoreConfig

abbrev pub config_rest :
    LoggerConfig × CtpLoggerConfig × HttpErr
    → CoreConfig × HttpErr
    → ServerConfig × HttpErr
    → Option Configured
config_rest (logger, ctp, log_err) (core, extra) (server, herr) =
    if is_unset_fatal herr
    then none
    else if is_unset_fatal extra
    then none
    else some (record { logger = logger; ctp_logger = ctp; server = server; core = core })

abbrev pub from_file : Alloc → CtpLoggerConfig → Option Toml × HttpErr → Option (Option Configured)
from_file m ctp_default (none, herr) = some none
from_file m ctp_default (some toml, herr) =
    if not (is_success herr)
    then some none
    else config_server m toml server_zeroed >>= λ server. some (
        config_rest (config_log toml ctp_default logger_zeroed) (config_core toml core_zeroed)
          server)

-- Everything that the run meets behind its configuration: the outcomes of its calls, the turns of the
-- loop, and what the jobs of the thread pool leave of the table of resources.
pub record MainCalls (A : Type 0) : Type 0 where
  pub pool_create_ec : ℤ
  pub table_ok : Bool
  pub mutex_ok : Bool
  pub listen : ListenCalls
  pub sigaction_ok : Bool
  pub loop : LoopCalls
  pub turns : List Turn
  pub pool_destroy_ec : ℤ
  pub table_later : TableState A → TableState A
  pub mutex_destroy_ok : Bool

-- What `initial` leaves behind a configuration. The two results are not looked at.
pub record Started (A : Type 0) : Type 0 where
  pub configured : Configured
  pub pool_result : HttpErr
  pub table : TableState A
  pub table_result : HttpErr

-- The exit code, or `still_running` when the loop outlives the turns.
pub data Exit : Type 0 where
  exited : ℕ → Exit
  still_running : Exit

module _ (H : KHash) where
  abbrev pub started : MainCalls H.Table → Option Configured → Option (Started H.Table)
  started calls none = none
  started calls (some configured) = some (record {
    configured = configured;
    pool_result = thdpool_initial calls.pool_create_ec;
    table = (resource_getter_initial H calls.table_ok calls.mutex_ok).0;
    table_result = (resource_getter_initial H calls.table_ok calls.mutex_ok).1;
  })

  -- The inner `none` is `exit(1)`.
  unfoldable pub initial :
      Alloc → CtpLoggerConfig → ConfigFile → MainCalls H.Table → Option (Option (Started H.Table))
  initial m ctp_default file calls =
      from_file m ctp_default (parse_config_file file) >>= λ c. some (started calls c)

  -- The releases behind the loop: their results are not looked at, and the pool is not looked at again
  -- when it could not be destroyed.
  unfoldable pub released : MainCalls H.Table → TableState H.Table → Option Exit
  released calls table =
      let pool_result = thdpool_release calls.pool_destroy_ec in
      resource_getter_release H calls.mutex_destroy_ok (calls.table_later table) >>= λ r.
      some (exited 0)

  abbrev pub exit_of : MainCalls H.Table → TableState H.Table → Option HttpErr → Option Exit
  exit_of calls table none = some still_running
  exit_of calls table (some herr) = released calls table

  abbrev pub after_loop : MainCalls H.Table → TableState H.Table → LoopEnd → Option Exit
  after_loop calls table loop = exit_of calls table loop.result

  -- The loop reads its wait count from the configuration.
  abbrev pub loop_of : MainCalls H.Table → Started H.Table → LoopCalls
  loop_of calls start = record calls.loop {
    max_events = config_get_max_events start.configured.core;
  }

  abbrev pub with_server_fd : MainCalls H.Table → Started H.Table → HttpErr → Option ℕ → Option Exit
  with_server_fd calls start herr none = some (exited 1)
  with_server_fd calls start herr (some server_fd) =
      if not (is_success herr)
      then some (exited 1)
      else if not (is_success (http_signal calls.sigaction_ok))
      then some (exited 1)
      else handle_ipv4_main_loop (loop_of calls start) server_fd calls.turns
        >>= after_loop calls start.table

  abbrev pub run : MainCalls H.Table → Option (Started H.Table) → Option Exit
  run calls none = some (exited 1)
  run calls (some start) =
      with_server_fd calls start (get_ipv4_server_fd calls.listen).result
        (get_ipv4_server_fd calls.listen).fd

  unfoldable pub main : Alloc → CtpLoggerConfig → ConfigFile → MainCalls H.Table → Option Exit
  main m ctp_default file calls = initial m ctp_default file calls >>= run calls
