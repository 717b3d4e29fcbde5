-- ===== src/Core/Main/Exits.antt =====
-- How the program of src/main.c ends.
use litehttp_c.Base.{
  ℕ, Bool-cases, ◌≡◌, ◌⊎◌, inl, inr, true, false, List, ◌∷◌, ◌++◌, ap, ◌∙◌, none, some, Bytes,
  codes,
}
use litehttp_c.Util.ErrorCode.{HttpErr, http_success}
use litehttp_c.Core.Configure.{
  ConfigFile, parsed, TomlTable, Toml, CtpLoggerConfig, parse_config_file, config_get_max_events,
}
use litehttp_c.Core.Configure.Values.{HostIs, config_server_fatal}
use litehttp_c.Core.Server.{get_ipv4_server_fd}
use litehttp_c.Core.SocketUtil.{setnoblocking, create_epoll_usrdata}
use litehttp_c.Core.Reactor.{Event, LoopCalls, Turn, main_loop, handle_ipv4_main_loop, is_positive}
use litehttp_c.Core.Reactor.Loop.{AllHaveMemory, all_taken, turns_of, main_loop_signal}
use litehttp_c.Http.Resource.{KHash, MappedMemory, TableState, resource_getter_release}
use litehttp_c.Core.Main.{MainCalls, Started, exited, initial, main, loop_of, released, http_signal}

-- A configuration file whose `server` table is missing, or sets no base directory, ends the program
-- with the exit code 1, whatever the rest of the file and the system calls are.
pub main_unconfigured :
    (H : KHash) (junk : ℕ → ℕ) (ctp : CtpLoggerConfig) (toml : Toml) (calls : MainCalls H.Table)
    (table : TomlTable) (host : Bytes) (herr : HttpErr)
    → (toml (codes "server") ≡ none)
      ⊎ ((toml (codes "server") ≡ some table)
          × HostIs (table.toml_string (codes "host")) host herr
          × (table.toml_string (codes "base_dir") ≡ none))
    → main H (some junk) ctp (parsed toml) calls ≡ some (exited 1)
unfolding main initial parse_config_file
main_unconfigured H junk ctp toml calls table host herr h =
    let (config, e) = config_server_fatal junk toml table host herr h in simp e

-- The calls in front of the loop succeed.
pub record Starts {A : Type 0} (calls : MainCalls A) (fd flag : ℕ) : Type 0 where
  pub socket_is : calls.listen.socket ≡ some fd
  pub setsockopt_granted : calls.listen.setsockopt_ok ≡ true
  pub inet_pton_granted : calls.listen.inet_pton_ok ≡ true
  pub bind_granted : calls.listen.bind_ok ≡ true
  pub listen_granted : calls.listen.listen_ok ≡ true
  pub getfl_is : calls.listen.getfl ≡ some flag
  pub setfl_granted : calls.listen.setfl_ok ≡ true
  pub sigaction_granted : calls.sigaction_ok ≡ true
  pub epoll_create_granted : calls.loop.epoll_create_ok ≡ true
  pub usrdata_granted : calls.loop.usrdata_memory ≡ true
  pub epoll_ctl_granted : calls.loop.epoll_ctl_ok ≡ true

-- A program that is configured and listens, and whose wait count is not positive, ends at the first
-- turn without a signal with the exit code 0, although every wait fails, when the release of the
-- table is no fault.
pub main_no_events :
    (H : KHash) (junk : ℕ → ℕ) (ctp : CtpLoggerConfig) (file : ConfigFile)
    (calls : MainCalls H.Table) (start : Started H.Table) (fd flag : ℕ) (turn : Turn)
    (later : List Turn) (left : TableState H.Table × List MappedMemory × HttpErr)
    → initial H (some junk) ctp file calls ≡ some (some start)
    → Starts calls fd flag
    → is_positive (config_get_max_events start.configured.core) ≡ false
    → calls.turns ≡ turn ∷ later
    → turn.loop_terminal ≡ false
    → resource_getter_release H calls.mutex_destroy_ok (calls.table_later start.table) ≡ some left
    → main H (some junk) ctp file calls ≡ some (exited 0)
unfolding main get_ipv4_server_fd setnoblocking create_epoll_usrdata http_signal
    handle_ipv4_main_loop main_loop released
main_no_events H junk ctp file calls start fd flag turn later left e s never turns going r =
    elim (Bool-cases calls.loop.events_memory) [
      | inl b ↦ simp (
        e, s.socket_is, s.setsockopt_granted, s.inet_pton_granted, s.bind_granted, s.listen_granted,
        s.getfl_is, s.setfl_granted, s.sigaction_granted, s.epoll_create_granted, s.usrdata_granted,
        s.epoll_ctl_granted, never, turns, going, b, r,
      )
      | inr b ↦ simp (
        e, s.socket_is, s.setsockopt_granted, s.inet_pton_granted, s.bind_granted, s.listen_granted,
        s.getfl_is, s.setfl_granted, s.sigaction_granted, s.epoll_create_granted, s.usrdata_granted,
        s.epoll_ctl_granted, never, turns, going, b, r,
      )
    ]

loop_interrupted :
    (calls : LoopCalls) (fd : ℕ) (rounds : List (List Event)) (turn : Turn) (later : List Turn)
    → (calls.epoll_create_ok ≡ true) × (calls.usrdata_memory ≡ true) × (calls.epoll_ctl_ok ≡ true)
    → (calls.events_memory ≡ true) × (is_positive calls.max_events ≡ true)
    → AllHaveMemory rounds
    → turn.loop_terminal ≡ true
    → handle_ipv4_main_loop calls fd (turns_of rounds ++ (turn ∷ later))
      ≡ some
          (record { jobs = all_taken fd rounds; result = some http_success; epoll_fd_open = false })
unfolding handle_ipv4_main_loop create_epoll_usrdata
loop_interrupted calls fd rounds turn later granted waits memory stop = simp (
  granted.0,
  granted.1,
  granted.2,
  waits.0,
  waits.1,
  main_loop_signal fd rounds turn later memory stop,
)

-- A program that is configured and listens, and whose waits answer with events until the signal comes,
-- hands the pool the jobs that it takes, in the order of the events, and then ends with the exit code
-- 0, when there is memory for the events and the arguments of the jobs, the wait count is positive, and
-- the release of the table is no fault.
pub main_interrupted :
    (H : KHash) (junk : ℕ → ℕ) (ctp : CtpLoggerConfig) (file : ConfigFile)
    (calls : MainCalls H.Table) (start : Started H.Table) (fd flag : ℕ) (rounds : List (List Event))
    (turn : Turn) (later : List Turn) (left : TableState H.Table × List MappedMemory × HttpErr)
    → initial H (some junk) ctp file calls ≡ some (some start)
    → Starts calls fd flag
    → (calls.loop.events_memory ≡ true)
      × (is_positive (config_get_max_events start.configured.core) ≡ true)
    → AllHaveMemory rounds
    → turn.loop_terminal ≡ true
    → calls.turns ≡ turns_of rounds ++ (turn ∷ later)
    → resource_getter_release H calls.mutex_destroy_ok (calls.table_later start.table) ≡ some left
    → (handle_ipv4_main_loop (loop_of H calls start) fd calls.turns
        ≡ some (record {
          jobs = all_taken fd rounds;
          result = some http_success;
          epoll_fd_open = false;
        }))
      × (main H (some junk) ctp file calls ≡ some (exited 0))
unfolding main get_ipv4_server_fd setnoblocking http_signal released
main_interrupted H junk ctp file calls start fd flag rounds turn later left e s waits memory stop
      turns r =
    let loop =
      ap (handle_ipv4_main_loop (loop_of H calls start) fd) turns
      ∙ loop_interrupted (loop_of H calls start) fd rounds turn later
          (s.epoll_create_granted, s.usrdata_granted, s.epoll_ctl_granted) waits memory stop in
    (
      loop,
      simp (
        e, s.socket_is, s.setsockopt_granted, s.inet_pton_granted, s.bind_granted, s.listen_granted,
        s.getfl_is, s.setfl_granted, s.sigaction_granted, loop, r,
      ),
    )
