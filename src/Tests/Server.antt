-- ===== src/Tests/Server.antt =====
-- Runs of the configuration, the sockets, the clients and the event loop.
use litehttp_c.Base.{
  ap, ℕ, ◌≡◌, ◌==◌, ◌↔◌, ◌⊎◌, refl, inl, true, false, List, [], ◌∷◌, ◌++◌, none, some, codes,
  length, arith, pos, ℤ, if◌then◌else◌,
}
use litehttp_c.Util.ErrorCode.{
  HttpErr, http_success, http_err_setsocketopt, http_err_unset_use_default,
}
use litehttp_c.Util.StringT.{StringT, string_take_ownership}
use litehttp_c.Util.StringT.Valid.{IsValid, contents}
use litehttp_c.Util.StringView.{null}
use litehttp_c.Http.Types.{http_get_version_sv, http_get_header_field_sv}
use litehttp_c.Http.Response.{HttpResponse}
use litehttp_c.Http.Resource.{
  MappedMemory, TableState, resource_getter_initial, resource_getter_release,
}
use litehttp_c.Core.Configure.{
  TomlTable, Toml, CtpLoggerConfig, parsed, parse_config_file, config_log, config_core,
  config_server, int_of_int64, core_zeroed, server_zeroed,
}
use litehttp_c.Core.Configure.Values.{config_core_lem, config_server_lem}
use litehttp_c.Core.Dispatch.Get.{ok_response}
use litehttp_c.Core.Server.{
  ListenCalls, get_ipv4_server_fd, accepted, AcceptCalls, handle_server_fd, http_send_response,
}
use litehttp_c.Core.Server.Sockets.{
  get_ipv4_server_fd_open, handle_server_fd_accepted, http_send_response_lem,
}
use litehttp_c.Core.Reactor.{
  is_positive, server_job, client_job, Event, wait_interrupted, Turn, main_loop,
  handle_ipv4_main_loop,
}
use litehttp_c.Core.Reactor.Loop.{turns_of, main_loop_signal}
use litehttp_c.Core.Main.{MainCalls, Started, exited, initial, main, loop_of}
use litehttp_c.Core.Main.Exits.{Starts, main_unconfigured, main_no_events, main_interrupted}
use litehttp_c.Tests.Answers.{strings, junk, table}

-- A table without values, but for the base directory.
abbrev only_dir : TomlTable
only_dir = record {
  toml_bool = λ k. none;
  toml_string = λ k.
      if length k == 8 then some (record { block = codes "html" ++ (0 ∷ []); sl = 4 }) else none;
  toml_int = λ k. none;
}

abbrev no_values : TomlTable
no_values = record { toml_bool = λ k. none; toml_string = λ k. none; toml_int = λ k. none }

abbrev file : Toml
file k = some only_dir

config_core_lem_example : config_core file core_zeroed ≡ (
  record { handle_threads = pos 4; listen_que = pos 10; max_events = pos 100 },
  http_err_unset_use_default,
)
config_core_lem_example = config_core_lem file only_dir core_zeroed refl

config_server_lem_example :
    (h d : StringT) × (config_server (some junk) file server_zeroed
      ≡ some (record { host = h; port = pos 2233; base_dir = d }, http_err_unset_use_default))
    × IsValid h
    × (contents h ≡ codes "127.0.0.1")
    × IsValid d
    × (contents d ≡ codes "html")
config_server_lem_example =
    config_server_lem junk file only_dir (codes "127.0.0.1") (codes "html")
      http_err_unset_use_default (record { block = codes "html" ++ (0 ∷ []); sl = 4 }) refl
      (refl, refl) refl (record { block_is = refl; sl_is = refl; not_huge = omega arith })

abbrev listening : ListenCalls
listening = record {
  socket = some 3;
  setsockopt_ok = true;
  inet_pton_ok = true;
  bind_ok = true;
  listen_ok = true;
  getfl = some 2;
  setfl_ok = true;
}

abbrev no_option : ListenCalls
no_option = record listening { setsockopt_ok = false }

no_option_test : ((get_ipv4_server_fd no_option).is_open ≡ true) ↔ (
    ((get_ipv4_server_fd no_option).result ≡ http_success)
    ⊎ ((get_ipv4_server_fd no_option).result ≡ http_err_setsocketopt))
no_option_test = get_ipv4_server_fd_open no_option

abbrev accepting : AcceptCalls
accepting = record {
  accept = accepted 5 (codes "10.0.0.1") 80;
  data_memory = true;
  ctx_memory = true;
  list_memory = true;
  req_memory = true;
  req_list_memory = true;
  getfl = some 2;
  setfl_ok = true;
  epoll_ctl_ok = false;
}

handle_server_fd_accepted_example :
    (ip : strings.Str) × (handle_server_fd strings accepting
      ≡ some (record { open_fd = none; watched = none; result = http_success }))
    × strings.Valid ip
    × (strings.text ip ≡ codes "10.0.0.1")
handle_server_fd_accepted_example =
    handle_server_fd_accepted strings accepting 5 80 2 (codes "10.0.0.1") refl
      (record {
        data_granted = refl;
        ctx_granted = refl;
        list_granted = refl;
        req_granted = refl;
        req_list_granted = refl;
        getfl_is = refl;
        setfl_granted = refl;
      })
      (omega arith)

abbrev response : HttpResponse
response = ok_response (codes "0") null

-- Only the version reaches the client.
http_send_response_lem_example :
    http_send_response strings (some 8) response ≡ some (codes "HTTP/1.0", http_success)
unfolding http_get_version_sv http_get_header_field_sv
http_send_response_lem_example =
    http_send_response_lem strings response 200 8 (ground arith) refl (omega arith) (omega arith)
      (omega arith)

abbrev no_wait : Turn
no_wait = record { loop_terminal = true; epoll_open = true; wait = wait_interrupted }

abbrev pub event : ℕ → ℤ → Event
event fd ec = record { fd = fd; args_memory = true; addjob_ec = ec }

-- The pool refuses the second job.
main_loop_signal_test :
    main_loop 3 true (
      turns_of ((event 3 (pos 0) ∷ event 5 (pos 1) ∷ []) ∷ (event 6 (pos 0) ∷ []) ∷ [])
      ++ (no_wait ∷ []))
    ≡ (server_job 3 ∷ client_job 6 ∷ [], some http_success)
main_loop_signal_test =
    main_loop_signal 3 ((event 3 (pos 0) ∷ event 5 (pos 1) ∷ []) ∷ (event 6 (pos 0) ∷ []) ∷ [])
      no_wait [] ((refl, (refl, tt)), ((refl, tt), tt)) refl

abbrev going : Turn
going = record { loop_terminal = false; epoll_open = true; wait = wait_interrupted }

abbrev running : List Turn → MainCalls (table.Table)
running turns = record {
  pool_create_ec = pos 0;
  table_ok = true;
  mutex_ok = true;
  listen = listening;
  sigaction_ok = true;
  loop = record {
    epoll_create_ok = true;
    usrdata_memory = true;
    epoll_ctl_ok = true;
    events_memory = true;
    max_events = pos 1;
  };
  turns = turns;
  pool_destroy_ec = pos 0;
  table_later = λ t. t;
  mutex_destroy_ok = true;
}

abbrev idle : MainCalls (table.Table)
idle = running (going ∷ [])

abbrev defaults : CtpLoggerConfig
defaults = record { ctp_async = false; ctp_log_file = none }

main_unconfigured_example :
    main table (some junk) defaults (parsed (λ k. none)) idle ≡ some (exited 1)
main_unconfigured_example =
    main_unconfigured table junk defaults (λ k. none) idle no_values [] http_success (inl refl)

abbrev full : ℤ → TomlTable
full n = record {
  toml_bool = λ k. none;
  toml_string = λ k. some (record { block = codes "html" ++ (0 ∷ []); sl = 4 });
  toml_int = λ k. some n;
}

is_configured :
    (n : ℤ) (turns : List Turn)
    → (start : Started (table.Table)) × (initial table
          (some junk)
          defaults
          (parsed (λ k. some (full n)))
          (running turns)
        ≡ some (some start))
      × (left : TableState (table.Table) × List MappedMemory × HttpErr) × (resource_getter_release
            table true start.table
          ≡ some left)
      × (start.configured.core.max_events ≡ int_of_int64 n)
unfolding initial parse_config_file config_log config_server config_core string_take_ownership
    resource_getter_initial resource_getter_release
is_configured n turns = (_, refl, _, refl, refl)

starts : {turns : List Turn} → Starts (running turns) 3 2
starts = record {
  socket_is = refl;
  setsockopt_granted = refl;
  inet_pton_granted = refl;
  bind_granted = refl;
  listen_granted = refl;
  getfl_is = refl;
  setfl_granted = refl;
  sigaction_granted = refl;
  epoll_create_granted = refl;
  usrdata_granted = refl;
  epoll_ctl_granted = refl;
}

-- The queue length of the file is 0, and so is the count of events.
no_events_test :
    main table (some junk) defaults (parsed (λ k. some (full (pos 0)))) idle ≡ some (exited 0)
no_events_test =
    main_no_events table junk defaults (parsed (λ k. some (full (pos 0)))) idle
      (is_configured (pos 0) (going ∷ [])).0 3 2 going [] (is_configured (pos 0) (going ∷ [])).2
      (is_configured (pos 0) (going ∷ [])).1 starts
      (ap is_positive (is_configured (pos 0) (going ∷ [])).4) refl refl
      (is_configured (pos 0) (going ∷ [])).3

abbrev served : MainCalls (table.Table)
served = running (
    turns_of ((event 3 (pos 0) ∷ event 5 (pos 1) ∷ []) ∷ (event 6 (pos 0) ∷ []) ∷ [])
    ++ (no_wait ∷ []))

main_interrupted_example :
    (handle_ipv4_main_loop
        (loop_of table served (is_configured (pos 10) served.turns).0)
        3
        served.turns
      ≡ some (record {
        jobs = server_job 3 ∷ client_job 6 ∷ [];
        result = some http_success;
        epoll_fd_open = false;
      }))
    × (main table (some junk) defaults (parsed (λ k. some (full (pos 10)))) served
        ≡ some (exited 0))
main_interrupted_example =
    main_interrupted table junk defaults (parsed (λ k. some (full (pos 10)))) served
      (is_configured (pos 10) served.turns).0 3 2
      ((event 3 (pos 0) ∷ event 5 (pos 1) ∷ []) ∷ (event 6 (pos 0) ∷ []) ∷ []) no_wait []
      (is_configured (pos 10) served.turns).2 (is_configured (pos 10) served.turns).1 starts
      (refl, ap is_positive (is_configured (pos 10) served.turns).4)
      ((refl, (refl, tt)), ((refl, tt), tt)) refl refl (is_configured (pos 10) served.turns).3
