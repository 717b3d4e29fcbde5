-- ===== src/Core/Reactor.antt =====
-- src/core/reactor.c: the event loop. What happens at each turn of the loop is an argument: whether the
-- signal has come when the flag is read, whether the descriptor of epoll is still open, and what
-- `epoll_wait` answers.
pub mod Loop
use litehttp_c.Base.{
  ℕ, Bool, true, false, not, ◌&&◌, ◌||◌, List, [], ◌∷◌, ◌++◌, Option, none, some, ◌==◌,
  if◌then◌else◌, ◌>>=◌, ℤ, is_neg, is_zero,
}
use litehttp_c.Util.ErrorCode.{
  HttpErr, http_success, http_err_malloc, http_err_epoll_create, http_err_epoll_ctl_add,
  http_err_epoll_wait,
}
use litehttp_c.Core.Configure.{thdpool_addjob}
use litehttp_c.Core.SocketUtil.{create_epoll_usrdata}
use litehttp_c.Core.Dispatch.{is_success}

pub data Job : Type 0 where
  server_job client_job : ℕ → Job

-- An event: the descriptor in its data, whether there is memory for the arguments of its job, and the
-- error code of the pool.
pub record Event : Type 0 where
  pub fd : ℕ
  pub args_memory : Bool
  pub addjob_ec : ℤ

abbrev pub job_of : ℕ → ℕ → Job
job_of server_fd fd = if fd == server_fd then server_job fd else client_job fd

-- The result of `thdpool_addjob` is not looked at: a job that the pool refuses is gone.
abbrev pub with_job : Event → Job → List Job → List Job
with_job ev job jobs = if is_success (thdpool_addjob ev.addjob_ec) then job ∷ jobs else jobs

-- The jobs that are added, and the result.
unfoldable pub handle_each_event : ℕ → List Event → List Job × HttpErr
handle_each_event server_fd [] = ([], http_success)
handle_each_event server_fd (ev ∷ evs) =
    let rest = handle_each_event server_fd evs in
    if not ev.args_memory
    then ([], http_err_malloc)
    else (with_job ev (job_of server_fd ev.fd) rest.0, rest.1)

pub data Wait : Type 0 where
  wait_interrupted wait_fails : Wait
  wait_events : List Event → Wait

-- `loop_terminal` is set by `ipv4_terminal_fn` when the signal comes.
abbrev pub ipv4_terminal_fn : Bool → Bool
ipv4_terminal_fn loop_terminal = true

pub record Turn : Type 0 where
  pub loop_terminal : Bool
  pub epoll_open : Bool
  pub wait : Wait

-- `epoll_wait` fails on a closed descriptor, without a buffer, and for a count that is not positive.
abbrev pub waited : Bool → Turn → Wait
waited can_wait turn = if can_wait && turn.epoll_open then turn.wait else wait_fails

-- The jobs, and the result, `none` when the loop still runs behind the turns.
abbrev pub after_events : List Job × HttpErr → List Job × Option HttpErr → List Job × Option HttpErr
after_events (jobs, herr) rest =
    if not (is_success herr) then (jobs, some herr) else (jobs ++ rest.0, rest.1)

abbrev pub after_wait : ℕ → Wait → List Job × Option HttpErr → List Job × Option HttpErr
after_wait server_fd wait_interrupted rest = rest
after_wait server_fd wait_fails rest = ([], some http_err_epoll_wait)
after_wait server_fd (wait_events evs) rest = after_events (handle_each_event server_fd evs) rest

-- `while(!atomic_load(&loop_terminal))`: `herr` is a success whenever the flag is read.
unfoldable pub main_loop : ℕ → Bool → List Turn → List Job × Option HttpErr
main_loop server_fd can_wait [] = ([], none)
main_loop server_fd can_wait (turn ∷ turns) =
    let rest = main_loop server_fd can_wait turns in
    if turn.loop_terminal
    then ([], some http_success)
    else after_wait server_fd (waited can_wait turn) rest

-- The outcomes of the calls in front of the loop.
pub record LoopCalls : Type 0 where
  pub epoll_create_ok : Bool
  pub usrdata_memory : Bool
  pub epoll_ctl_ok : Bool
  pub events_memory : Bool
  pub max_events : ℤ

-- What the loop leaves: its jobs, its result, and whether the descriptor of epoll is still open.
pub record LoopEnd : Type 0 where
  pub jobs : List Job
  pub result : Option HttpErr
  pub epoll_fd_open : Bool

abbrev pub is_positive : ℤ → Bool
is_positive n = not (is_neg n) && not (is_zero n)

abbrev pub left_loop : List Job × Option HttpErr → LoopEnd
left_loop (jobs, none) = record { jobs = jobs; result = none; epoll_fd_open = true }
left_loop (jobs, some herr) = record { jobs = jobs; result = some herr; epoll_fd_open = false }

unfoldable pub handle_ipv4_main_loop : LoopCalls → ℕ → List Turn → Option LoopEnd
handle_ipv4_main_loop calls server_fd turns =
    if not calls.epoll_create_ok
    then some (record { jobs = []; result = some http_err_epoll_create; epoll_fd_open = false })
    else create_epoll_usrdata calls.usrdata_memory server_fd >>= λ usrdata. some (
        if not calls.epoll_ctl_ok
        then record { jobs = []; result = some http_err_epoll_ctl_add; epoll_fd_open = true }
        else left_loop
            (main_loop server_fd (calls.events_memory && is_positive calls.max_events) turns))
