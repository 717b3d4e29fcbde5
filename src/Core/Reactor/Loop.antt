-- ===== src/Core/Reactor/Loop.antt =====
-- The jobs of the event loop of src/core/reactor.c, and how it ends.
use litehttp_c.Base.{
  ℕ, ◌+◌, ◌^◌, ◌<◌, ◌≡◌, refl, Bool, true, false, not, List, [], ◌∷◌, ◌++◌, none, some, Bytes,
  length, if◌then◌else◌, is_zero, Bool-cases, inl, inr,
}
use litehttp_c.Util.ErrorCode.{
  http_success, http_err_client_close, http_err_epoll_ctl_del, http_err_epoll_wait,
}
use litehttp_c.Util.Text.{Text, concat}
use litehttp_c.Http.ParseCtx.{Build, Mem}
use litehttp_c.Core.Configure.{thdpool_addjob}
use litehttp_c.Core.Server.{ClientData}
use litehttp_c.Core.Client.{Backend, read_end, ClientEnd, handle_client_fd}
use litehttp_c.Core.Client.Reads.{delivering, client_close}
use litehttp_c.Core.Reactor.{
  Job, job_of, Event, handle_each_event, Wait, wait_events, Turn, main_loop,
}

abbrev pub HaveMemory : List Event → Type 0
HaveMemory [] = Unit {0}
HaveMemory (ev ∷ evs) = (ev.args_memory ≡ true) × HaveMemory evs

-- The jobs that the pool takes, in the order of their events.
abbrev pub taken : ℕ → List Event → List Job
taken server_fd [] = []
taken server_fd (ev ∷ evs) =
    if is_zero ev.addjob_ec
    then job_of server_fd ev.fd ∷ taken server_fd evs
    else taken server_fd evs

-- With memory for their arguments, the events of one wait succeed, and add exactly the jobs that the
-- pool takes, in the order of the events: an event whose job the pool refuses is lost without an error.
pub handle_each_event_lem :
    (server_fd : ℕ) (evs : List Event)
    → HaveMemory evs
    → handle_each_event server_fd evs ≡ (taken server_fd evs, http_success)
unfolding handle_each_event thdpool_addjob
handle_each_event_lem server_fd [] h = refl
handle_each_event_lem server_fd (ev ∷ evs) h =
    let rest = handle_each_event_lem server_fd evs h.1 in
    elim (Bool-cases (is_zero ev.addjob_ec)) [
      | inl b ↦ simp (h.0, b, rest)
      | inr b ↦ simp (h.0, b, rest)
    ]

-- The jobs of turns that answer with events.
abbrev pub turns_of : List (List Event) → List Turn
turns_of [] = []
turns_of (evs ∷ rest) =
    record { loop_terminal = false; epoll_open = true; wait = wait_events evs } ∷ turns_of rest

abbrev pub AllHaveMemory : List (List Event) → Type 0
AllHaveMemory [] = Unit {0}
AllHaveMemory (evs ∷ rest) = HaveMemory evs × AllHaveMemory rest

abbrev pub all_taken : ℕ → List (List Event) → List Job
all_taken server_fd [] = []
all_taken server_fd (evs ∷ rest) = taken server_fd evs ++ all_taken server_fd rest

-- Turns that answer with events, and then the signal: the loop ends with success, and has added the
-- jobs that the pool takes, turn after turn. There is memory for the arguments of the jobs.
pub main_loop_signal :
    (server_fd : ℕ) (rounds : List (List Event)) (turn : Turn) (later : List Turn)
    → AllHaveMemory rounds
    → turn.loop_terminal ≡ true
    → main_loop server_fd true (turns_of rounds ++ (turn ∷ later))
      ≡ (all_taken server_fd rounds, some http_success)
unfolding main_loop
main_loop_signal server_fd [] turn later h stop = simp stop
main_loop_signal server_fd (evs ∷ rounds) turn later h stop =
    let rest = main_loop_signal server_fd rounds turn later h.1 stop in
    let now = handle_each_event_lem server_fd evs h.0 in simp (rest, now)

-- Once a client has closed its connection, the descriptor of epoll is closed, and the next turn of the
-- loop, if the signal has not come, ends the server with a failed wait, whatever events are there. The
-- client's last data is below the limit of the strings.
pub client_close_stops :
    (T : Text) (B : Backend) (build : Build) (mem : Mem) (s : B.State) (client : ClientData T.Str)
    (pieces : List Bytes) (del_ok can_wait : Bool) (server_fd : ℕ) (wait : Wait) (later : List Turn)
    → length (concat pieces) + 1 < 2 ^ 30
    → (o : ClientEnd B.State T.Str) × (handle_client_fd T B build mem s client
          (delivering pieces (read_end ∷ []))
          del_ok
        ≡ some o)
      × (main_loop server_fd can_wait
            (record { loop_terminal = false; epoll_open = o.epoll_fd_open; wait = wait } ∷ later)
          ≡ ([], some http_err_epoll_wait))
unfolding main_loop
client_close_stops T B build mem s client pieces del_ok can_wait server_fd wait later h =
    let o : ClientEnd B.State T.Str = record {
      state = s;
      client = none;
      epoll_fd_open = false;
      client_fd_open = true;
      watched = not del_ok;
      sent = [];
      result = if del_ok then http_err_client_close else http_err_epoll_ctl_del;
    } in
    (
      o,
      client_close T B build mem s client pieces [] del_ok h,
      elim (Bool-cases can_wait) [ inl b ↦ simp b | inr b ↦ simp b ],
    )
