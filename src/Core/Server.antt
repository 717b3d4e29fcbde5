-- ===== src/Core/Server.antt =====
-- src/core/server.c: the listening socket, new clients, and the write of a response. The outcomes of
-- the system calls are arguments, in the order in which they are made.
pub mod Sockets
use litehttp_c.Base.{
  ℕ, ◌+◌, ◌*◌, ◌/◌, ◌%◌, Bool, true, false, not, ◌||◌, List, [], ◌∷◌, Option, none, some, Bytes,
  take, if◌then◌else◌, ◌>>=◌,
}
use litehttp_c.Util.ErrorCode.{
  HttpErr, http_success, http_err_malloc, http_err_socket, http_err_setsocketopt,
  http_err_inet_pton, http_err_bind, http_err_listen, http_err_accept, http_err_write,
}
use litehttp_c.Util.Text.{Text}
use litehttp_c.Http.Chain.{NewCtx, http_parse_ctx_new, new_ctx, no_ctx, ctx_without_request}
use litehttp_c.Http.ParseCtx.{HttpParseCtx}
use litehttp_c.Http.Response.{HttpResponse, http_response_to_string}
use litehttp_c.Core.SocketUtil.{setnoblocking, ipv4_net2str}

pub record ListenCalls : Type 0 where
  pub socket : Option ℕ
  pub setsockopt_ok : Bool
  pub inet_pton_ok : Bool
  pub bind_ok : Bool
  pub listen_ok : Bool
  pub getfl : Option ℕ
  pub setfl_ok : Bool

-- What is left: the value of `*fd`, whether the socket is open, and the result.
pub record Listening : Type 0 where
  pub fd : Option ℕ
  pub is_open : Bool
  pub result : HttpErr

-- `clean_fd`
abbrev pub clean_fd : ℕ → HttpErr → Listening
clean_fd server_fd herr = record { fd = some server_fd; is_open = false; result = herr }

-- `err`, behind the socket
abbrev pub leave_fd : ℕ → HttpErr → Listening
leave_fd server_fd herr = record { fd = some server_fd; is_open = true; result = herr }

abbrev pub nonblocking_fd : ℕ → HttpErr → Listening
nonblocking_fd server_fd http_success = leave_fd server_fd http_success
nonblocking_fd server_fd herr = clean_fd server_fd herr

abbrev pub with_socket : ListenCalls → Option ℕ → Listening
with_socket calls none = record { fd = none; is_open = false; result = http_err_socket }
with_socket calls (some server_fd) =
    if not calls.setsockopt_ok
    then leave_fd server_fd http_err_setsocketopt
    else if not calls.inet_pton_ok
    then clean_fd server_fd http_err_inet_pton
    else if not calls.bind_ok
    then clean_fd server_fd http_err_bind
    else if not calls.listen_ok
    then clean_fd server_fd http_err_listen
    else nonblocking_fd server_fd (setnoblocking calls.getfl calls.setfl_ok).1

unfoldable pub get_ipv4_server_fd : ListenCalls → Listening
get_ipv4_server_fd calls = with_socket calls calls.socket

-- A client as `create_client_data` makes it. `ctx_tail` is the place of the tail in the chain that
-- begins at `ctx_beg`, and `none` once that node has been freed.
pub record ClientData (Str : Type 0) : Type 0 where
  pub fd : ℕ
  pub ip : Str
  pub port : ℕ
  pub ctx_beg : List HttpParseCtx
  pub ctx_tail : Option ℕ

-- `htons` on a little-endian machine.
abbrev pub htons : ℕ → ℕ
htons n = n % 256 * 256 + n / 256 % 256

pub data Accepted : Type 0 where
  try_again accept_fails : Accepted
  accepted : ℕ → Bytes → ℕ → Accepted

-- The outcomes of one call of `handle_server_fd`.
pub record AcceptCalls : Type 0 where
  pub accept : Accepted
  pub data_memory : Bool
  pub ctx_memory : Bool
  pub list_memory : Bool
  pub req_memory : Bool
  pub req_list_memory : Bool
  pub getfl : Option ℕ
  pub setfl_ok : Bool
  pub epoll_ctl_ok : Bool

module _ (T : Text) where
  abbrev client_of : ℕ → T.Str → ℕ → NewCtx × HttpErr → Option (ClientData T.Str) × HttpErr
  client_of fd ip port (new_ctx ctx, herr) = (
    some (record { fd = fd; ip = ip; port = htons port; ctx_beg = ctx ∷ []; ctx_tail = some 0 }),
    herr,
  )
  client_of fd ip port (no_ctx, herr) = (none, herr)
  client_of fd ip port (ctx_without_request, herr) = (none, herr)

  -- A client that is not whole is `none`: no caller uses it.
  unfoldable pub create_client_data :
      AcceptCalls → ℕ → Bytes → ℕ → Option (Option (ClientData T.Str) × HttpErr)
  create_client_data calls fd remote_addr remote_port =
      if not calls.data_memory
      then some (none, http_err_malloc)
      else ipv4_net2str T remote_addr >>= λ ip.
          http_parse_ctx_new calls.ctx_memory calls.list_memory calls.req_memory
            calls.req_list_memory
          >>= λ r. some (client_of fd ip remote_port r)

  -- What is left of a call: the descriptor that is still open, the client that epoll watches, and the
  -- result.
  pub record Served : Type 0 where
    pub open_fd : Option ℕ
    pub watched : Option (ClientData T.Str)
    pub result : HttpErr

  abbrev nothing_served : HttpErr → Served
  nothing_served herr = record { open_fd = none; watched = none; result = herr }

  abbrev register : AcceptCalls → ℕ → HttpErr → ClientData T.Str → Served
  register calls client_fd http_success usrdata =
      if not calls.epoll_ctl_ok
      then nothing_served http_success
      else record { open_fd = some client_fd; watched = some usrdata; result = http_success }
  register calls client_fd herr usrdata = nothing_served herr

  abbrev created : AcceptCalls → ℕ → Option (ClientData T.Str) × HttpErr → Served
  created calls client_fd (some usrdata, http_success) =
      register calls client_fd (setnoblocking calls.getfl calls.setfl_ok).1 usrdata
  created calls client_fd (_, herr) = nothing_served herr

  abbrev serve_accepted : AcceptCalls → Accepted → Option Served
  serve_accepted calls try_again = some (nothing_served http_success)
  serve_accepted calls accept_fails = some (nothing_served http_err_accept)
  serve_accepted calls (accepted client_fd addr port) =
      create_client_data calls client_fd addr port >>= λ r. some (created calls client_fd r)

  -- Every path through the body of `while (true)` leaves it.
  unfoldable pub handle_server_fd : AcceptCalls → Option Served
  handle_server_fd calls = serve_accepted calls calls.accept

  abbrev written : Option ℕ → Bytes → Bytes × HttpErr
  written none text = ([], http_err_write)
  written (some n) text = (take n text, http_success)

  -- The argument is what `write` returns; the result is the bytes that reach the socket. The text is
  -- written whether or not there is one.
  unfoldable pub http_send_response : Option ℕ → HttpResponse → Option (Bytes × HttpErr)
  http_send_response write response =
      http_response_to_string T response >>= λ post. some (written write (T.text post.0))
