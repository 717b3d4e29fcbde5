-- ===== src/Core/Server/Sockets.antt =====
-- Which descriptors src/core/server.c leaves open, and what it reports.
use litehttp_c.Base.{
  ℕ, ◌+◌, ◌^◌, ◌≤◌, ◌<◌, ◌≡◌, ◌≢◌, ◌↔◌, ◌⊎◌, inl, inr, Bool-cases, true, [], ◌∷◌, none, some, Bytes,
  length, take, pos, if◌then◌else◌, arith,
}
use litehttp_c.Util.ErrorCode.{http_success, http_err_setsocketopt}
use litehttp_c.Util.Text.{Text}
use litehttp_c.Http.Types.{http_ver_unkown}
use litehttp_c.Http.ParseCtx.{fresh_ctx}
use litehttp_c.Http.Request.{http_request_new}
use litehttp_c.Http.Chain.{http_parse_ctx_new}
use litehttp_c.Http.Response.{HttpResponse}
use litehttp_c.Http.Response.Render.{response_text, http_response_to_string_lem}
use litehttp_c.Core.SocketUtil.{setnoblocking, ipv4_net2str}
use litehttp_c.Core.Server.{
  ListenCalls, get_ipv4_server_fd, htons, accepted, AcceptCalls, create_client_data,
  handle_server_fd, http_send_response,
}

-- Whatever the system calls answer, a socket is open behind `get_ipv4_server_fd` exactly when it
-- succeeds or fails for the socket option: this one failure leaves its socket behind.
pub get_ipv4_server_fd_open :
    (calls : ListenCalls)
    → ((get_ipv4_server_fd calls).is_open ≡ true) ↔ (
        ((get_ipv4_server_fd calls).result ≡ http_success)
        ⊎ ((get_ipv4_server_fd calls).result ≡ http_err_setsocketopt))
unfolding get_ipv4_server_fd setnoblocking
get_ipv4_server_fd_open calls = ground arith

-- Memory, and a client socket that can be made non-blocking.
pub record Welcomes (calls : AcceptCalls) (flag : ℕ) : Type 0 where
  pub data_granted : calls.data_memory ≡ true
  pub ctx_granted : calls.ctx_memory ≡ true
  pub list_granted : calls.list_memory ≡ true
  pub req_granted : calls.req_memory ≡ true
  pub req_list_granted : calls.req_list_memory ≡ true
  pub getfl_is : calls.getfl ≡ some flag
  pub setfl_granted : calls.setfl_ok ≡ true

module _ (T : Text) where
  -- With memory granted and the flags of the socket set, a client that is accepted succeeds whether or
  -- not epoll takes it. If it does, epoll watches a client with that descriptor, the printed address,
  -- the port in the order of the machine and one fresh parse node that is also the tail; if not, the
  -- descriptor is closed and nothing is watched.
  pub handle_server_fd_accepted :
      (calls : AcceptCalls) (fd port flag : ℕ) (addr : Bytes)
      → calls.accept ≡ accepted fd addr port
      → Welcomes calls flag
      → length addr + 1 < 2 ^ 30
      → (ip : T.Str) × (handle_server_fd T calls
          ≡ some (
              if calls.epoll_ctl_ok
              then record {
                open_fd = some fd;
                watched = some (record {
                  fd = fd;
                  ip = ip;
                  port = htons port;
                  ctx_beg = fresh_ctx ∷ [];
                  ctx_tail = some 0;
                });
                result = http_success;
              }
              else record { open_fd = none; watched = none; result = http_success }))
        × T.Valid ip
        × (T.text ip ≡ addr)
  unfolding handle_server_fd create_client_data ipv4_net2str http_parse_ctx_new http_request_new
      setnoblocking
  handle_server_fd_accepted calls fd port flag addr is w small =
      let (ip, e, v, t) = T.of_cstr_lem addr small in
      (
        ip,
        elim (Bool-cases calls.epoll_ctl_ok) [
          | inl b ↦ simp (
            is, w.data_granted, e, w.ctx_granted, w.list_granted, w.req_granted, w.req_list_granted,
            w.getfl_is, w.setfl_granted, b,
          )
          | inr b ↦ simp (
            is, w.data_granted, e, w.ctx_granted, w.list_granted, w.req_granted, w.req_list_granted,
            w.getfl_is, w.setfl_granted, b,
          )
        ],
        v,
        t,
      )

  -- `http_send_response` calls `write` once and succeeds for any count that it returns: the client has
  -- got that many bytes of the response's text, and no more, even when the text is longer. The
  -- response has a known version and a status code from 100 to 600, and its text is below the limit of
  -- the strings.
  pub http_send_response_lem :
      (rep : HttpResponse) (code n : ℕ)
      → rep.version ≢ http_ver_unkown
      → rep.status.code ≡ pos code
      → 100 ≤ code
      → code ≤ 600
      → length (response_text rep code) + 1 < 2 ^ 30
      → http_send_response T (some n) rep ≡ some (take n (response_text rep code), http_success)
  unfolding http_send_response
  http_send_response_lem rep code n known is lo hi small =
      let (post, e, v, t) = http_response_to_string_lem T rep code known is lo hi small in
      simp (e, t)
