-- ===== src/Tests/Clients.antt =====
-- Runs of the clients of src/core/client.c.
use litehttp_c.Base.{
  ℕ, ◌+◌, ◌≡◌, refl, inl, true, false, [], take, length, ◌^◌, ◌<◌, ◌∷◌, none, some, Bytes, codes,
  arith, pos,
}
use litehttp_c.Util.ErrorCode.{http_success, http_err_epoll_wait}
use litehttp_c.Util.StringView.{StringView, null, view, view_bytes}
use litehttp_c.Http.Request.{fresh_request}
use litehttp_c.Http.ParseCtx.{HttpParseCtx, http_parse_end, fresh_ctx, debug}
use litehttp_c.Http.Feed.Request.{request_text, ended, http_parse_feed_request}
use litehttp_c.Http.Resource.{live, maps, unset}
use litehttp_c.Core.Dispatch.Get.{ok_response, get_twice}
use litehttp_c.Core.Dispatch.{handle_http_request}
use litehttp_c.Core.Server.{ClientData, http_send_response}
use litehttp_c.Core.Server.Sockets.{http_send_response_lem}
use litehttp_c.Http.Response.Render.{response_text}
use litehttp_c.Http.Types.{http_get_version_sv, http_get_header_field_sv}
use litehttp_c.Core.Client.{
  http_backend, Backend, read_would_block, read_end, serve_requests, ClientEnd, handle_client_fd,
}
use litehttp_c.Core.Client.Reads.{delivering}
use litehttp_c.Core.Client.Order.{none_asked, answers, serve_requests_lem}
use litehttp_c.Core.Client.Errors.{failed_get_faults}
use litehttp_c.Core.Client.Requests.{request_then_fault}
use litehttp_c.Core.Reactor.{wait_events, main_loop}
use litehttp_c.Core.Reactor.Loop.{client_close_stops}
use litehttp_c.Tests.Answers.{strings, table, getting, getting-Granted, request}
use litehttp_c.Tests.Parser.{granted}
use litehttp_c.Tests.Server.{event}

-- A backend that answers each path with itself, and counts its answers.
abbrev pub echo : Backend
echo = record {
  State = ℕ;
  reads = λ bs. [];
  respond = λ n request. some (n + 1, some (ok_response [] (view request.path)), http_success);
  send = λ n rep. some (view_bytes rep.body, http_success);
}

abbrev finished : Bytes → HttpParseCtx
finished path = record fresh_ctx {
  wait_state = http_parse_end;
  http_request = record fresh_request { path = path };
}

abbrev pub client : ClientData strings.Str
client = record {
  fd = 5;
  ip = strings.init;
  port = 80;
  ctx_beg = fresh_ctx ∷ [];
  ctx_tail = some 0;
}

abbrev get_a : Bytes
get_a = request_text (codes "GET") (codes "/a") (codes "HTTP/1.1")

request_then_fault_example :
    (client' : ClientData strings.Str) × (handle_client_fd strings echo debug granted 0 client
        (delivering (get_a ∷ []) (read_would_block ∷ []))
        true
      ≡ some (record {
        state = 1;
        client = some client';
        epoll_fd_open = true;
        client_fd_open = true;
        watched = true;
        sent = codes "/a" ∷ [];
        result = http_success;
      }))
    × (client'.ctx_beg ≡ [])
    × (client'.ctx_tail ≡ none)
    × (handle_client_fd strings echo debug granted 1 client'
          (delivering (get_a ∷ []) (read_would_block ∷ []))
          true
        ≡ none)
request_then_fault_example =
    request_then_fault strings echo debug granted client fresh_ctx
      (ended (codes "GET") (codes "/a") (codes "HTTP/1.1")) refl refl 0 1 1 (get_a ∷ [])
      (get_a ∷ []) (ok_response [] (view (codes "/a"))) (codes "/a") true (omega arith)
      (omega arith)
      (http_parse_feed_request debug granted (codes "GET") (codes "/a") (codes "HTTP/1.1")
        (ground arith, ground arith) (ground arith, ground arith) (ground arith) (omega arith)
        (refl, refl))
      refl refl refl

-- The server's own backend, over an empty cache and a file system with one text in every file.
abbrev pub server : Backend
server =
    http_backend strings table debug (λ t. getting (maps (codes "hello")) (codes "5")) (codes "h")
      (some 100) (λ bs. [])

client_close_stops_example :
    (o : ClientEnd server.State strings.Str) × (handle_client_fd strings server debug granted
        (live [])
        client
        (delivering (get_a ∷ []) (read_end ∷ []))
        true
      ≡ some o)
    × (main_loop 3 true (
          record {
            loop_terminal = false;
            epoll_open = o.epoll_fd_open;
            wait = wait_events (event 6 (pos 0) ∷ []);
          }
          ∷ [])
        ≡ ([], some http_err_epoll_wait))
client_close_stops_example =
    client_close_stops strings server debug granted (live []) client (get_a ∷ []) true true 3
      (wait_events (event 6 (pos 0) ∷ [])) [] (omega arith)

-- The table was never made.
failed_get_faults_example :
    serve_requests
      (http_backend strings table debug
        (λ t. getting (maps (codes "hello")) (codes "5"))
        (codes "h")
        (some 100)
        (λ bs. []))
      http_success
      unset
      (finished (codes "/a") ∷ [])
    ≡ none
unfolding litehttp_c.Http.Resource.resource_getter_initial
failed_get_faults_example =
    failed_get_faults strings table debug (λ t. getting (maps (codes "hello")) (codes "5"))
      (codes "h") (some 100) (λ bs. []) http_success unset (finished (codes "/a")) [] true refl refl
      (inl refl)

-- The server's own backend, over an empty cache: two requests for one file.
abbrev pub short_writes : Backend
short_writes =
    http_backend strings table debug (λ t. getting (maps (codes "hello")) (codes "5")) (codes "h")
      (some 15) (λ bs. [])

pub asked_twice :
    (t1 : table.Table) × (handle_http_request strings table debug
        (getting (maps (codes "hello")) (codes "5"))
        (codes "h")
        (live [])
        request
      ≡ some
          (live t1, some (ok_response (take 1 (codes "5")) (view (codes "hello"))), http_success))
    × (handle_http_request strings table debug
          (getting (maps (codes "hello")) (codes "5"))
          (codes "h")
          (live t1)
          request
        ≡ some (live t1, some (ok_response (take 1 (codes "5")) null), http_success))
unfolding litehttp_c.Util.StringT.Decimal.digits_onto
asked_twice =
    get_twice strings table debug (codes "h") (codes "/s")
      (getting (maps (codes "hello")) (codes "5")) (getting (maps (codes "hello")) (codes "5")) []
      request (view (codes "hello")) (getting-Granted (maps (codes "hello")) (codes "5"))
      (getting-Granted (maps (codes "hello")) (codes "5")) refl (omega arith) refl
      (record {
        first_lock = refl;
        first_unlock = refl;
        second_lock = refl;
        last_unlock = refl;
        room = refl;
        nul_free = ground arith;
        nobody_put = refl;
        put_room = ground arith;
      })
      refl refl refl

abbrev asking : HttpParseCtx
asking = record fresh_ctx { wait_state = http_parse_end; http_request = request }

-- The bytes of the answer that one `write` takes.
pub sent_15 :
    (body : StringView)
    → length (response_text (ok_response (take 1 (codes "5")) body) 200) + 1 < 2 ^ 30
    → http_send_response strings (some 15) (ok_response (take 1 (codes "5")) body)
      ≡ some (codes "HTTP/1.0 200 OK", http_success)
unfolding http_get_version_sv http_get_header_field_sv
sent_15 body small =
    http_send_response_lem strings (ok_response (take 1 (codes "5")) body) 200 15 (ground arith)
      refl (omega arith) (omega arith) small

serve_requests_lem_example :
    serve_requests short_writes http_success (live []) (asking ∷ asking ∷ [])
    ≡ some (record {
      state = live asked_twice.0;
      chain = [];
      popped = 2;
      sent = codes "HTTP/1.0 200 OK" ∷ codes "HTTP/1.0 200 OK" ∷ [];
      result = http_success;
    })
unfolding http_get_version_sv http_get_header_field_sv
serve_requests_lem_example =
    serve_requests_lem short_writes (asking ∷ asking ∷ []) (live []) (live asked_twice.0)
      (codes "HTTP/1.0 200 OK" ∷ codes "HTTP/1.0 200 OK" ∷ []) http_success (refl, (refl, tt))
      (answers (ok_response (take 1 (codes "5")) (view (codes "hello"))) asked_twice.1
        (sent_15 (view (codes "hello")) (omega arith))
        (answers (ok_response (take 1 (codes "5")) null) asked_twice.2 (sent_15 null (omega arith))
          none_asked))
