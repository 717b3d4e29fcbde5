-- ===== src/Core/Client/Requests.antt =====
-- The life of a client of src/core/client.c from one request to the next.
use litehttp_c.Base.{
  ◌+◌, ◌^◌, ◌<◌, ◌≡◌, refl, ap, Bool, true, List, [], ◌∷◌, none, some, Bytes, length, arith,
}
use litehttp_c.Util.ErrorCode.{http_success}
use litehttp_c.Util.Text.{Text, concat}
use litehttp_c.Http.Response.{HttpResponse}
use litehttp_c.Http.ParseCtx.Views.{stale_request}
use litehttp_c.Http.ParseCtx.{HttpParseCtx, http_parse_end, Build, Mem}
use litehttp_c.Http.Feed.{http_parse_feed}
use litehttp_c.Core.Server.{ClientData}
use litehttp_c.Core.Client.{Backend, read_client, read_would_block, feed_at, handle_client_fd}
use litehttp_c.Core.Client.Events.{event_answers}
use litehttp_c.Core.Client.Reads.{delivering, read_client-delivering}

module _ (T : Text) (B : Backend) (build : Build) (mem : Mem) (client : ClientData T.Str)
    (ctx done : HttpParseCtx) (beg : client.ctx_beg ≡ ctx ∷ [])
    (tail : client.ctx_tail ≡ some 0) where
  -- A client whose only node is both ends of its chain, and data that completes the request of that
  -- node: when the request is answered, the answer has been written and the chain is empty, but the
  -- tail is left pointing to the node that was freed. The next data of this client, or the first
  -- event without any, is a fault. The data of each event is below the limit of the strings.
  pub request_then_fault :
      (s s1 s' : B.State) (pieces pieces' : List Bytes) (rep : HttpResponse) (bytes : Bytes)
      (del_ok : Bool)
      → length (concat pieces) + 1 < 2 ^ 30
      → length (concat pieces') + 1 < 2 ^ 30
      → http_parse_feed build mem ctx (concat pieces) ≡ some (done ∷ [], http_success)
      → done.wait_state ≡ http_parse_end
      → B.respond s (stale_request B.reads done.http_request) ≡ some (s1, some rep, http_success)
      → B.send s1 rep ≡ some (bytes, http_success)
      → (client' : ClientData T.Str) × (handle_client_fd T B build mem s client
            (delivering pieces (read_would_block ∷ []))
            del_ok
          ≡ some (record {
            state = s1;
            client = some client';
            epoll_fd_open = true;
            client_fd_open = true;
            watched = true;
            sent = bytes ∷ [];
            result = http_success;
          }))
        × (client'.ctx_beg ≡ [])
        × (client'.ctx_tail ≡ none)
        × (handle_client_fd T B build mem s' client'
              (delivering pieces' (read_would_block ∷ []))
              del_ok
            ≡ none)
  unfolding handle_client_fd read_client feed_at
  request_then_fault s s1 s' pieces pieces' rep bytes del_ok h h' fed ended responded sent =
      let (r', e', v', t') =
        read_client-delivering T pieces' T.init (read_would_block ∷ []) T.init_Valid
          (omega (arith, ap (λ (t : Bytes). length t) T.init_text)) in
      (
        record client { ctx_beg = []; ctx_tail = none },
        event_answers T B build mem client ctx done (record { beg_is = beg; tail_is = tail }) pieces
            del_ok h s s1 rep bytes fed ended responded sent,
        refl,
        refl,
        simp e',
      )
