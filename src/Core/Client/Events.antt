-- ===== src/Core/Client/Events.antt =====
-- One event of a client of src/core/client.c that has one node and whose socket has data.
use litehttp_c.Base.{
  ◌+◌, ◌^◌, ◌<◌, ◌≡◌, refl, ◌∙◌, ap, inl, inr, Bool, true, false, List, [], ◌∷◌, ◌++◌, none, some,
  Bytes, length, arith, if◌then◌else◌,
}
use litehttp_c.Util.ErrorCode.{HttpErr, http_success}
use litehttp_c.Util.Text.{Text, concat}
use litehttp_c.Http.Response.{HttpResponse}
use litehttp_c.Http.ParseCtx.Views.{stale_request}
use litehttp_c.Http.ParseCtx.{HttpParseCtx, http_parse_end, Build, Mem}
use litehttp_c.Http.Feed.{http_parse_feed, is_fatal}
use litehttp_c.Http.Feed.Pieces.Waiting.{AsksForMore}
use litehttp_c.Http.Chain.{is_end, http_parse_pop_request_and_release}
use litehttp_c.Core.Dispatch.{is_success}
use litehttp_c.Core.Server.{ClientData}
use litehttp_c.Core.Client.{
  Backend, ClientEnd, read_client, read_would_block, feed_at, serve_nodes, serve_requests,
  handle_client_fd,
}
use litehttp_c.Core.Client.Reads.{delivering, read_client-delivering}

-- A client whose only node is both ends of its chain.
pub record HasOne {S : Type 0} (client : ClientData S) (ctx : HttpParseCtx) : Type 0 where
  pub beg_is : client.ctx_beg ≡ ctx ∷ []
  pub tail_is : client.ctx_tail ≡ some 0

-- What an event leaves when the client is kept.
abbrev pub kept :
    (B : Backend) (T : Text)
    → B.State
    → ClientData T.Str
    → List Bytes
    → HttpErr
    → ClientEnd B.State T.Str
kept B T s client sent result = record {
  state = s;
  client = some client;
  epoll_fd_open = true;
  client_fd_open = true;
  watched = true;
  sent = sent;
  result = result;
}

pub pop_end :
    (reads : Bytes → Bytes) (ctx : HttpParseCtx) (next : List HttpParseCtx)
    → ctx.wait_state ≡ http_parse_end
    → http_parse_pop_request_and_release reads (ctx ∷ next)
      ≡ some (stale_request reads ctx.http_request, next)
unfolding http_parse_pop_request_and_release
pop_end reads ctx next ended =
    ap (λ w. if is_end w then some (stale_request reads ctx.http_request, next) else none) ended

pub pop_nothing : (reads : Bytes → Bytes) → http_parse_pop_request_and_release reads [] ≡ none
unfolding http_parse_pop_request_and_release
pop_nothing reads = refl

pub serve_one :
    (B : Backend) (s s1 : B.State) (done : HttpParseCtx) (rep : HttpResponse) (bytes : Bytes)
    → done.wait_state ≡ http_parse_end
    → B.respond s (stale_request B.reads done.http_request) ≡ some (s1, some rep, http_success)
    → B.send s1 rep ≡ some (bytes, http_success)
    → serve_requests B http_success s (done ∷ [])
      ≡ some
          (record { state = s1; chain = []; popped = 1; sent = bytes ∷ []; result = http_success })
unfolding serve_requests serve_nodes
serve_one B s s1 done rep bytes ended responded sent =
    simp (pop_end B.reads done [] ended, responded, sent, pop_nothing B.reads)

pop_waiting :
    (reads : Bytes → Bytes) (ctx : HttpParseCtx) (next : List HttpParseCtx)
    → is_end ctx.wait_state ≡ false
    → http_parse_pop_request_and_release reads (ctx ∷ next) ≡ none
unfolding http_parse_pop_request_and_release
pop_waiting reads ctx next e = rw e refl

-- A node that waits is not popped.
pub serve_none :
    (B : Backend) (s : B.State) (waiting : HttpParseCtx) (e : HttpErr)
    → is_end waiting.wait_state ≡ false
    → serve_requests B e s (waiting ∷ [])
      ≡ some (record { state = s; chain = waiting ∷ []; popped = 0; sent = []; result = e })
unfolding serve_requests serve_nodes
serve_none B s waiting e w = simp (pop_waiting B.reads waiting [] w)

asks_calm : (e : HttpErr) → AsksForMore e → (is_fatal e ≡ false) × (is_success e ≡ false)
asks_calm e (inl h) = rw h (refl, refl)
asks_calm e (inr h) = rw h (refl, refl)

module _ (T : Text) (B : Backend) (build : Build) (mem : Mem) (client : ClientData T.Str)
    (ctx d : HttpParseCtx) (one : HasOne client ctx) (pieces : List Bytes) (del_ok : Bool)
    (small : length (concat pieces) + 1 < 2 ^ 30) where
  -- Data that leaves the request unfinished: nothing is sent, and the node waits.
  pub event_waits :
      (s : B.State) (e : HttpErr)
      → http_parse_feed build mem ctx (concat pieces) ≡ some (d ∷ [], e)
      → AsksForMore e
      → is_end d.wait_state ≡ false
      → handle_client_fd T B build mem s client (delivering pieces (read_would_block ∷ [])) del_ok
        ≡ some (kept B T s (record client { ctx_beg = d ∷ []; ctx_tail = some 0 }) [] e)
  unfolding handle_client_fd read_client feed_at
  event_waits s e fed asks w =
      let (r, f, v, t) =
        read_client-delivering T pieces T.init (read_would_block ∷ []) T.init_Valid
          (omega (arith, ap (λ (t : Bytes). length t) T.init_text)) in
      let text = t ∙ ap (λ t0. t0 ++ concat pieces) T.init_text in
      let calm = asks_calm e asks in
      simp (f, one.tail_is, one.beg_is, text, fed, calm.0, calm.1, serve_none B s d e w)

  -- Data that completes the request: its answer is sent, and the node is gone.
  pub event_answers :
      (s s1 : B.State) (rep : HttpResponse) (bytes : Bytes)
      → http_parse_feed build mem ctx (concat pieces) ≡ some (d ∷ [], http_success)
      → d.wait_state ≡ http_parse_end
      → B.respond s (stale_request B.reads d.http_request) ≡ some (s1, some rep, http_success)
      → B.send s1 rep ≡ some (bytes, http_success)
      → handle_client_fd T B build mem s client (delivering pieces (read_would_block ∷ [])) del_ok
        ≡ some (
            kept B T s1 (record client { ctx_beg = []; ctx_tail = none }) (bytes ∷ []) http_success)
  unfolding handle_client_fd read_client feed_at
  event_answers s s1 rep bytes fed ended responded sent =
      let (r, f, v, t) =
        read_client-delivering T pieces T.init (read_would_block ∷ []) T.init_Valid
          (omega (arith, ap (λ (t : Bytes). length t) T.init_text)) in
      let text = t ∙ ap (λ t0. t0 ++ concat pieces) T.init_text in
      simp
        (f, one.tail_is, one.beg_is, text, fed, serve_one B s s1 d rep bytes ended responded sent)
