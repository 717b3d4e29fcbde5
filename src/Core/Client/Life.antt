-- ===== src/Core/Client/Life.antt =====
-- The events of a client of src/core/client.c, from its creation on.
use mathlib.Core.Path.{subst}
use litehttp_c.Base.{
  ◌-◌, ◌≡◌, refl, ap, inr, Bool, true, false, List, [], ◌∷◌, ◌++◌, Option, none, some, Bytes,
  length, length-append, ◌∙◌, arith, if◌then◌else◌, Bool-cases, inl,
}
use litehttp_c.Util.ErrorCode.{HttpErr, http_success}
use litehttp_c.Util.Text.{Text, concat}
use litehttp_c.Http.Request.{HttpRequest}
use litehttp_c.Http.Response.{HttpResponse}
use litehttp_c.Http.ParseCtx.Views.{stale_request}
use litehttp_c.Http.Feed.Append.{Fits}
use litehttp_c.Http.ParseCtx.{
  HttpParseCtx, WaitState, http_parse_end, fresh_ctx, Build, release, Mem,
}
use litehttp_c.Http.Feed.{http_parse_feed, is_fatal}
use litehttp_c.Http.Feed.Bounds.{OneNode, http_parse_feed-OneNode}
use litehttp_c.Http.Feed.Bounds.Placing.{Inv}
use litehttp_c.Http.Chain.{is_end}
use litehttp_c.Core.Dispatch.{is_success}
use litehttp_c.Core.Server.{ClientData}
use litehttp_c.Core.Client.{
  Backend, ClientEnd, Round, ReadResult, read_client, read_would_block, feed_at, serve_nodes,
  serve_requests, handle_client_fd, place_left,
}
use litehttp_c.Core.Client.Events.{HasOne, kept, serve_none, pop_end, pop_nothing}
use litehttp_c.Core.Client.Invariant.{Held, holds_one, HeldClient, HeldAfter, handle_client_fd-Held}
use litehttp_c.Core.Client.Reads.{delivering, read_client-delivering}

-- The clients that events make of a new one. Other clients may change the shared state between two
-- events, so that each event starts in any state.
pub data Reach (T : Text) (B : Backend) (build : Build) (mem : Mem)
    : ClientData T.Str → Type 0 where
  start : {client : ClientData T.Str} → HasOne client fresh_ctx → Reach T B build mem client
  later :
      {client client' : ClientData T.Str} (s : B.State) (reads : List ReadResult) (del_ok : Bool)
      (end : ClientEnd B.State T.Str)
      → Reach T B build mem client
      → handle_client_fd T B build mem s client reads del_ok ≡ some end
      → end.client ≡ some client'
      → Reach T B build mem client'

-- Through every sequence of events, whatever is read, a client has either exactly one parse node,
-- which is both ends of its chain and whose current place and next line lie within its text, or no node
-- and a tail that points to a freed one. It holds in either build, when the parser has memory for the text.
pub Reach-Held :
    (T : Text) (B : Backend) (build : Build) (mem : Mem) (client : ClientData T.Str)
    → mem.append_ok ≡ true
    → Reach T B build mem client
    → Held client
Reach-Held T B build mem client ok (start one) =
    holds_one fresh_ctx one
      (record { in_post = omega arith; cur_in_post = omega arith; full = inr (omega arith) })
Reach-Held T B build mem client ok (later {client = before} s reads del_ok end r e f) =
    let held =
      handle_client_fd-Held T B build mem before ok s reads del_ok
        (Reach-Held T B build mem before ok r) in
    subst HeldClient f (subst HeldAfter e held)

-- One node that a call of the parser leaves, in a build without assertions.
one_fed :
    (mem : Mem) (ctx : HttpParseCtx) (post : Bytes)
    → Inv ctx
    → mem.append_ok ≡ true
    → Fits (ctx.post ++ post)
    → (d : HttpParseCtx) × (e : HttpErr) × (http_parse_feed release mem ctx post ≡ some (d ∷ [], e))
one_fed mem ctx post v ok fits =
    go (http_parse_feed release mem ctx post) (http_parse_feed-OneNode release mem ctx post v ok)
  where
    go :
        (r : Option (List HttpParseCtx × HttpErr))
        → OneNode release (ctx.post ++ post) r
        → (d : HttpParseCtx) × (e : HttpErr) × (r ≡ some (d ∷ [], e))
    go none h = absurd (omega arith)
    go (some ([], e)) h = absurd h
    go (some (c ∷ _ ∷ _, e)) h = absurd h
    go (some (c ∷ [], e)) h = (c, e, refl)

ended : (w : WaitState) → is_end w ≡ true → w ≡ http_parse_end
ended http_parse_end h = refl
ended _ h = absurd (ground arith)

-- The backend has a reply to this request: an error, or a response whose writing has an outcome.
pub data Replies (B : Backend) (s : B.State) (request : HttpRequest) : Type 0 where
  refuses :
      {s' : B.State} {response : Option HttpResponse} (e : HttpErr)
      → B.respond s request ≡ some (s', response, e)
      → is_success e ≡ false
      → Replies B s request
  writes :
      {s' : B.State} (rep : HttpResponse) (bytes : Bytes) (e : HttpErr)
      → B.respond s request ≡ some (s', some rep, http_success)
      → B.send s' rep ≡ some (bytes, e)
      → Replies B s request

module _ (B : Backend) (s : B.State) (d : HttpParseCtx) where
  reply_returns :
      (herr : HttpErr)
      → d.wait_state ≡ http_parse_end
      → Replies B s (stale_request B.reads d.http_request)
      → (round : Round B) × (serve_requests B herr s (d ∷ []) ≡ some round)
  unfolding serve_requests serve_nodes
  reply_returns herr done (refuses {s' = s'} e responds failed) = (
    record { state = s'; chain = []; popped = 1; sent = []; result = e },
    simp (pop_end B.reads d [] done, responds, failed),
  )
  reply_returns herr done (writes {s' = s'} rep bytes e responds sends) =
      elim (Bool-cases (is_success e)) [
        | inl y ↦ (
          record { state = s'; chain = []; popped = 1; sent = bytes ∷ []; result = http_success },
          simp (pop_end B.reads d [] done, responds, sends, y, pop_nothing B.reads),
        )
        | inr n ↦ (
          record { state = s'; chain = []; popped = 1; sent = bytes ∷ []; result = e },
          simp (pop_end B.reads d [] done, responds, sends, n),
        )
      ]

  serve_returns :
      (herr : HttpErr)
      → (d.wait_state ≡ http_parse_end → Replies B s (stale_request B.reads d.http_request))
      → (round : Round B) × (serve_requests B herr s (d ∷ []) ≡ some round)
  serve_returns herr replies = elim (Bool-cases (is_end d.wait_state)) [
    | inr n ↦ (_, serve_none B s d herr n)
    | inl y ↦ reply_returns herr (ended d.wait_state y) (replies (ended d.wait_state y))
  ]

module _ (T : Text) (B : Backend) (mem : Mem) (ok : mem.append_ok ≡ true) where
  -- An event of a client with a well-formed node returns and keeps the client, in a build without
  -- assertions, whatever the data is, when the parser has memory for the text, a string can hold it, and
  -- the backend has a reply, be it an error, to the request that the data completes, if it does. The
  -- client is then well-formed again, or has no node left.
  pub event_returns :
      (s : B.State) (client : ClientData T.Str) (ctx : HttpParseCtx) (pieces : List Bytes)
      (del_ok : Bool)
      → HasOne client ctx
      → Inv ctx
      → Fits (ctx.post ++ concat pieces)
      → ((d : HttpParseCtx) (e : HttpErr)
          → http_parse_feed release mem ctx (concat pieces) ≡ some (d ∷ [], e)
          → d.wait_state ≡ http_parse_end
          → Replies B s (stale_request B.reads d.http_request))
      → (s' : B.State) × (client' : ClientData T.Str) × (sent : List Bytes) × (result : HttpErr)
        × (handle_client_fd T B release mem s client
              (delivering pieces (read_would_block ∷ []))
              del_ok
            ≡ some (kept B T s' client' sent result))
        × Held client'
  unfolding handle_client_fd read_client feed_at
  event_returns s client ctx pieces del_ok one v small replies =
      let (r, f, w, t) =
        read_client-delivering T pieces T.init (read_would_block ∷ []) T.init_Valid (
          omega (
            arith,
            ap (λ (t : Bytes). length t) T.init_text,
            length-append ctx.post (concat pieces),
          )) in
      let text = t ∙ ap (λ t0. t0 ++ concat pieces) T.init_text in
      let (d, e, fed) = one_fed mem ctx (concat pieces) v ok small in
      let (round, g) = serve_returns B s d e (replies d e fed) in
      let place = if is_success e then length (d ∷ []) - 1 else 0 in
      let reads = delivering pieces (read_would_block ∷ []) in
      let held =
        handle_client_fd-Held T B release mem client ok s reads del_ok (holds_one ctx one v) in
      elim (Bool-cases (is_fatal e)) [
        | inl y ↦
            let client' = record client { ctx_beg = d ∷ []; ctx_tail = some place } in
            let returned : handle_client_fd T B release mem s client reads del_ok
                ≡ some (kept B T s client' [] e) =
              simp (f, one.tail_is, one.beg_is, text, fed, y) in
            (s, client', [], e, returned, subst HeldAfter returned held)
        | inr n ↦
            let client' = record client {
              ctx_beg = round.chain;
              ctx_tail = place_left place round.popped;
            } in
            let returned : handle_client_fd T B release mem s client reads del_ok
                ≡ some (kept B T round.state client' round.sent round.result) =
              simp (f, one.tail_is, one.beg_is, text, fed, n, g) in
            (
              round.state,
              client',
              round.sent,
              round.result,
              returned,
              subst HeldAfter returned held,
            )
      ]
