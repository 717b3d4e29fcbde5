-- ===== src/Core/Client/Order.antt =====
-- The loop of `handle_client_fd` in src/core/client.c over a chain of finished requests.
use litehttp_c.Base.{◌≡◌, refl, List, [], ◌∷◌, some, Bytes, length}
use litehttp_c.Util.ErrorCode.{HttpErr, http_success}
use litehttp_c.Http.Response.{HttpResponse}
use litehttp_c.Http.ParseCtx.Views.{stale_request}
use litehttp_c.Http.ParseCtx.{HttpParseCtx, http_parse_end}
use litehttp_c.Core.Client.{Backend, serve_nodes, serve_requests}
use litehttp_c.Core.Client.Events.{pop_end, pop_nothing}

abbrev pub AreFinished : List HttpParseCtx → Type 0
AreFinished [] = Unit {0}
AreFinished (ctx ∷ chain) = (ctx.wait_state ≡ http_parse_end) × AreFinished chain

-- What the loop meets over these nodes: the backend answers the request of each of them, as it is when
-- the node has been freed, in the state that the answers in front of it leave. The indices at the end
-- are the state behind them and the bytes that are sent.
pub data Answered (B : Backend) : B.State → List HttpParseCtx → B.State → List Bytes → Type 0 where
  none_asked : {s : B.State} → Answered B s [] s []
  answers :
      {s s1 s2 : B.State} {ctx : HttpParseCtx} {chain : List HttpParseCtx} {bytes : Bytes}
      {sent : List Bytes} (rep : HttpResponse)
      → B.respond s (stale_request B.reads ctx.http_request) ≡ some (s1, some rep, http_success)
      → B.send s1 rep ≡ some (bytes, http_success)
      → Answered B s1 chain s2 sent
      → Answered B s (ctx ∷ chain) s2 (bytes ∷ sent)

module _ (B : Backend) where
  abbrev pub last_result : HttpErr → List HttpParseCtx → HttpErr
  last_result herr [] = herr
  last_result herr (ctx ∷ chain) = http_success

  last_success : (chain : List HttpParseCtx) → last_result http_success chain ≡ http_success
  last_success [] = refl
  last_success (ctx ∷ chain) = refl

  all_of :
      (chain : List HttpParseCtx) (s s' : B.State) (sent : List Bytes) (herr : HttpErr)
      → AreFinished chain
      → Answered B s chain s' sent
      → serve_nodes B (length chain) herr s chain
        ≡ some (record {
          state = s';
          chain = [];
          popped = length chain;
          sent = sent;
          result = last_result herr chain;
        })
  unfolding serve_nodes
  all_of [] s _ _ herr f none_asked = simp (pop_nothing B.reads)
  all_of (ctx ∷ chain) s s' _ herr f (answers {s1 = s1} {sent = sent} rep responds sends more) =
      let rest = all_of chain s1 s' sent http_success f.1 more in
      simp (pop_end B.reads ctx chain f.0, responds, sends, rest, last_success chain)

  -- Over a chain of finished requests, each of which the backend answers in the state that the answers
  -- in front of it leave, the loop sends one answer to each request, in the order of the chain, and
  -- pops the whole chain.
  pub serve_requests_lem :
      (chain : List HttpParseCtx) (s s' : B.State) (sent : List Bytes) (herr : HttpErr)
      → AreFinished chain
      → Answered B s chain s' sent
      → serve_requests B herr s chain
        ≡ some (record {
          state = s';
          chain = [];
          popped = length chain;
          sent = sent;
          result = last_result herr chain;
        })
  unfolding serve_requests
  serve_requests_lem chain s s' sent herr f a = all_of chain s s' sent herr f a
