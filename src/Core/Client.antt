-- ===== src/Core/Client.antt =====
-- src/core/client.c: the events of one client. What answers a request and what writes the answer are an
-- interface, which the dispatcher and the server fill.
pub mod Reads
pub mod Requests
pub mod Events
pub mod Delivery
pub mod Invariant
pub mod Life
pub mod Errors
pub mod Order
use litehttp_c.Base.{
  ℕ, zero, suc, ◌+◌, ◌-◌, Bool, true, false, not, List, [], ◌∷◌, Option, none, some, Bytes, length,
  ltb, if◌then◌else◌, ◌>>=◌,
}
use litehttp_c.Util.ErrorCode.{
  HttpErr, http_success, http_err_client_close, http_err_request_fatal, http_err_epoll_ctl_del,
}
use litehttp_c.Util.Text.{Text}
use litehttp_c.Http.Request.{HttpRequest}
use litehttp_c.Http.Response.{HttpResponse}
use litehttp_c.Http.ParseCtx.{HttpParseCtx, Build, Mem}
use litehttp_c.Http.Feed.{http_parse_feed, is_fatal}
use litehttp_c.Http.Chain.{http_parse_pop_request_and_release}
use litehttp_c.Http.Resource.{KHash, TableState}
use litehttp_c.Core.Dispatch.{is_success, GetCalls, handle_http_request}
use litehttp_c.Core.Server.{ClientData, http_send_response}

-- `handle_http_request` and `http_send_response`, over the state that they share. The bytes are those
-- that reach the client. `reads` is what stands in the freed text of a request, by what a view into it
-- spanned.
pub record Backend : Type 1 where
  pub State : Type 0
  pub reads : Bytes → Bytes
  pub respond : State → HttpRequest → Option (State × Option HttpResponse × HttpErr)
  pub send : State → HttpResponse → Option (Bytes × HttpErr)

-- The server's own: each request meets the outcomes `calls`, each answer the outcome `write`.
abbrev pub http_backend :
    (T : Text) (H : KHash)
    → Build
    → (TableState H.Table → GetCalls H.Table)
    → Bytes
    → Option ℕ
    → (Bytes → Bytes)
    → Backend
http_backend T H build calls base_dir write reads = record {
  State = TableState H.Table;
  reads = reads;
  respond = λ table request. handle_http_request T H build (calls table) base_dir table request;
  send = λ table response. http_send_response T write response;
}

-- What one `read` returns: at least one byte, or none at the end of the stream, or an error.
pub data ReadResult : Type 0 where
  read_data : Bytes → ReadResult
  read_interrupted read_would_block read_fails read_end : ReadResult

-- A socket that has nothing more to read would block.
module _ (T : Text) where
  unfoldable pub read_client : T.Str → List ReadResult → Option (T.Str × HttpErr)
  read_client rec_str [] = some (rec_str, http_success)
  read_client rec_str (read_data bs ∷ reads) =
      T.append rec_str bs >>= λ more. read_client more reads
  read_client rec_str (read_interrupted ∷ reads) = read_client rec_str reads
  read_client rec_str (read_would_block ∷ reads) = some (rec_str, http_success)
  read_client rec_str (read_fails ∷ reads) = some (rec_str, http_err_client_close)
  read_client rec_str (read_end ∷ reads) = some (rec_str, http_err_client_close)

-- The chain and the place of its tail when the node at a place has been fed. A place outside the chain
-- is a node that has been freed.
unfoldable pub feed_at :
    Build → Mem → ℕ → List HttpParseCtx → Bytes → Option (List HttpParseCtx × ℕ × HttpErr)
feed_at build mem tail [] post = none
feed_at build mem zero (ctx ∷ next) post = http_parse_feed build mem ctx post >>= λ r.
    some (r.0, (if is_success r.1 then length r.0 - 1 else 0), r.1)
feed_at build mem (suc tail) (ctx ∷ next) post =
    feed_at build mem tail next post >>= λ r. some (ctx ∷ r.0, r.1 + 1, r.2)

module _ (B : Backend) where
  -- How the loop over the requests ends. `popped` counts the nodes that it has freed.
  pub record Round : Type 0 where
    pub state : B.State
    pub chain : List HttpParseCtx
    pub popped : ℕ
    pub sent : List Bytes
    pub result : HttpErr

  abbrev pub and_sent : Bytes → Round → Round
  and_sent bytes round = record round { popped = suc round.popped; sent = bytes ∷ round.sent }

  -- The rest of the loop is an argument. A null response is a fault: the assertion, or the reader of
  -- the response, stops there.
  abbrev pub answer :
      (B.State → Option Round)
      → List HttpParseCtx
      → B.State × Option HttpResponse × HttpErr
      → Option Round
  answer rest next (s, response, herr) =
      if not (is_success herr)
      then some (record { state = s; chain = next; popped = 1; sent = []; result = herr })
      else elim response [
        | none ↦ none
        | some rep ↦ B.send s rep >>= λ w.
            (if not (is_success w.1)
              then some
                  (record { state = s; chain = next; popped = 1; sent = w.0 ∷ []; result = w.1 })
              else rest s >>= λ round. some (and_sent w.0 round))
      ]

  abbrev pub after_pop :
      HttpErr
      → B.State
      → List HttpParseCtx
      → (List HttpParseCtx → B.State → Option Round)
      → Option (HttpRequest × List HttpParseCtx)
      → Option Round
  after_pop herr s chain rest none =
      some (record { state = s; chain = chain; popped = 0; sent = []; result = herr })
  after_pop herr s chain rest (some (request, left)) =
      B.respond s request >>= answer (rest left) left

  -- The loop, by the nodes that are left to pop.
  unfoldable pub serve_nodes : ℕ → HttpErr → B.State → List HttpParseCtx → Option Round
  serve_nodes zero herr s chain =
      after_pop herr s chain (λ left s'. none) (http_parse_pop_request_and_release B.reads chain)
  serve_nodes (suc fuel) herr s chain =
      after_pop herr s chain (λ left s'. serve_nodes fuel http_success s' left)
        (http_parse_pop_request_and_release B.reads chain)

  unfoldable pub serve_requests : HttpErr → B.State → List HttpParseCtx → Option Round
  unfolding serve_nodes
  serve_requests herr s chain = serve_nodes (length chain) herr s chain

-- The place of a node when the first ones have been freed.
abbrev pub place_left : ℕ → ℕ → Option ℕ
place_left tail popped = if ltb tail popped then none else some (tail - popped)

-- What a call of `handle_client_fd` leaves: the client, `none` when it has been freed, the two
-- descriptors that it knows, whether epoll still watches the client, and the bytes written.
pub record ClientEnd (State Str : Type 0) : Type 0 where
  pub state : State
  pub client : Option (ClientData Str)
  pub epoll_fd_open : Bool
  pub client_fd_open : Bool
  pub watched : Bool
  pub sent : List Bytes
  pub result : HttpErr

module _ (T : Text) (B : Backend) (build : Build) (mem : Mem) where
  -- `err`, and the return behind the loop
  abbrev pub keep : B.State → ClientData T.Str → List Bytes → HttpErr → ClientEnd B.State T.Str
  keep s client sent herr = record {
    state = s;
    client = some client;
    epoll_fd_open = true;
    client_fd_open = true;
    watched = true;
    sent = sent;
    result = herr;
  }

  -- `closefd`: the descriptor that is closed is that of epoll.
  abbrev pub closefd : Bool → B.State → ClientEnd B.State T.Str
  closefd del_ok s = record {
    state = s;
    client = none;
    epoll_fd_open = false;
    client_fd_open = true;
    watched = not del_ok;
    sent = [];
    result = if del_ok then http_err_client_close else http_err_epoll_ctl_del;
  }

  abbrev pub served : ClientData T.Str → ℕ → Round B → ClientEnd B.State T.Str
  served client tail round =
      keep round.state
        (record client { ctx_beg = round.chain; ctx_tail = place_left tail round.popped })
        round.sent round.result

  abbrev pub fed :
      B.State
      → ClientData T.Str
      → List HttpParseCtx × ℕ × HttpErr
      → Option (ClientEnd B.State T.Str)
  fed s client (chain, tail, herr) =
      if is_fatal herr
      then some (keep s (record client { ctx_beg = chain; ctx_tail = some tail }) [] herr)
      else serve_requests B herr s chain >>= λ round. some (served client tail round)

  abbrev pub feed_tail :
      B.State → ClientData T.Str → Bytes → Option ℕ → Option (ClientEnd B.State T.Str)
  feed_tail s client post none = none
  feed_tail s client post (some tail) = feed_at build mem tail client.ctx_beg post >>= fed s client

  abbrev pub after_read :
      Bool → B.State → ClientData T.Str → T.Str × HttpErr → Option (ClientEnd B.State T.Str)
  after_read del_ok s client (receive_post, http_err_client_close) = some (closefd del_ok s)
  after_read del_ok s client (receive_post, http_success) =
      feed_tail s client (T.text receive_post) client.ctx_tail
  after_read del_ok s client (receive_post, herr) = some (keep s client [] herr)

  unfoldable pub handle_client_fd :
      B.State → ClientData T.Str → List ReadResult → Bool → Option (ClientEnd B.State T.Str)
  handle_client_fd s client reads del_ok = read_client T T.init reads >>= after_read del_ok s client
