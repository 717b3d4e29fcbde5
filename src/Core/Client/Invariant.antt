-- ===== src/Core/Client/Invariant.antt =====
-- What every client of src/core/client.c looks like between two events.
use litehttp_c.Base.{
  ◌-◌, ◌≡◌, refl, ◌⊎◌, inl, inr, Bool, true, false, List, [], ◌∷◌, ◌++◌, Option, none, some, Bytes,
  length, ℕ, if◌then◌else◌, ◌>>=◌, Bool-cases, Option-cases,
}
use litehttp_c.Util.ErrorCode.{HttpErr, http_success, http_err_client_close}
use litehttp_c.Util.Text.{Text}
use litehttp_c.Http.Response.{HttpResponse}
use litehttp_c.Http.ParseCtx.Views.{stale_request}
use litehttp_c.Http.ParseCtx.{HttpParseCtx, Build, Mem}
use litehttp_c.Http.Feed.{http_parse_feed, is_fatal}
use litehttp_c.Http.Feed.Bounds.{OneNode, http_parse_feed-OneNode}
use litehttp_c.Http.Feed.Bounds.Placing.{Inv}
use litehttp_c.Http.Chain.{is_end, http_parse_pop_request_and_release}
use litehttp_c.Core.Dispatch.{is_success}
use litehttp_c.Core.Server.{ClientData}
use litehttp_c.Core.Client.{
  Backend, ClientEnd, Round, ReadResult, read_client, feed_at, serve_nodes, serve_requests,
  handle_client_fd, answer, served, fed, feed_tail, after_read,
}
use litehttp_c.Core.Client.Events.{HasOne, serve_none, pop_nothing}

-- Either one node, both ends of the chain and well-formed, or no node and a tail that was freed.
pub data Held {S : Type 0} (client : ClientData S) : Type 0 where
  holds_one : (ctx : HttpParseCtx) → HasOne client ctx → Inv ctx → Held client
  holds_none : client.ctx_beg ≡ [] → client.ctx_tail ≡ none → Held client

-- A fault leaves no client, and neither does a close.
abbrev pub HeldClient : {S : Type 0} → Option (ClientData S) → Type 0
HeldClient none = Unit {0}
HeldClient (some client) = Held client

abbrev pub HeldAfter : {A S : Type 0} → Option (ClientEnd A S) → Type 0
HeldAfter none = Unit {0}
HeldAfter (some end) = HeldClient end.client

-- The loop over the requests leaves the node, or pops it.
abbrev OneServed : (B : Backend) → HttpParseCtx → Option (Round B) → Type 0
OneServed B ctx none = Unit {0}
OneServed B ctx (some round) =
    ((round.chain ≡ ctx ∷ []) × (round.popped ≡ 0)) ⊎ ((round.chain ≡ []) × (round.popped ≡ 1))

module _ (B : Backend) (ctx : HttpParseCtx) where
  abbrev nothing_left : B.State → Round B
  nothing_left s = record { state = s; chain = []; popped = 0; sent = []; result = http_success }

  -- One answer, when nothing is left behind it.
  answer-OneServed :
      (rest : B.State → Option (Round B))
      → ((s : B.State) → rest s ≡ some (nothing_left s))
      → (r : B.State × Option HttpResponse × HttpErr) → OneServed B ctx (answer B rest [] r)
  answer-OneServed rest h (s, none, e) = elim (Bool-cases (is_success e)) [
    | inl y ↦ rw y tt
    | inr n ↦ rw n (inr (refl, refl))
  ]
  answer-OneServed rest h (s, some rep, e) = elim (Bool-cases (is_success e)) [
    | inr n ↦ rw n (inr (refl, refl))
    | inl y ↦ elim (Option-cases (B.send s rep)) [
      | inl f ↦ rw (y, f) tt
      | inr (w, f) ↦ elim (Bool-cases (is_success w.1)) [
        | inl z ↦ rw (y, f, z, h s) (inr (refl, refl))
        | inr z ↦ rw (y, f, z) (inr (refl, refl))
      ]
    ]
  ]

  none_left : (s : B.State) → serve_nodes B 0 http_success s [] ≡ some (nothing_left s)
  unfolding serve_nodes
  none_left s = simp (pop_nothing B.reads)

  pop_ended :
      is_end ctx.wait_state ≡ true
      → http_parse_pop_request_and_release B.reads (ctx ∷ [])
        ≡ some (stale_request B.reads ctx.http_request, [])
  unfolding http_parse_pop_request_and_release
  pop_ended y = rw y refl

  serve-OneServed : (e : HttpErr) (s : B.State) → OneServed B ctx (serve_requests B e s (ctx ∷ []))
  unfolding serve_requests serve_nodes
  serve-OneServed e s = elim (Bool-cases (is_end ctx.wait_state)) [
    | inr n ↦ rw (serve_none B s ctx e n) (inl (refl, refl))
    | inl y ↦ elim (Option-cases (B.respond s (stale_request B.reads ctx.http_request))) [
      | inl f ↦ rw (pop_ended y, f) tt
      | inr (r, f) ↦
          rw (pop_ended y, f)
            (answer-OneServed (λ s'. serve_nodes B 0 http_success s' []) none_left r)
    ]
  ]

-- The place of the tail when one node has been fed.
abbrev first_place : Bool → ℕ
first_place b = if b then 1 - 1 else 0

same_place : (b : Bool) → first_place b ≡ 0
same_place true = refl
same_place false = refl

module _ (T : Text) (B : Backend) (build : Build) (mem : Mem) (client : ClientData T.Str) where
  served-Held :
      (ctx : HttpParseCtx) (r : Option (Round B))
      → Inv ctx
      → OneServed B ctx r
      → HeldAfter (r >>= λ round. some (served T B build mem client 0 round))
  served-Held ctx none v h = tt
  served-Held ctx (some round) v (inl (beg, count)) =
      holds_one ctx (record { beg_is = beg; tail_is = rw count refl }) v
  served-Held ctx (some round) v (inr (beg, count)) = holds_none beg (rw count refl)

  abbrev after_feed :
      Option (List HttpParseCtx × HttpErr) → Option (List HttpParseCtx × ℕ × HttpErr)
  after_feed r = r >>= λ r. some (r.0, (if is_success r.1 then length r.0 - 1 else 0), r.1)

  fed-Held :
      (s : B.State) (text : Bytes) (r : Option (List HttpParseCtx × HttpErr))
      → OneNode build text r
      → HeldAfter (after_feed r >>= fed T B build mem s client)
  fed-Held s text none h = tt
  fed-Held s text (some ([], e)) h = absurd h
  fed-Held s text (some (c ∷ _ ∷ _, e)) h = absurd h
  fed-Held s text (some (c ∷ [], e)) h =
      let tail : first_place (is_success e) ≡ 0 = same_place (is_success e) in
      elim (Bool-cases (is_fatal e)) [
        | inl y ↦ rw (y, tail) (holds_one c (record { beg_is = refl; tail_is = refl }) h.0)
        | inr n ↦
            rw (n, tail)
              (served-Held c (serve_requests B e s (c ∷ [])) h.0 (serve-OneServed B c e s))
      ]

  tail-Held :
      mem.append_ok ≡ true
      → (s : B.State) (post : Bytes) → Held client
      → HeldAfter (feed_tail T B build mem s client post client.ctx_tail)
  unfolding feed_at
  tail-Held ok s post (holds_none beg tail) = rw tail tt
  tail-Held ok s post (holds_one ctx one v) =
      let fed = http_parse_feed build mem ctx post in
      rw (one.tail_is, one.beg_is)
        (fed-Held s (ctx.post ++ post) fed (http_parse_feed-OneNode build mem ctx post v ok))

  read-Held :
      mem.append_ok ≡ true
      → (del_ok : Bool) (s : B.State) (r : T.Str × HttpErr) → Held client
      → HeldAfter (after_read T B build mem del_ok s client r)
  read-Held ok del_ok s (post, http_err_client_close) h = tt
  read-Held ok del_ok s (post, http_success) h = tail-Held ok s (T.text post) h
  read-Held ok del_ok s (post, _) h = h

  -- Any event.
  pub handle_client_fd-Held :
      mem.append_ok ≡ true
      → (s : B.State) (reads : List ReadResult) (del_ok : Bool) → Held client
      → HeldAfter (handle_client_fd T B build mem s client reads del_ok)
  unfolding handle_client_fd
  handle_client_fd-Held ok s reads del_ok h = elim (Option-cases (read_client T T.init reads)) [
    | inl e ↦ rw e tt
    | inr (r, e) ↦ rw e (read-Held ok del_ok s r h)
  ]
