-- ===== src/Http/Feed/Surplus.antt =====
-- The bytes of a next request, fed to `http_parse_feed` of src/http/http_parse_dfa.c together with a
-- request that has no body.
use litehttp_c.Base.{
  ◌<◌, ◌≡◌, refl, sym, ◌∙◌, ap, List, ◌∷◌, [], ◌++◌, none, some, Bytes, length, arith, true,
  length-append, append_assoc, ge→ltb,
}
use litehttp_c.Util.ErrorCode.{http_success}
use litehttp_c.Util.Text.{concat}
use litehttp_c.Http.Request.{HttpRequest}
use litehttp_c.Http.ParseCtx.{
  HttpParseCtx, http_parse_end, http_transfer_body_unset, fresh_ctx, Build, debug, release, Mem,
}
use litehttp_c.Http.ParseCtx.Scan.{Lacks}
use litehttp_c.Http.ParseCtx.Tokens.{line_of}
use litehttp_c.Http.ParseCtx.Views.{Like, stale-Like, same-Like}
use litehttp_c.Http.Feed.{label_end, enter, chain, http_parse_feed, start_body, extended}
use litehttp_c.Http.Feed.Append.{Fits, feed_appended}
use litehttp_c.Http.Feed.Body.{start_surplus}
use litehttp_c.Http.Feed.Fields.{AreFields, fields_text, framing, headers_pass}
use litehttp_c.Http.Feed.Message.{message_text, message_of, Granted}
use litehttp_c.Http.Feed.Request.{lined, request_line_pass}

-- A node that has called its request complete in front of bytes that it has not read.
pub record Stopped (request : HttpRequest) (d : HttpParseCtx) : Type 0 where
  pub ended_is : d.wait_state ≡ http_parse_end
  pub full_is : d.post_full_length ≡ d.next_line
  pub request_is : Like d.http_request request
  pub unread : d.next_line < length d.post

-- Calls that come later, each of them a success that leaves one node.
pub data Later (mem : Mem) : HttpParseCtx → List Bytes → HttpParseCtx → Type 0 where
  no_more : {c : HttpParseCtx} → Later mem c [] c
  one_more :
      {c c' d : HttpParseCtx} {piece : Bytes} {pieces : List Bytes}
      → http_parse_feed release mem c piece ≡ some (c' ∷ [], http_success)
      → Later mem c' pieces d
      → Later mem c (piece ∷ pieces) d

-- In a build without assertions, whatever is fed to such a node is put behind its text, and not read.
piece_unread :
    (mem : Mem) (d : HttpParseCtx) (piece : Bytes)
    → d.wait_state ≡ http_parse_end
    → d.post_full_length ≡ d.next_line
    → Fits (d.post ++ piece)
    → mem.append_ok ≡ true
    → http_parse_feed release mem d piece
      ≡ some (record (extended mem d piece) { wait_state = http_parse_end } ∷ [], http_success)
unfolding chain enter label_end
piece_unread mem d piece ended full fits ok =
    feed_appended release mem d piece fits ok
    ∙ ap (λ w. chain release mem piece 1 (enter release mem piece w (extended mem d piece))) ended
    ∙ rw (ge→ltb d.next_line d.post_full_length (omega (arith, full))) refl

pieces_unread :
    (mem : Mem) (request : HttpRequest) (d : HttpParseCtx) (pieces : List Bytes)
    → Stopped request d
    → Fits (d.post ++ concat pieces)
    → mem.append_ok ≡ true
    → (d' : HttpParseCtx) × Later mem d pieces d' × Stopped request d'
pieces_unread mem request d [] s fits ok = (d, no_more, s)
pieces_unread mem request d (piece ∷ pieces) s fits ok =
    let c = record (extended mem d piece) { wait_state = http_parse_end } in
    let together = append_assoc d.post piece (concat pieces) in
    let (d', more, stopped) =
      pieces_unread mem request c pieces
        (record {
          ended_is = refl;
          full_is = s.full_is;
          request_is = stale-Like mem.reads d.http_request request s.request_is;
          unread = omega (arith, s.unread, length-append d.post piece);
        })
        (rw together fits) ok in
    let front : Fits (d.post ++ piece) = omega (
      arith,
      length-append d.post (piece ++ concat pieces),
      length-append piece (concat pieces),
      length-append d.post piece,
    ) in
    (d', one_more (piece_unread mem d piece s.ended_is s.full_is front ok) more, stopped)

module _ (method path version : Bytes) (fields : List (Bytes × Bytes)) (more : Bytes) (mem : Mem)
    (method_token : Lacks b' ' method × Lacks b'\r' method)
    (path_token : Lacks b' ' path × Lacks b'\r' path) (version_token : Lacks b'\r' version)
    (sound : AreFields fields) (few : length fields < 99)
    (no_body : framing fields (http_transfer_body_unset, 0) ≡ (http_transfer_body_unset, 0))
    (g : Granted mem) (fits : Fits (message_text method path version fields more))
    (some_more : 0 < length more) where
  abbrev text : Bytes
  text = message_text method path version fields more

  -- Up to the switch for the body.
  to_switch :
      (build : Build)
      → (c : HttpParseCtx) × (http_parse_feed build mem fresh_ctx text
          ≡ chain build mem text 1 (start_body build mem text http_transfer_body_unset c))
        × (c.next_line < length c.post)
        × (c.post ≡ text)
        × (c.http_request ≡ message_of method path version fields [])
  unfolding enter
  to_switch build =
      let rest = fields_text fields (b'\r' ∷ b'\n' ∷ more) in
      let line = line_of method path version in
      let before = line ++ (b'\r' ∷ b'\n' ∷ []) in
      let node = lined method path version rest in
      let at = sym (append_assoc line (b'\r' ∷ b'\n' ∷ []) rest) in
      let size = length-append line (b'\r' ∷ b'\n' ∷ rest) in
      let pass =
        request_line_pass build mem method path version method_token path_token version_token
          g.path_granted text rest (omega (arith, size)) in
      let (c, e, r) =
        headers_pass build mem g.lines_granted g.headers_granted text before more fields node sound
          few at (omega (arith, length-append line (b'\r' ∷ b'\n' ∷ []))) (omega arith) in
      (
        c,
        feed_appended build mem fresh_ctx text fits g.append_granted
            ∙ ap (chain build mem text 1) (
                pass
                ∙ e
                ∙ ap (λ b. start_body build mem text b c) (ap (λ b. b.0) (r.body_eq ∙ no_body))),
        omega (arith, some_more, ap length r.post_is, length-append r.before more, r.next_is),
        r.post_eq,
        r.request_eq,
      )

  -- A request whose fields announce no body, and further bytes, such as the next request on the same
  -- connection, fed at once to a new node: a build with assertions stops. A build without them makes one
  -- node, whose request is complete, in front of bytes that it has not read; and whatever is fed to
  -- that node later, in any number of calls, they all succeed, and leave one node with the same request,
  -- but for the views of its headers, which has still not read the bytes. The memory is granted and a
  -- string can hold the texts.
  pub surplus_dropped :
      (mem' : Mem) (later : List Bytes)
      → mem'.append_ok ≡ true
      → Fits (text ++ concat later)
      → (http_parse_feed debug mem fresh_ctx text ≡ none)
        × (d : HttpParseCtx) × (http_parse_feed release mem fresh_ctx text
            ≡ some (d ∷ [], http_success))
        × (d.http_request ≡ message_of method path version fields [])
        × Stopped (message_of method path version fields []) d
        × (d' : HttpParseCtx) × Later mem' d later d'
        × Stopped (message_of method path version fields []) d'
  unfolding chain
  surplus_dropped mem' later ok all =
      let (c, e, unread, same, request) = to_switch debug in
      let (c', e', unread', same', request') = to_switch release in
      let d = record c' { post_full_length = c'.next_line; wait_state = http_parse_end } in
      let stopped : Stopped (message_of method path version fields []) d = record {
        ended_is = refl;
        full_is = refl;
        request_is = same-Like _ _ request';
        unread = unread';
      } in
      let (d', calls, after) =
        pieces_unread mem' (message_of method path version fields []) d later stopped (rw same' all)
          ok in
      (
        e ∙ ap (chain debug mem text 1) (start_surplus mem text c unread).0,
        d,
        e' ∙ ap (chain release mem text 1) (start_surplus mem text c' unread').1,
        request',
        stopped,
        d',
        calls,
        after,
      )
