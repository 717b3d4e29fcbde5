-- ===== src/Http/Feed/Pieces/Finish.antt =====
-- The piece that finishes a request, fed to `http_parse_feed` of src/http/http_parse_dfa.c.
use litehttp_c.Base.{
  ◌≡◌, refl, sym, ◌∙◌, ap, List, [], ◌∷◌, ◌++◌, Option, some, Bytes, length, arith, length-append,
  append-nil,
}
use litehttp_c.Util.ErrorCode.{http_success}
use litehttp_c.Http.ParseCtx.{HttpParseCtx, http_parse_end, fresh_ctx, Build, Mem}
use litehttp_c.Http.ParseCtx.Tokens.{line_of}
use litehttp_c.Http.Feed.{
  extended, Pass, returned, http_parse_feed, label_wait_req, label_wait_hdr, label_wait_fix_body,
}
use litehttp_c.Http.Request.{HttpRequest}
use litehttp_c.Http.ParseCtx.Views.{Like}
use litehttp_c.Http.Feed.Append.{Fits}
use litehttp_c.Http.Feed.Fields.{AreFields, headers_of, with_headers, fields_text}
use litehttp_c.Http.Feed.Message.{
  with_body, message_text, message_of, fixed_pass, fields_pass, IsMessage, Granted,
}
use litehttp_c.Http.Feed.Pieces.States.{
  more_headers, AtHeaders, AtBody, Waits, waits_request, waits_headers, waits_body,
}
use litehttp_c.Http.Feed.Pieces.Waiting.{AreFields-right}
use litehttp_c.Http.Feed.Request.{request_of, lined, request_line_pass}
use litehttp_c.Http.Feed.Pieces.Enter.{
  feed_returned, enter_request, enter_headers, enter_body, extend_headers, extend_body,
  lined-AtHeaders,
}

-- A request whose parsing is over, at the end of its text, and which is this one but for what the views
-- of its headers read.
pub record Assembled (text : Bytes) (request : HttpRequest) (d : HttpParseCtx) : Type 0 where
  pub ended_is : d.wait_state ≡ http_parse_end
  pub request_is : Like d.http_request request
  pub post_is : d.post ≡ text
  pub full_is : d.post_full_length ≡ length text

with_body-Like :
    (body : Bytes) (r t : HttpRequest) → Like r t → Like (with_body body r) (with_body body t)
with_body-Like body r t l = record {
  method_is = l.method_is;
  path_is = l.path_is;
  version_is = l.version_is;
  body_is = refl;
  kinds_are = l.kinds_are;
}

module _ (method path version : Bytes) (fields : List (Bytes × Bytes)) (body : Bytes)
    (build : Build) (mem : Mem) (good : IsMessage method path version fields body)
    (granted : Granted mem) where
  abbrev text : Bytes
  text = message_text method path version fields body

  abbrev Finished : Option Pass → Type 0
  Finished r =
      (d : HttpParseCtx) × (r ≡ some (returned d http_success))
      × Assembled text (message_of method path version fields body) d

  headers_finish :
      (post : Bytes) (c : HttpParseCtx)
      → AtHeaders method path version fields body [] c
      → Finished (label_wait_hdr build mem post c)
  headers_finish post c w =
      let request = request_of method path version in
      let all : AreFields (w.read ++ w.unread) = rw (← w.fields_are) good.sound in
      let whole = sym (append-nil c.post) ∙ w.text_is in
      let (d, e, done) =
        fields_pass build mem post w.before body w.unread c granted.lines_granted
          granted.headers_granted granted.body_granted (AreFields-right w.read w.unread all)
          (omega (arith, good.few, ap length w.fields_are, length-append w.read w.unread))
          (w.post_is ∙ ap (λ t. w.before ++ t) (sym (append-nil w.part) ∙ w.rest_is)) w.next_is
          (w.request_is.body_is) (omega (arith, good.fits, ap length whole))
          (rw w.framing_is good.announced) in
      (
        d,
        e,
        record {
          ended_is = done.ended_is;
          request_is =
              rw (done.request_is, w.fields_are)
                (with_body-Like body _ _ (
                  more_headers c.http_request (with_headers (headers_of w.unread) c.http_request)
                    request w.read w.unread refl w.request_is));
          post_is = done.post_is ∙ whole;
          full_is = done.full_is ∙ ap length whole;
        },
      )

  request_finish :
      (post : Bytes) → Finished (label_wait_req build mem post (record fresh_ctx { post = text }))
  request_finish post =
      let rest = fields_text fields (b'\r' ∷ b'\n' ∷ body) in
      let pass =
        request_line_pass build mem method path version good.method_token good.path_token
          good.version_token granted.path_granted post rest
          (omega (
            arith,
            good.fits,
            length-append (line_of method path version) (b'\r' ∷ b'\n' ∷ rest),
          )) in
      let (d, e, done) =
        headers_finish post (lined method path version rest)
          (lined-AtHeaders mem method path version fields body post [] rest (append-nil rest)) in
      (d, pass ∙ e, done)

  body_finish :
      (post : Bytes) (c : HttpParseCtx)
      → AtBody method path version fields body [] c
      → Finished (label_wait_fix_body build mem post c)
  body_finish post c w =
      let whole = sym (append-nil c.post) ∙ w.text_is in
      let (d, e, done) =
        fixed_pass build mem post w.before body c
          (w.post_is ∙ ap (λ t. w.before ++ t) (sym (append-nil w.part) ∙ w.rest_is)) w.cur_is
          w.length_is (omega (arith, good.fits, ap length whole)) granted.body_granted in
      (
        d,
        e,
        record {
          ended_is = done.ended_is;
          request_is = rw done.request_is (with_body-Like body _ _ w.request_is);
          post_is = done.post_is ∙ whole;
          full_is = done.full_is ∙ ap length whole;
        },
      )

  whole-Fits : (c : HttpParseCtx) (piece : Bytes) → c.post ++ piece ≡ text → Fits (c.post ++ piece)
  whole-Fits c piece e = omega (arith, good.fits, ap length e)

  -- The last piece completes the request.
  pub piece_finish :
      (c : HttpParseCtx) (piece : Bytes)
      → Waits method path version fields body piece c
      → (d : HttpParseCtx) × (http_parse_feed build mem c piece ≡ some (d ∷ [], http_success))
        × Assembled text (message_of method path version fields body) d
  piece_finish c piece (waits_request w) =
      let (d, e, done) = request_finish piece in
      (
        d,
        feed_returned build mem c d piece http_success (whole-Fits c piece w.text_is)
            granted.append_granted
            (enter_request build mem piece c w.state_is w.fresh_is
              ∙ ap (λ t. label_wait_req build mem piece (record fresh_ctx { post = t })) w.text_is
              ∙ e),
        done,
      )
  piece_finish c piece (waits_headers s w) =
      let w' : AtHeaders method path version fields body (piece ++ []) c =
        rw (append-nil piece) w in
      let (d, e, done) =
        headers_finish piece (extended mem c piece)
          (extend_headers mem method path version fields body piece [] c w') in
      (
        d,
        feed_returned build mem c d piece http_success (whole-Fits c piece w.text_is)
            granted.append_granted
            (enter_headers build mem piece c.wait_state (extended mem c piece) s ∙ e),
        done,
      )
  piece_finish c piece (waits_body s w) =
      let w' : AtBody method path version fields body (piece ++ []) c = rw (append-nil piece) w in
      let (d, e, done) =
        body_finish piece (extended mem c piece)
          (extend_body mem method path version fields body piece [] c w') in
      (
        d,
        feed_returned build mem c d piece http_success (whole-Fits c piece w.text_is)
            granted.append_granted
            (enter_body build mem piece c.wait_state (extended mem c piece) s ∙ e),
        done,
      )
