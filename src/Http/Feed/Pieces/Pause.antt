-- ===== src/Http/Feed/Pieces/Pause.antt =====
-- A piece of a request that does not finish it, fed to `http_parse_feed` of
-- src/http/http_parse_dfa.c.
use litehttp_c.Base.{
  ◌<◌, ◌≡◌, refl, ◌∙◌, ap, inl, inr, List, [], ◌∷◌, ◌++◌, some, Bytes, length, arith, length-append,
  append_assoc,
}
use litehttp_c.Util.ErrorCode.{HttpErr, http_err_parse_cannot_find_clrf}
use litehttp_c.Http.ParseCtx.{HttpParseCtx, http_parse_wait_req, fresh_ctx, Build, Mem}
use litehttp_c.Http.ParseCtx.Tokens.{line_of}
use litehttp_c.Http.Feed.{extended, http_parse_feed, label_wait_req}
use litehttp_c.Http.Feed.Append.{Fits}
use litehttp_c.Http.Feed.Fields.{fields_text}
use litehttp_c.Http.Feed.Message.{message_text, IsMessage, Granted}
use litehttp_c.Http.Feed.Pieces.Split.{cut_front}
use litehttp_c.Http.Feed.Pieces.States.{
  Waits, waits_request, waits_headers, waits_body, Paused, headers_pause, body_pause,
}
use litehttp_c.Http.Feed.Pieces.Waiting.{AsksForMore}
use litehttp_c.Http.Feed.Request.{line_of-Lacks, lined, request_line_pass}
use litehttp_c.Http.Feed.Pieces.Enter.{
  feed_returned, enter_request, enter_headers, enter_body, no_request_line, extend_headers,
  extend_body, lined-AtHeaders,
}

module _ (method path version : Bytes) (fields : List (Bytes × Bytes)) (body : Bytes)
    (build : Build) (mem : Mem) (good : IsMessage method path version fields body)
    (granted : Granted mem) where
  abbrev text : Bytes
  text = message_text method path version fields body

  longer-Fits :
      (c : HttpParseCtx) (piece awaited : Bytes)
      → c.post ++ (piece ++ awaited) ≡ text
      → Fits (c.post ++ piece)
  longer-Fits c piece awaited e = omega (
    arith,
    good.fits,
    ap length e,
    length-append c.post (piece ++ awaited),
    length-append piece awaited,
    length-append c.post piece,
  )

  -- The request line, when a part of the text is put into a new node.
  request_pause :
      (post front awaited : Bytes)
      → 0 < length awaited
      → front ++ awaited ≡ text
      → Paused method path version fields body awaited
          (label_wait_req build mem post (record fresh_ctx { post = front }))
  request_pause post front awaited more e =
      let line = line_of method path version in
      let lacks =
        line_of-Lacks method path version good.method_token.1 good.path_token.1
          good.version_token in
      elim (cut_front line front awaited _ lacks e) [
        | inl n ↦ (
          record fresh_ctx { wait_state = http_parse_wait_req; post = front },
          http_err_parse_cannot_find_clrf,
          no_request_line build mem post front n,
          inl refl,
          waits_request (record { state_is = inr refl; fresh_is = refl; text_is = e }),
        )
        | inr w ↦
            let pass =
              ap (λ t. label_wait_req build mem post (record fresh_ctx { post = t })) w.front_is
              ∙ request_line_pass build mem method path version good.method_token good.path_token
                  good.version_token granted.path_granted post w.behind
                  (omega (
                    arith,
                    good.fits,
                    length-append line (b'\r' ∷ b'\n' ∷ fields_text fields (b'\r' ∷ b'\n' ∷ body)),
                    ap length w.rest_is,
                    length-append w.behind awaited,
                  )) in
            let (d, err, f, why, v) =
              headers_pause method path version fields body build mem post awaited more good.fits
                granted.lines_granted granted.headers_granted good.sound good.few good.announced
                (lined method path version w.behind)
                (lined-AtHeaders mem method path version fields body post awaited w.behind
                  w.rest_is) in
            (d, err, pass ∙ f, why, v)
      ]

  -- A waiting node asks for more until the last byte has come.
  pub piece_pause :
      (c : HttpParseCtx) (piece awaited : Bytes)
      → 0 < length awaited
      → Waits method path version fields body (piece ++ awaited) c
      → (d : HttpParseCtx) × (e : HttpErr) × (http_parse_feed build mem c piece ≡ some (d ∷ [], e))
        × AsksForMore e
        × Waits method path version fields body awaited d
  piece_pause c piece awaited more (waits_request w) =
      let (d, e, f, why, v) =
        request_pause piece (c.post ++ piece) awaited more
          (append_assoc c.post piece awaited ∙ w.text_is) in
      (
        d,
        e,
        feed_returned build mem c d piece e (longer-Fits c piece awaited w.text_is)
            granted.append_granted (enter_request build mem piece c w.state_is w.fresh_is ∙ f),
        why,
        v,
      )
  piece_pause c piece awaited more (waits_headers s w) =
      let (d, e, f, why, v) =
        headers_pause method path version fields body build mem piece awaited more good.fits
          granted.lines_granted granted.headers_granted good.sound good.few good.announced
          (extended mem c piece)
          (extend_headers mem method path version fields body piece awaited c w) in
      (
        d,
        e,
        feed_returned build mem c d piece e (longer-Fits c piece awaited w.text_is)
            granted.append_granted
            (enter_headers build mem piece c.wait_state (extended mem c piece) s ∙ f),
        why,
        v,
      )
  piece_pause c piece awaited more (waits_body s w) =
      let (d, e, f, why, v) =
        body_pause method path version fields body build mem piece awaited more good.fits
          (extended mem c piece)
          (extend_body mem method path version fields body piece awaited c w) in
      (
        d,
        e,
        feed_returned build mem c d piece e (longer-Fits c piece awaited w.text_is)
            granted.append_granted
            (enter_body build mem piece c.wait_state (extended mem c piece) s ∙ f),
        why,
        v,
      )
