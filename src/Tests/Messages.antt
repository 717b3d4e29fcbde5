-- ===== src/Tests/Messages.antt =====
-- Requests with headers and a body, whole and in pieces, for the parser and for a client.
use mathlib.Core.Path.{subst}
use litehttp_c.Base.{
  sym, ◌∙◌, ap, Option, none, ◌+◌, ◌*◌, ◌^◌, ◌≡◌, refl, inr, true, List, [], ◌∷◌, some, Bytes,
  codes, arith,
}
use litehttp_c.Util.ErrorCode.{http_success, http_err_request_unkown_method, HttpErr}
use litehttp_c.Util.StringView.{string_view_compare_cstr, strncmp}
use litehttp_c.Http.Types.{http_match_method, http_match_header_field, match_from}
use litehttp_c.Http.ParseCtx.Views.{stale_request}
use litehttp_c.Http.Resource.{live}
use litehttp_c.Http.Feed.Request.{request_text, ended, http_parse_feed_request}
use litehttp_c.Core.Dispatch.{handle_http_request}
use litehttp_c.Util.StringT.Decimal.{digits_onto}
use litehttp_c.Util.StringView.{view}
use litehttp_c.Http.HdrValue.{
  http_hdr_parse_value, parse_field_value, http_hdr_value_parse_content_length,
  http_hdr_value_parse_content_type, HttpHdrValue,
}
use litehttp_c.Http.HdrValue.ContentType.{http_hdr_value_parse_content_type_lem}
use litehttp_c.Http.HdrValue.Length.{http_hdr_value_parse_content_length_lem}
use litehttp_c.Http.ParseCtx.{
  HttpParseCtx, http_parse_end, fresh_ctx, debug, release, http_transfer_body_unset,
}
use litehttp_c.Http.Feed.{http_parse_feed}
use litehttp_c.Http.Feed.Message.{
  message_text, message_of, Complete, IsMessage, Granted, http_parse_feed_message,
}
use litehttp_c.Http.Feed.Sized.{content_length_field, framing_last, http_parse_feed_sized}
use litehttp_c.Http.Feed.Pieces.{Fed, http_parse_feed_pieces}
use litehttp_c.Http.Feed.Pieces.Finish.{Assembled}
use litehttp_c.Http.Feed.Surplus.{Stopped, Later, surplus_dropped}
use litehttp_c.Core.Server.{ClientData}
use litehttp_c.Core.Client.{read_would_block, handle_client_fd}
use litehttp_c.Core.Client.Delivery.{Events}
use litehttp_c.Core.Client.Events.{HasOne, kept}
use litehttp_c.Core.Client.Invariant.{Held}
use litehttp_c.Core.Client.Life.{start, later, Replies, refuses, Reach-Held, event_returns}
use litehttp_c.Core.Client.Reads.{delivering}
use litehttp_c.Tests.Answers.{strings}
use litehttp_c.Tests.Parser.{granted, fresh_ctx-Inv}
use litehttp_c.Tests.Clients.{server, client}

granted-Granted : Granted granted
granted-Granted = record {
  append_granted = refl;
  path_granted = refl;
  body_granted = refl;
  lines_granted = λ n. refl;
  headers_granted = λ n. refl;
}

abbrev host : Bytes × Bytes
host = (codes "Host", codes "x")

abbrev fields : List (Bytes × Bytes)
fields = host ∷ content_length_field 4 ∷ []

-- The text of a POST of four bytes.
abbrev post : Bytes
post = message_text (codes "POST") (codes "/a") (codes "HTTP/1.1") fields (codes "abcd")

posted : IsMessage (codes "POST") (codes "/a") (codes "HTTP/1.1") fields (codes "abcd")
unfolding digits_onto
posted = record {
  method_token = (ground arith, ground arith);
  path_token = (ground arith, ground arith);
  version_token = ground arith;
  sound = (ground arith, ground arith);
  few = omega arith;
  announced = inr (framing_last (host ∷ []) 4 (http_transfer_body_unset, 0) (omega arith));
  fits = omega arith;
}

http_parse_feed_message_example :
    (d : HttpParseCtx) × (http_parse_feed debug granted fresh_ctx post
      ≡ some (d ∷ [], http_success))
    × Complete post
        (message_of (codes "POST") (codes "/a") (codes "HTTP/1.1") fields (codes "abcd"))
        d
http_parse_feed_message_example =
    http_parse_feed_message debug granted (codes "POST") (codes "/a") (codes "HTTP/1.1") fields
      (codes "abcd") posted.method_token posted.path_token posted.version_token posted.sound
      posted.few posted.announced posted.fits granted-Granted

http_parse_feed_sized_example :
    (d : HttpParseCtx) × (http_parse_feed debug granted fresh_ctx post
      ≡ some (d ∷ [], http_success))
    × Complete post
        (message_of (codes "POST") (codes "/a") (codes "HTTP/1.1") fields (codes "abcd"))
        d
unfolding digits_onto
http_parse_feed_sized_example =
    http_parse_feed_sized debug granted (codes "POST") (codes "/a") (codes "HTTP/1.1") (host ∷ [])
      (codes "abcd") posted.method_token posted.path_token posted.version_token (ground arith)
      (omega arith) (omega arith) granted-Granted

-- Cut in the request line, in a header, and in the body.
http_parse_feed_pieces_example :
    (d : HttpParseCtx) × Fed debug granted fresh_ctx
      (codes "PO"
        ∷ codes "ST /a HTTP/1.1\r\nHost: x\r"
        ∷ codes "\nContent-Length: 4\r\n\r\nab"
        ∷ codes "cd"
        ∷ [])
      d
      http_success
    × Assembled post
        (message_of (codes "POST") (codes "/a") (codes "HTTP/1.1") fields (codes "abcd"))
        d
unfolding digits_onto
http_parse_feed_pieces_example =
    http_parse_feed_pieces debug granted (codes "POST") (codes "/a") (codes "HTTP/1.1") fields
      (codes "abcd") posted granted-Granted (codes "PO")
      (codes "ST /a HTTP/1.1\r\nHost: x\r"
        ∷ codes "\nContent-Length: 4\r\n\r\nab"
        ∷ codes "cd"
        ∷ [])
      (ground arith) refl

http_hdr_value_parse_content_length_lem_example :
    http_hdr_value_parse_content_length
      (record { value_sv = view (codes "\t1024 bytes"); has_parsed_type = true; word = 0 })
    ≡ (
      record { value_sv = view (codes "\t1024 bytes"); has_parsed_type = true; word = 1024 },
      http_success,
    )
unfolding digits_onto
http_hdr_value_parse_content_length_lem_example =
    http_hdr_value_parse_content_length_lem
      (record { value_sv = view (codes "\t1024 bytes"); has_parsed_type = true; word = 0 })
      (codes "\t") 1024 (codes " bytes") (ground arith) (omega arith) refl refl

abbrev html_value : HttpHdrValue
html_value = record {
  value_sv = view (codes " text / html;charset=utf-8");
  has_parsed_type = true;
  word = 0;
}

http_hdr_value_parse_content_type_lem_example :
    http_hdr_value_parse_content_type html_value
    ≡ (record html_value { word = 1 + 2 * 2 ^ 32 }, http_success)
http_hdr_value_parse_content_type_lem_example =
    http_hdr_value_parse_content_type_lem html_value 0 1 (codes " ") (codes " ") (codes " ")
      (codes ";charset=utf-8") (omega arith) (omega arith) (ground arith) (ground arith)
      (ground arith) refl refl

client-HasOne : HasOne client fresh_ctx
client-HasOne = record { beg_is = refl; tail_is = refl }

-- A request that the server refuses.
abbrev head : Bytes
head = request_text (codes "HEAD") (codes "/") (codes "HTTP/1.1")

abbrev head_node : HttpParseCtx
head_node = ended (codes "HEAD") (codes "/") (codes "HTTP/1.1")

head_fed : http_parse_feed release granted fresh_ctx head ≡ some (head_node ∷ [], http_success)
head_fed =
    http_parse_feed_request release granted (codes "HEAD") (codes "/") (codes "HTTP/1.1")
      (ground arith, ground arith) (ground arith, ground arith) (ground arith) (omega arith)
      (refl, refl)

abbrev first_or : HttpParseCtx → Option (List HttpParseCtx × HttpErr) → HttpParseCtx
first_or c none = c
first_or c (some ([], e)) = c
first_or c (some (d ∷ _, e)) = d

head_refused : Replies server (live []) (stale_request server.reads head_node.http_request)
unfolding handle_http_request http_match_method match_from string_view_compare_cstr strncmp
head_refused = refuses http_err_request_unkown_method refl refl

head-Replies :
    (d : HttpParseCtx) (e : HttpErr)
    → http_parse_feed release granted fresh_ctx head ≡ some (d ∷ [], e)
    → d.wait_state ≡ http_parse_end
    → Replies server (live []) (stale_request server.reads d.http_request)
head-Replies d e fed done =
    subst (λ c. Replies server (live []) (stale_request server.reads c.http_request))
      (ap (first_or head_node) (sym head_fed ∙ fed)) head_refused

event_returns_example :
    (s' : server.State) × (client' : ClientData strings.Str) × (sent : List Bytes)
    × (result : HttpErr) × (handle_client_fd strings server release granted
          (live [])
          client
          (delivering (head ∷ []) (read_would_block ∷ []))
          true
        ≡ some (kept server strings s' client' sent result))
    × Held client'
event_returns_example =
    event_returns strings server granted refl (live []) client fresh_ctx (head ∷ []) true
      client-HasOne fresh_ctx-Inv (omega arith) head-Replies

one_event :
    (s' : server.State) × (client' : ClientData strings.Str) × (sent : List Bytes)
    × (result : HttpErr) × (handle_client_fd strings server release granted
          (live [])
          client
          (delivering (head ∷ []) (read_would_block ∷ []))
          true
        ≡ some (kept server strings s' client' sent result))
    × Held client'
one_event =
    event_returns strings server granted refl (live []) client fresh_ctx (head ∷ []) true
      client-HasOne fresh_ctx-Inv (omega arith) head-Replies

Reach-Held_example : Held one_event.1
Reach-Held_example = Reach-Held strings server release granted one_event.1 refl (
    later (live []) (delivering (head ∷ []) (read_would_block ∷ [])) true
      (kept server strings one_event.0 one_event.1 one_event.2 one_event.3) (start client-HasOne)
      one_event.4 refl)

-- Two requests in one text, and a third one later.
abbrev two : Bytes
two = message_text (codes "GET") (codes "/") (codes "HTTP/1.1") (host ∷ []) (codes "GET /b")

surplus_dropped_example :
    (http_parse_feed debug granted fresh_ctx two ≡ none)
    × (d : HttpParseCtx) × (http_parse_feed release granted fresh_ctx two
        ≡ some (d ∷ [], http_success))
    × (d.http_request ≡ message_of (codes "GET") (codes "/") (codes "HTTP/1.1") (host ∷ []) [])
    × Stopped (message_of (codes "GET") (codes "/") (codes "HTTP/1.1") (host ∷ []) []) d
    × (d' : HttpParseCtx) × Later granted d (codes "GET" ∷ codes " /c" ∷ []) d'
    × Stopped (message_of (codes "GET") (codes "/") (codes "HTTP/1.1") (host ∷ []) []) d'
unfolding http_match_header_field match_from string_view_compare_cstr strncmp http_hdr_parse_value
    parse_field_value
surplus_dropped_example =
    surplus_dropped (codes "GET") (codes "/") (codes "HTTP/1.1") (host ∷ []) (codes "GET /b")
      granted (ground arith, ground arith) (ground arith, ground arith) (ground arith)
      (ground arith) (omega arith) refl granted-Granted (omega arith) (omega arith) granted
      (codes "GET" ∷ codes " /c" ∷ []) refl (omega arith)
