-- ===== src/Http/Feed/Message.antt =====
-- What `http_parse_feed` of src/http/http_parse_dfa.c makes of a request with headers and a body.
use litehttp_c.Base.{
  ℕ, ◌+◌, ◌<◌, ◌≡◌, refl, sym, ◌∙◌, ap, ◌⊎◌, inl, inr, true, List, [], ◌∷◌, ◌++◌, some, Bytes,
  length, drop, drop-append_self, arith, length-append, append_assoc,
}
use litehttp_c.Util.ErrorCode.{http_success}
use litehttp_c.Util.StringView.{view}
use litehttp_c.Http.Types.{http_match_method, http_match_version}
use litehttp_c.Http.Request.{HttpRequest, fresh_request}
use litehttp_c.Http.ParseCtx.{
  HttpParseCtx, http_parse_end, BodyType, http_transfer_body_unset, http_transfer_body_fixed,
  fresh_ctx, Build, Mem,
}
use litehttp_c.Http.ParseCtx.Scan.{Lacks}
use litehttp_c.Http.ParseCtx.Tokens.{line_of}
use litehttp_c.Http.Feed.{
  returned, label_wait_hdr, label_wait_fix_body, enter, chain, http_parse_feed, start_body,
}
use litehttp_c.Http.Feed.Append.{Fits, feed_appended}
use litehttp_c.Http.Feed.Steps.{label_end_exact}
use litehttp_c.Http.Feed.Request.{lined, request_line_pass}
use litehttp_c.Http.Feed.Body.{bodied, fixed_body_complete}
use litehttp_c.Http.Feed.Fields.{
  AreFields, fields_text, headers_of, framing, with_headers, headers_pass,
}

abbrev pub with_body : Bytes → HttpRequest → HttpRequest
with_body body request = record request { body = body }

-- A body that the headers announce: none, or one of this length.
abbrev pub Announced : BodyType × ℕ → Bytes → Type 0
Announced framing body =
    ((framing ≡ (http_transfer_body_unset, 0)) × (body ≡ []))
    ⊎ (framing ≡ (http_transfer_body_fixed, length body))

-- A request whose parsing is over, at the end of its text.
pub record Complete (text : Bytes) (request : HttpRequest) (d : HttpParseCtx) : Type 0 where
  pub ended_is : d.wait_state ≡ http_parse_end
  pub request_is : d.http_request ≡ request
  pub post_is : d.post ≡ text
  pub full_is : d.post_full_length ≡ length text

pub fixed_pass :
    (build : Build) (mem : Mem) (post before body : Bytes) (c : HttpParseCtx)
    → c.post ≡ before ++ body
    → c.cur ≡ length before
    → c.body_length ≡ length body
    → Fits c.post
    → mem.body_ok ≡ true
    → (d : HttpParseCtx) × (label_wait_fix_body build mem post c ≡ some (returned d http_success))
      × Complete c.post (with_body body c.http_request) d
fixed_pass build mem post before body c p cur size fits ok =
    let count : c.cur + c.body_length ≡ length c.post =
      omega (arith, ap length p, length-append before body) in
    let text : drop c.cur c.post ≡ body =
      ap (drop c.cur) p ∙ drop-append_self c.cur before body cur in
    (
      bodied c (length c.post) (drop c.cur c.post),
      fixed_body_complete build mem post c count fits ok,
      record {
        ended_is = refl;
        request_is = ap (λ b. with_body b c.http_request) text;
        post_is = refl;
        full_is = refl;
      },
    )

pub body_pass :
    (build : Build) (mem : Mem) (post before body : Bytes) (c : HttpParseCtx)
    → c.post ≡ before ++ body
    → c.next_line ≡ length before
    → c.cur ≡ c.next_line
    → c.http_request.body ≡ []
    → Fits c.post
    → mem.body_ok ≡ true
    → Announced (c.body_type, c.body_length) body
    → (d : HttpParseCtx) × (start_body build mem post c.body_type c
        ≡ some (returned d http_success))
      × Complete c.post (with_body body c.http_request) d
body_pass build mem post before body c p q cur none_yet fits ok (inl (e, empty)) =
    let whole : c.next_line ≡ length c.post =
      omega (arith, ap length p, length-append before body, ap length empty) in
    (
      record c { post_full_length = c.next_line; wait_state = http_parse_end },
      ap (λ b. start_body build mem post b c) (ap (λ b. b.0) e)
          ∙ label_end_exact build mem post (record c { post_full_length = c.next_line }) refl whole,
      record {
        ended_is = refl;
        request_is = sym (ap (λ b. record c.http_request { body = b }) (empty ∙ sym none_yet));
        post_is = refl;
        full_is = whole;
      },
    )
body_pass build mem post before body c p q cur none_yet fits ok (inr e) =
    let (d, f, done) =
      fixed_pass build mem post before body c p (omega arith) (ap (λ b. b.1) e) fits ok in
    (d, ap (λ b. start_body build mem post b c) (ap (λ b. b.0) e) ∙ f, done)

-- A node behind its request line, in front of these fields, the blank line, and the body.
pub fields_pass :
    (build : Build) (mem : Mem) (post before body : Bytes) (fields : List (Bytes × Bytes))
    (c : HttpParseCtx)
    → ((n : ℕ) → mem.line_ok n ≡ true)
    → ((n : ℕ) → mem.header_ok n ≡ true)
    → mem.body_ok ≡ true
    → AreFields fields
    → length fields < 99
    → c.post ≡ before ++ fields_text fields (b'\r' ∷ b'\n' ∷ body)
    → c.next_line ≡ length before
    → c.http_request.body ≡ []
    → Fits c.post
    → Announced (framing fields (c.body_type, c.body_length)) body
    → (d : HttpParseCtx) × (label_wait_hdr build mem post c ≡ some (returned d http_success))
      × Complete c.post (with_body body (with_headers (headers_of fields) c.http_request)) d
fields_pass build mem post before body fields c lines headers ok a few p q none_yet fits said =
    let (b, e, w) =
      headers_pass build mem lines headers post before body fields c a few p q (omega arith) in
    let (d, e', done) =
      body_pass build mem post w.before body b w.post_is w.next_is w.cur_is
        (ap (λ r. r.body) w.request_eq ∙ none_yet) (omega (arith, ap length w.post_eq)) ok
        (rw w.body_eq said) in
    (
      d,
      e ∙ e',
      record {
        ended_is = done.ended_is;
        request_is = done.request_is ∙ ap (with_body body) w.request_eq;
        post_is = done.post_is ∙ w.post_eq;
        full_is = done.full_is ∙ ap length w.post_eq;
      },
    )

-- A request as it is sent.
abbrev pub message_text : Bytes → Bytes → Bytes → List (Bytes × Bytes) → Bytes → Bytes
message_text method path version fields body =
    line_of method path version ++ (b'\r' ∷ b'\n' ∷ fields_text fields (b'\r' ∷ b'\n' ∷ body))

-- The request that it stands for.
abbrev pub message_of : Bytes → Bytes → Bytes → List (Bytes × Bytes) → Bytes → HttpRequest
message_of method path version fields body = record fresh_request {
  method = http_match_method (view method);
  path = path;
  version = http_match_version (view version);
  header_list = headers_of fields;
  body = body;
}

-- Every allocation is granted.
pub record Granted (mem : Mem) : Type 0 where
  pub append_granted : mem.append_ok ≡ true
  pub path_granted : mem.path_ok ≡ true
  pub body_granted : mem.body_ok ≡ true
  pub lines_granted : (n : ℕ) → mem.line_ok n ≡ true
  pub headers_granted : (n : ℕ) → mem.header_ok n ≡ true

-- A request line of three tokens, fewer than 99 header fields, a blank line and the body that the
-- fields announce, fed whole to a new node, are one finished request at the end of its text: it has
-- the method and version that the tokens stand for, the path and the body as they are, and the header
-- of each field, in order. It holds in either build, whatever the fields and the body are, when no
-- byte ends a token, a name or a line early, the memory is granted, and a string can hold the text:
-- its size stays below 2^30.
pub http_parse_feed_message :
    (build : Build) (mem : Mem) (method path version : Bytes) (fields : List (Bytes × Bytes))
    (body : Bytes)
    → Lacks b' ' method × Lacks b'\r' method
    → Lacks b' ' path × Lacks b'\r' path
    → Lacks b'\r' version
    → AreFields fields
    → length fields < 99
    → Announced (framing fields (http_transfer_body_unset, 0)) body
    → Fits (message_text method path version fields body)
    → Granted mem
    → (d : HttpParseCtx) × (http_parse_feed build mem fresh_ctx
          (message_text method path version fields body)
        ≡ some (d ∷ [], http_success))
      × Complete
          (message_text method path version fields body)
          (message_of method path version fields body)
          d
unfolding enter chain
http_parse_feed_message build mem method path version fields body m t v a few said fits g =
    let post = message_text method path version fields body in
    let rest = fields_text fields (b'\r' ∷ b'\n' ∷ body) in
    let line = line_of method path version in
    let before = line ++ (b'\r' ∷ b'\n' ∷ []) in
    let pass =
      request_line_pass build mem method path version m t v g.path_granted post rest
        (omega (arith, length-append line (b'\r' ∷ b'\n' ∷ rest))) in
    let (d, e, done) =
      fields_pass build mem post before body fields (lined method path version rest) g.lines_granted
        g.headers_granted g.body_granted a few (sym (append_assoc line (b'\r' ∷ b'\n' ∷ []) rest))
        (omega (arith, length-append line (b'\r' ∷ b'\n' ∷ []))) refl fits said in
    (
      d,
      feed_appended build mem fresh_ctx post fits g.append_granted
          ∙ ap (chain build mem post 1) (pass ∙ e),
      done,
    )

-- What makes a text a message that the parser accepts.
pub record IsMessage (method path version : Bytes) (fields : List (Bytes × Bytes)) (body : Bytes)
    : Type 0 where
  pub method_token : Lacks b' ' method × Lacks b'\r' method
  pub path_token : Lacks b' ' path × Lacks b'\r' path
  pub version_token : Lacks b'\r' version
  pub sound : AreFields fields
  pub few : length fields < 99
  pub announced : Announced (framing fields (http_transfer_body_unset, 0)) body
  pub fits : Fits (message_text method path version fields body)
