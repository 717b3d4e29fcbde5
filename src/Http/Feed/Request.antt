-- ===== src/Http/Feed/Request.antt =====
-- What `http_parse_feed` of src/http/http_parse_dfa.c makes of the lines of a request.
use litehttp_c.Base.{
  ◌+◌, ◌^◌, ◌<◌, ◌≡◌, refl, sym, ◌∙◌, ap, true, [], ◌∷◌, ◌++◌, some, Bytes, length, ◌>>=◌, arith,
  length-append, append_assoc,
}
use litehttp_c.Util.ErrorCode.{http_success}
use litehttp_c.Util.StringView.{view}
use litehttp_c.Http.Types.{http_match_method, http_match_version}
use litehttp_c.Http.Request.{HttpRequest, fresh_request}
use litehttp_c.Http.ParseCtx.{
  HttpParseCtx, http_parse_wait_req, http_parse_wait_hdr, http_parse_end, fresh_ctx, Build, Mem,
}
use litehttp_c.Http.ParseCtx.Scan.{Lacks, Lacks-append}
use litehttp_c.Http.ParseCtx.Tokens.{line_of, parse_request_line_lem}
use litehttp_c.Http.Feed.{
  returned, header_loop, after_headers, label_wait_hdr, label_wait_req, enter, chain,
  http_parse_feed,
}
use litehttp_c.Http.Feed.Append.{Fits, feed_appended}
use litehttp_c.Http.Feed.Steps.{
  AtLine, moved, update_ctx_line, focus_line, after_blank, header_step_blank, label_end_exact,
  header_loop-suc,
}

pub line_of-Lacks :
    (method path version : Bytes)
    → Lacks b'\r' method
    → Lacks b'\r' path
    → Lacks b'\r' version
    → Lacks b'\r' (line_of method path version)
line_of-Lacks method path version m p v =
    Lacks-append b'\r' method _ m ((λ e. cc), Lacks-append b'\r' path _ p ((λ e. cc), v))

-- The request with these three tokens, no headers and no body.
abbrev pub request_text : Bytes → Bytes → Bytes → Bytes
request_text method path version =
    line_of method path version ++ (b'\r' ∷ b'\n' ∷ b'\r' ∷ b'\n' ∷ [])

abbrev pub request_of : Bytes → Bytes → Bytes → HttpRequest
request_of method path version = record fresh_request {
  method = http_match_method (view method);
  path = path;
  version = http_match_version (view version);
}

module _ (method path version rest : Bytes) where
  abbrev pub fed : HttpParseCtx
  fed = record fresh_ctx {
    wait_state = http_parse_wait_req;
    post = line_of method path version ++ (b'\r' ∷ b'\n' ∷ rest);
  }

  -- The node behind its request line.
  abbrev pub lined : HttpParseCtx
  lined = record (moved fed (line_of method path version)) {
    request_line = line_of method path version;
    http_request = request_of method path version;
  }

-- The node behind the blank line, which ends the request.
abbrev pub ended : Bytes → Bytes → Bytes → HttpParseCtx
ended method path version =
    let node = lined method path version (b'\r' ∷ b'\n' ∷ []) in
    record (after_blank node) {
      wait_state = http_parse_end;
      post_full_length = node.next_line + 0 + 2;
    }

module _ (build : Build) (mem : Mem) (method path version : Bytes)
    (method_token : Lacks b' ' method × Lacks b'\r' method)
    (path_token : Lacks b' ' path × Lacks b'\r' path) (version_token : Lacks b'\r' version)
    (memory : mem.path_ok ≡ true) where
  fed_at :
      (rest : Bytes) → AtLine (fed method path version rest) [] (line_of method path version) rest
  fed_at rest = record {
    post_is = refl;
    next_is = refl;
    one_line = line_of-Lacks method path version method_token.1 path_token.1 version_token;
  }

  -- The request line of a new node, whatever follows it.
  pub request_line_pass :
      (post rest : Bytes)
      → length (line_of method path version) + 2 < 2 ^ 64
      → label_wait_req build mem post
          (record fresh_ctx { post = line_of method path version ++ (b'\r' ∷ b'\n' ∷ rest) })
        ≡ label_wait_hdr build mem post (lined method path version rest)
  unfolding label_wait_req
  request_line_pass post rest fits =
      let line = line_of method path version in
      let node = fed method path version rest in
      let found = update_ctx_line node [] line rest (fed_at rest) in
      let focus = focus_line node [] line rest (fed_at rest) in
      let parsed =
        parse_request_line_lem mem (record (moved node line) { request_line = line }) method path
          version refl refl (omega arith) (omega arith) memory build method_token.0 path_token.0 in
      rw (found, label_wait_req, focus, parsed) refl

module _ (build : Build) (mem : Mem) (method path version : Bytes)
    (method_token : Lacks b' ' method × Lacks b'\r' method)
    (path_token : Lacks b' ' path × Lacks b'\r' path) (version_token : Lacks b'\r' version)
    (fits : length (line_of method path version) + 5 < 2 ^ 30)
    (memory : (mem.append_ok ≡ true) × (mem.path_ok ≡ true)) where
  abbrev node : HttpParseCtx
  node = record (lined method path version (b'\r' ∷ b'\n' ∷ [])) {
    wait_state = http_parse_wait_hdr;
  }

  lined_at : AtLine node (line_of method path version ++ (b'\r' ∷ b'\n' ∷ [])) [] []
  lined_at = record {
    post_is =
        sym (append_assoc (line_of method path version) (b'\r' ∷ b'\n' ∷ []) (b'\r' ∷ b'\n' ∷ []));
    next_is = omega (arith, length-append (line_of method path version) (b'\r' ∷ b'\n' ∷ []));
    one_line = tt;
  }

  hdr_pass :
      (post : Bytes)
      → label_wait_hdr build mem post (lined method path version (b'\r' ∷ b'\n' ∷ []))
        ≡ some (returned (ended method path version) http_success)
  unfolding label_wait_hdr
  hdr_pass post =
      let loop =
        header_loop-suc build mem 99 1 node
        ∙ header_step_blank build mem (header_loop build mem 99 (1 + 1)) 1 node _ [] lined_at in
      ap (λ h. h >>= after_headers build mem post) loop
      ∙ label_end_exact build mem post
          (record (after_blank node) { post_full_length = node.next_line + 0 + 2 }) refl
          (omega (
            arith,
            length-append (line_of method path version) (b'\r' ∷ b'\n' ∷ b'\r' ∷ b'\n' ∷ []),
          ))

  -- A request line of three tokens and a blank line, fed whole to a new node, is one request: the node
  -- ends, and its request has the method and version that the tokens stand for, and the path as it is.
  -- It holds in either build, for every method, path and version whose bytes do not end them early,
  -- when there is memory for the text and the path, and a string can hold the text.
  pub http_parse_feed_request :
      http_parse_feed build mem fresh_ctx (request_text method path version)
      ≡ some ((ended method path version) ∷ [], http_success)
  unfolding enter chain
  http_parse_feed_request =
      let post = request_text method path version in
      let line =
        request_line_pass build mem method path version method_token path_token version_token
          memory.1 post (b'\r' ∷ b'\n' ∷ []) (omega arith) in
      let whole : Fits post =
        omega (
          arith,
          length-append (line_of method path version) (b'\r' ∷ b'\n' ∷ b'\r' ∷ b'\n' ∷ []),
        ) in
      feed_appended build mem fresh_ctx post whole memory.0
      ∙ ap (chain build mem post 1) (line ∙ hdr_pass post)
