-- ===== src/Http/Feed/Pieces/Enter.antt =====
-- How `http_parse_feed` of src/http/http_parse_dfa.c goes on with a node that waits, when a piece has
-- been put behind its text.
use litehttp_c.Base.{
  ◌≡◌, refl, sym, ◌∙◌, ap, true, List, [], ◌∷◌, ◌++◌, none, some, Bytes, arith, length-append,
  append_assoc,
}
use litehttp_c.Util.ErrorCode.{HttpErr, http_err_parse_cannot_find_clrf}
use litehttp_c.Http.ParseCtx.{
  HttpParseCtx, WaitState, http_parse_wait_req, http_parse_wait_hdr, http_parse_wait_fix_body,
  fresh_ctx, Build, Mem, find_clrf, update_ctx_to_next_clrf,
}
use litehttp_c.Http.ParseCtx.Tokens.{line_of}
use litehttp_c.Http.Feed.{
  extended, returned, enter, chain, http_parse_feed, label_wait_req, label_wait_hdr,
  label_wait_fix_body,
}
use litehttp_c.Http.ParseCtx.Views.{moved_ctx, stale-Like, same-Like}
use litehttp_c.Http.Feed.Append.{Fits, feed_appended}
use litehttp_c.Http.Feed.Fields.{fields_text}
use litehttp_c.Http.Feed.Pieces.States.{AtHeaders, AtBody}
use litehttp_c.Http.Feed.Request.{lined}
use litehttp_c.Http.Feed.Resume.{WaitsForRequest, enter_req}

-- A pass that returns is the result of the call.
pub feed_returned :
    (build : Build) (mem : Mem) (c d : HttpParseCtx) (piece : Bytes) (e : HttpErr)
    → Fits (c.post ++ piece)
    → mem.append_ok ≡ true
    → enter build mem piece c.wait_state (extended mem c piece) ≡ some (returned d e)
    → http_parse_feed build mem c piece ≡ some (d ∷ [], e)
unfolding chain
feed_returned build mem c d piece e fits ok pass =
    feed_appended build mem c piece fits ok ∙ ap (chain build mem piece 1) pass

-- A node whose request line has not ended is read from the start of its text.
pub enter_request :
    (build : Build) (mem : Mem) (piece : Bytes) (c : HttpParseCtx)
    → WaitsForRequest c.wait_state
    → c ≡ record fresh_ctx { wait_state = c.wait_state; post = c.post }
    → enter build mem piece c.wait_state (extended mem c piece)
      ≡ label_wait_req build mem piece (record fresh_ctx { post = c.post ++ piece })
unfolding label_wait_req
enter_request build mem piece c w fresh =
    enter_req build mem piece c.wait_state (extended mem c piece) w
    ∙ ap
        (λ n.
          label_wait_req build mem piece
            (record (moved_ctx mem.reads n) { post = c.post ++ piece }))
        fresh

pub enter_headers :
    (build : Build) (mem : Mem) (piece : Bytes) (w : WaitState) (c : HttpParseCtx)
    → w ≡ http_parse_wait_hdr
    → enter build mem piece w c ≡ label_wait_hdr build mem piece c
unfolding enter
enter_headers build mem piece w c e = ap (λ s. enter build mem piece s c) e

pub enter_body :
    (build : Build) (mem : Mem) (piece : Bytes) (w : WaitState) (c : HttpParseCtx)
    → w ≡ http_parse_wait_fix_body
    → enter build mem piece w c ≡ label_wait_fix_body build mem piece c
unfolding enter
enter_body build mem piece w c e = ap (λ s. enter build mem piece s c) e

-- A request line that has not ended is waited for.
pub no_request_line :
    (build : Build) (mem : Mem) (piece text : Bytes)
    → find_clrf text ≡ none
    → label_wait_req build mem piece (record fresh_ctx { post = text })
      ≡ some (
          returned
            (record fresh_ctx { wait_state = http_parse_wait_req; post = text })
            http_err_parse_cannot_find_clrf)
unfolding label_wait_req update_ctx_to_next_clrf
no_request_line build mem piece text e = rw (e, update_ctx_to_next_clrf, label_wait_req) refl

module _ (mem : Mem) (method path version : Bytes) (fields : List (Bytes × Bytes))
    (body piece awaited : Bytes) where
  pub extend_headers :
      (c : HttpParseCtx)
      → AtHeaders method path version fields body (piece ++ awaited) c
      → AtHeaders method path version fields body awaited (extended mem c piece)
  extend_headers c w = record {
    read = w.read;
    unread = w.unread;
    fields_are = w.fields_are;
    before = w.before;
    part = w.part ++ piece;
    post_is = ap (λ t. t ++ piece) w.post_is ∙ append_assoc w.before w.part piece;
    next_is = w.next_is;
    rest_is = append_assoc w.part piece awaited ∙ w.rest_is;
    text_is = append_assoc c.post piece awaited ∙ w.text_is;
    request_is = stale-Like mem.reads c.http_request _ w.request_is;
    framing_is = w.framing_is;
  }

  pub extend_body :
      (c : HttpParseCtx)
      → AtBody method path version fields body (piece ++ awaited) c
      → AtBody method path version fields body awaited (extended mem c piece)
  extend_body c w = record {
    before = w.before;
    part = w.part ++ piece;
    post_is = ap (λ t. t ++ piece) w.post_is ∙ append_assoc w.before w.part piece;
    cur_is = w.cur_is;
    rest_is = append_assoc w.part piece awaited ∙ w.rest_is;
    length_is = w.length_is;
    text_is = append_assoc c.post piece awaited ∙ w.text_is;
    request_is = stale-Like mem.reads c.http_request _ w.request_is;
  }

  -- The node behind the request line, in front of the fields.
  pub lined-AtHeaders :
      (behind : Bytes)
      → behind ++ awaited ≡ fields_text fields (b'\r' ∷ b'\n' ∷ body)
      → AtHeaders method path version fields body awaited (lined method path version behind)
  lined-AtHeaders behind e = record {
    read = [];
    unread = fields;
    fields_are = refl;
    before = line_of method path version ++ (b'\r' ∷ b'\n' ∷ []);
    part = behind;
    post_is = sym (append_assoc (line_of method path version) (b'\r' ∷ b'\n' ∷ []) behind);
    next_is = omega (arith, length-append (line_of method path version) (b'\r' ∷ b'\n' ∷ []));
    rest_is = e;
    text_is =
        append_assoc (line_of method path version) (b'\r' ∷ b'\n' ∷ behind) awaited
        ∙ ap (λ t. line_of method path version ++ (b'\r' ∷ b'\n' ∷ t)) e;
    request_is = same-Like _ _ refl;
    framing_is = refl;
  }
