-- ===== src/Http/Feed/Pieces/States.antt =====
-- What stands between two pieces of a request for `http_parse_feed` of src/http/http_parse_dfa.c.
use litehttp_c.Base.{
  ℕ, ◌<◌, ◌≡◌, refl, sym, ◌∙◌, ap, inl, inr, true, List, ◌∷◌, ◌++◌, Option, some, Bytes, length,
  arith, length-append, append_assoc, size_add,
}
use litehttp_c.Util.ErrorCode.{
  HttpErr, http_err_parse_cannot_find_clrf, http_err_request_tcp_segment_in_body,
}
use litehttp_c.Http.ParseCtx.{
  HttpParseCtx, http_parse_wait_hdr, http_parse_wait_fix_body, http_transfer_body_unset, fresh_ctx,
  Build, Mem,
}
use litehttp_c.Http.Feed.{Pass, returned, label_wait_hdr, label_wait_fix_body, start_body}
use litehttp_c.Http.Request.{HttpRequest}
use litehttp_c.Http.ParseCtx.Views.{Like, header_kinds, header_kinds-append}
use litehttp_c.Http.Feed.Append.{Fits}
use litehttp_c.Http.Feed.Fields.{
  AreFields, fields_text, headers_of, framing, with_headers, headers_pass,
}
use litehttp_c.Http.Feed.Message.{Announced, message_text}
use litehttp_c.Http.Feed.Pieces.Split.{fields_split}
use litehttp_c.Http.Feed.Request.{request_of}
use litehttp_c.Http.Feed.Resume.{WaitsForRequest}
use litehttp_c.Http.Feed.Pieces.Waiting.{
  fields_stop, short_body, AsksForMore, framing-append, AreFields-right, AreFields-left,
  add_headers,
}

-- The headers of further fields, behind those that a request has.
pub more_headers :
    (old new request : HttpRequest) (read unread : List (Bytes × Bytes))
    → new ≡ with_headers (headers_of unread) old
    → Like old (with_headers (headers_of read) request)
    → Like new (with_headers (headers_of (read ++ unread)) request)
more_headers old new request read unread e l =
    let added : Like (with_headers (headers_of unread) old)
        (with_headers (headers_of unread) (with_headers (headers_of read) request)) =
      record {
        method_is = l.method_is;
        path_is = l.path_is;
        version_is = l.version_is;
        body_is = l.body_is;
        kinds_are =
            header_kinds-append old.header_list (headers_of unread)
            ∙ ap (λ k. k ++ header_kinds (headers_of unread)) l.kinds_are
            ∙ sym (
                header_kinds-append (with_headers (headers_of read) request).header_list
                  (headers_of unread));
      } in
    rw e (rw (← add_headers request read unread) added)

module _ (method path version : Bytes) (fields : List (Bytes × Bytes)) (body : Bytes) where
  -- A node whose request line has not ended. `awaited` is what is still to come, here and below.
  pub record AtRequest (awaited : Bytes) (c : HttpParseCtx) : Type 0 where
    pub state_is : WaitsForRequest c.wait_state
    pub fresh_is : c ≡ record fresh_ctx { wait_state = c.wait_state; post = c.post }
    pub text_is : c.post ++ awaited ≡ message_text method path version fields body

  -- A node that has read some of the fields, and stands in front of `part`.
  pub record AtHeaders (awaited : Bytes) (c : HttpParseCtx) : Type 0 where
    pub read : List (Bytes × Bytes)
    pub unread : List (Bytes × Bytes)
    pub fields_are : fields ≡ read ++ unread
    pub before : Bytes
    pub part : Bytes
    pub post_is : c.post ≡ before ++ part
    pub next_is : c.next_line ≡ length before
    pub rest_is : part ++ awaited ≡ fields_text unread (b'\r' ∷ b'\n' ∷ body)
    pub text_is : c.post ++ awaited ≡ message_text method path version fields body
    pub request_is :
        Like c.http_request (with_headers (headers_of read) (request_of method path version))
    pub framing_is :
        framing unread (c.body_type, c.body_length) ≡ framing fields (http_transfer_body_unset, 0)

  -- A node that has read all the fields and part of its body.
  pub record AtBody (awaited : Bytes) (c : HttpParseCtx) : Type 0 where
    pub before : Bytes
    pub part : Bytes
    pub post_is : c.post ≡ before ++ part
    pub cur_is : c.cur ≡ length before
    pub rest_is : part ++ awaited ≡ body
    pub length_is : c.body_length ≡ length body
    pub text_is : c.post ++ awaited ≡ message_text method path version fields body
    pub request_is :
        Like c.http_request (with_headers (headers_of fields) (request_of method path version))

  pub data Waits (awaited : Bytes) (c : HttpParseCtx) : Type 0 where
    waits_request : AtRequest awaited c → Waits awaited c
    waits_headers : c.wait_state ≡ http_parse_wait_hdr → AtHeaders awaited c → Waits awaited c
    waits_body : c.wait_state ≡ http_parse_wait_fix_body → AtBody awaited c → Waits awaited c

  -- A pass that asks for more, and leaves a node that waits for it.
  abbrev pub Paused : Bytes → Option Pass → Type 0
  Paused awaited r =
      (d : HttpParseCtx) × (e : HttpErr) × (r ≡ some (returned d e))
      × AsksForMore e
      × Waits awaited d

module _ (method path version : Bytes) (fields : List (Bytes × Bytes)) (body : Bytes)
    (build : Build) (mem : Mem) (post awaited : Bytes) (more : 0 < length awaited)
    (fits : Fits (message_text method path version fields body)) where
  -- A body that has not all arrived.
  pub body_pause :
      (c : HttpParseCtx)
      → AtBody method path version fields body awaited c
      → Paused method path version fields body awaited (label_wait_fix_body build mem post c)
  body_pause c w =
      let short : length c.post < size_add c.cur c.body_length = omega (
        arith,
        ap length w.post_is,
        length-append w.before w.part,
        ap length w.rest_is,
        length-append w.part awaited,
        ap length w.text_is,
        length-append c.post awaited,
      ) in
      (
        record c {
          wait_state = http_parse_wait_fix_body;
          body_cur = 0;
          post_full_length = size_add c.cur c.body_length;
        },
        http_err_request_tcp_segment_in_body,
        short_body build mem post c short,
        inr refl,
        waits_body refl (record {
          before = w.before;
          part = w.part;
          post_is = w.post_is;
          cur_is = w.cur_is;
          rest_is = w.rest_is;
          length_is = w.length_is;
          text_is = w.text_is;
          request_is = w.request_is;
        }),
      )

  start_pause :
      (c : HttpParseCtx) (before part : Bytes)
      → c.post ≡ before ++ part
      → c.cur ≡ length before
      → part ++ awaited ≡ body
      → c.post ++ awaited ≡ message_text method path version fields body
      → Like c.http_request (with_headers (headers_of fields) (request_of method path version))
      → Announced (c.body_type, c.body_length) body
      → Paused method path version fields body awaited (start_body build mem post c.body_type c)
  start_pause c before part p q r t u (inl (e, empty)) =
      absurd (omega (arith, ap length r, ap length empty, length-append part awaited))
  start_pause c before part p q r t u (inr e) =
      let (d, e', f, why, w) = body_pause c (record {
        before = before;
        part = part;
        post_is = p;
        cur_is = q;
        rest_is = r;
        length_is = ap (λ b. b.1) e;
        text_is = t;
        request_is = u;
      }) in
      (d, e', ap (λ b. start_body build mem post b c) (ap (λ b. b.0) e) ∙ f, why, w)

  module _ (lines : (n : ℕ) → mem.line_ok n ≡ true) (headers : (n : ℕ) → mem.header_ok n ≡ true)
      (sound : AreFields fields) (few : length fields < 99)
      (said : Announced (framing fields (http_transfer_body_unset, 0)) body) where
    -- The header lines have not all arrived.
    pub headers_pause :
        (c : HttpParseCtx)
        → AtHeaders method path version fields body awaited c
        → Paused method path version fields body awaited (label_wait_hdr build mem post c)
    headers_pause c w =
        let all : AreFields (w.read ++ w.unread) = rw (← w.fields_are) sound in
        let a = AreFields-right w.read w.unread all in
        let request = request_of method path version in
        let size = length-append c.post awaited in
        let count = length-append w.read w.unread in
        elim (fields_split w.unread w.part awaited body a w.rest_is) [
          | inl s ↦
              let both : AreFields (s.read ++ s.awaited) = rw (← s.fields_are) a in
              let (d, e, l) =
                fields_stop build mem post w.before s.part s.read c lines headers
                  (AreFields-left s.read s.awaited both)
                  (omega (
                    arith,
                    count,
                    ap length w.fields_are,
                    ap length s.fields_are,
                    length-append s.read s.awaited,
                  ))
                  (w.post_is ∙ ap (λ t. w.before ++ t) s.front_is) w.next_is
                  (omega (arith, size, ap length w.text_is)) s.no_line in
              (
                d,
                http_err_parse_cannot_find_clrf,
                e,
                inl refl,
                waits_headers l.state_eq (record {
                  read = w.read ++ s.read;
                  unread = s.awaited;
                  fields_are =
                      w.fields_are
                      ∙ ap (λ u. w.read ++ u) s.fields_are
                      ∙ sym (append_assoc w.read s.read s.awaited);
                  before = l.before;
                  part = s.part;
                  post_is = l.post_is;
                  next_is = l.next_is;
                  rest_is = s.rest_is;
                  text_is = ap (λ t. t ++ awaited) l.post_eq ∙ w.text_is;
                  request_is =
                      more_headers c.http_request d.http_request request w.read s.read l.request_eq
                        w.request_is;
                  framing_is =
                      ap (framing s.awaited) l.body_eq
                      ∙ sym (framing-append s.read s.awaited (c.body_type, c.body_length))
                      ∙ ap (λ f. framing f (c.body_type, c.body_length)) (sym s.fields_are)
                      ∙ w.framing_is;
                }),
              )
          | inr s ↦
              let (d, e, r) =
                headers_pass build mem lines headers post w.before s.part w.unread c a
                  (omega (arith, count, ap length w.fields_are))
                  (w.post_is ∙ ap (λ t. w.before ++ t) s.front_is) w.next_is
                  (omega (arith, size, ap length w.text_is)) in
              let (d', e', f, why, v) =
                start_pause d r.before s.part r.post_is (r.cur_is ∙ r.next_is) s.rest_is
                  (ap (λ t. t ++ awaited) r.post_eq ∙ w.text_is)
                  (rw w.fields_are (
                    more_headers c.http_request d.http_request request w.read w.unread r.request_eq
                      w.request_is))
                  (rw (r.body_eq ∙ w.framing_is) said) in
              (d', e', e ∙ f, why, v)
        ]
