-- ===== src/Tests/Parser.antt =====
-- Runs of the parser in src/http.
use litehttp_c.Base.{
  ℕ, zero, suc, ◌≡◌, refl, inl, inr, true, [], ◌∷◌, ◌++◌, none, some, Bytes, codes, length, get_or,
  replicate, arith, pos, negsuc, size_of_int,
}
use litehttp_c.Util.ErrorCode.{
  http_success, http_err_request_fatal, http_err_parse_cannot_find_clrf,
}
use litehttp_c.Http.Types.{
  http_ver_1_1, http_match_version, http_get_version_sv, http_get_status_sv,
}
use litehttp_c.Http.Types.Table.{http_match_version-http_get_version_sv}
use litehttp_c.Http.Types.Status.{three_digits_value, http_get_status_sv_lem}
use litehttp_c.Http.ParseCtx.{
  HttpParseCtx, find_clrf, update_ctx_to_next_clrf, http_parse_wait_fix_body,
  http_transfer_body_fixed, fresh_ctx, debug, release, Mem,
}
use litehttp_c.Http.Feed.{
  returned, start_body, label_wait_fix_body, label_wait_hdr, http_parse_feed,
}
use litehttp_c.Http.Feed.Bounds.{OneNode, http_parse_feed-OneNode}
use litehttp_c.Http.Feed.Bounds.Placing.{Inv}
use litehttp_c.Http.Feed.Request.{request_text, ended, http_parse_feed_request}
use litehttp_c.Http.Feed.Resume.{waiting_line, http_parse_feed_resume}
use litehttp_c.Http.Feed.Limit.{AreLines, lines_text, limit_refused, limit_open}
use litehttp_c.Http.Feed.Body.{bodied, fixed_body_complete, negative_length}

abbrev pub granted : Mem
granted = record {
  append_ok = true;
  path_ok = true;
  body_ok = true;
  ctx_ok = true;
  reads = λ bs. replicate (length bs) 0;
  line_ok = λ n. true;
  header_ok = λ n. true;
}

version_round_trip : http_match_version (http_get_version_sv http_ver_1_1) ≡ http_ver_1_1
version_round_trip = http_match_version-http_get_version_sv http_ver_1_1

status_404 :
    (b : Bytes) × (http_get_status_sv (pos 404) (replicate 4 0) ≡ (b, true))
    × (length b ≡ 4)
    × (three_digits_value b ≡ 404)
    × (get_or b 3 1 ≡ 0)
status_404 = http_get_status_sv_lem 404 (replicate 4 0) (omega arith) (omega arith) (omega arith)

get_index :
    http_parse_feed debug granted fresh_ctx
      (request_text (codes "GET") (codes "/index.html") (codes "HTTP/1.1"))
    ≡ some (ended (codes "GET") (codes "/index.html") (codes "HTTP/1.1") ∷ [], http_success)
get_index =
    http_parse_feed_request debug granted (codes "GET") (codes "/index.html") (codes "HTTP/1.1")
      (ground arith, ground arith) (ground arith, ground arith) (ground arith) (omega arith)
      (refl, refl)

pub fresh_ctx-Inv : Inv fresh_ctx
fresh_ctx-Inv = record {
  in_post = omega arith;
  cur_in_post = omega arith;
  full = inr (omega arith);
}

http_parse_feed-OneNode_example :
    OneNode release
      (codes "GET / HTTP/1.1\r\nA: 1\r\n\r\nGET")
      (http_parse_feed release granted fresh_ctx (codes "GET / HTTP/1.1\r\nA: 1\r\n\r\nGET"))
http_parse_feed-OneNode_example =
    http_parse_feed-OneNode release granted fresh_ctx (codes "GET / HTTP/1.1\r\nA: 1\r\n\r\nGET")
      fresh_ctx-Inv refl

no_line : update_ctx_to_next_clrf (waiting_line fresh_ctx (codes "GET / HT")) ≡ none
unfolding update_ctx_to_next_clrf find_clrf
no_line = refl

http_parse_feed_resume_example :
    (http_parse_feed debug granted fresh_ctx (codes "GET / HT")
      ≡ some (waiting_line fresh_ctx (codes "GET / HT") ∷ [], http_err_parse_cannot_find_clrf))
    × (http_parse_feed debug granted
          (waiting_line fresh_ctx (codes "GET / HT"))
          (codes "TP/1.1\r\n\r\n")
        ≡ http_parse_feed debug granted fresh_ctx (codes "GET / HTTP/1.1\r\n\r\n"))
http_parse_feed_resume_example =
    http_parse_feed_resume debug granted fresh_ctx (codes "GET / HT") (codes "TP/1.1\r\n\r\n")
      (omega arith) fresh_ctx-Inv (λ reads. refl) (inl refl) refl no_line

-- A node that waits for a body of four bytes.
abbrev body_node : HttpParseCtx
body_node = record fresh_ctx {
  wait_state = http_parse_wait_fix_body;
  body_type = http_transfer_body_fixed;
  body_length = 4;
}

replicate-AreLines : (n : ℕ) → AreLines (replicate n (codes "a"))
replicate-AreLines zero = tt
replicate-AreLines (suc n) = (omega arith, ground arith, replicate-AreLines n)

abbrev headers : ℕ → Bytes → HttpParseCtx
headers n rest = record fresh_ctx { post = lines_text (replicate n (codes "a")) rest }

limit_refused_example :
    (d : HttpParseCtx) × (label_wait_hdr debug granted [] (headers 99 (codes "\r\n"))
      ≡ some (returned d http_err_request_fatal))
limit_refused_example =
    limit_refused debug granted [] [] (λ n. refl) (replicate 99 (codes "a"))
      (headers 99 (codes "\r\n")) [] (replicate-AreLines 99) refl refl refl

limit_open_example :
    (d : HttpParseCtx) × (before : Bytes) × (label_wait_hdr debug granted []
        (headers 100 (codes "body"))
      ≡ start_body debug granted [] d.body_type d)
    × (d.post ≡ before ++ codes "body")
    × (d.next_line ≡ length before)
    × (start : Bytes) × (d.post ≡ start ++ codes "a\r\nbody")
    × (d.cur ≡ length start)
limit_open_example =
    limit_open debug granted [] (codes "body") (λ n. refl) (replicate 100 (codes "a"))
      (headers 100 (codes "body")) [] (replicate-AreLines 100) refl (replicate 99 (codes "a"))
      (codes "a") refl refl refl

abbrev whole_body : HttpParseCtx
whole_body = record body_node { post = codes "xxbody"; cur = 2 }

whole_body_test :
    label_wait_fix_body debug granted [] whole_body
    ≡ some (returned (bodied whole_body 6 (codes "body")) http_success)
whole_body_test = fixed_body_complete debug granted [] whole_body refl (omega arith) refl

abbrev negative : HttpParseCtx
negative = record body_node { post = codes "xxbody"; cur = 2; body_length = size_of_int (negsuc 0) }

negative_length_example :
    (label_wait_fix_body debug granted [] negative ≡ none)
    × (label_wait_fix_body release granted [] negative
        ≡ some (returned (bodied negative 1 (codes "body")) http_success))
negative_length_example =
    negative_length granted [] negative 0 refl (omega arith) (omega arith) (omega arith) refl
