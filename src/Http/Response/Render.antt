-- ===== src/Http/Response/Render.antt =====
-- The text that `http_response_to_string` of src/http/http_response.c makes, against a description of
-- an HTTP response that knows nothing of the appends.
use litehttp_c.Base.{
  ℕ, ◌+◌, ◌/◌, ◌%◌, ◌^◌, ge→ltb, ◌≤◌, ◌<◌, ◌≡◌, ◌≢◌, refl, ◌∙◌, ap, false, List, [], ◌∷◌, ◌++◌,
  append_assoc, some, Bytes, codes, length, arith, pos, append-nil,
}
use litehttp_c.Util.ErrorCode.{http_success}
use litehttp_c.Util.StringView.{view_bytes, string_view_empty}
use litehttp_c.Util.Text.{Text, concat, append_each_lem}
use litehttp_c.Http.Types.{
  HttpVersion, http_ver_1_0, http_ver_1_1, http_ver_2_0, http_ver_3_0, http_ver_unkown,
  http_get_status_sv, http_get_version_sv, http_get_header_field_sv,
}
use litehttp_c.Http.HdrValue.{HttpHeader}
use litehttp_c.Http.HdrValue.Scanning.{c_string}
use litehttp_c.Http.Response.{
  HttpResponse, http_response_to_string, response_pieces, each_header, status_chars,
}

-- The status code in decimal, for a code of three digits.
abbrev three_digits : ℕ → Bytes
three_digits n = (n / 100 + b'0') ∷ (n / 10 % 10 + b'0') ∷ (n % 10 + b'0') ∷ []

abbrev pub header_text : List HttpHeader → Bytes → Bytes
header_text [] rest = rest
header_text (h ∷ hs) rest =
    (view_bytes (http_get_header_field_sv h.field) ++ codes ": " ++ view_bytes h.value.value_sv)
    ++ (codes "\r\n" ++ header_text hs rest)

abbrev pub status_line : HttpResponse → ℕ → Bytes
status_line rep code =
    view_bytes (http_get_version_sv rep.version)
    ++ codes " "
    ++ three_digits code
    ++ codes " "
    ++ view_bytes rep.status.message

-- The whole response. The last line ending stands behind the body.
abbrev pub response_text : HttpResponse → ℕ → Bytes
response_text rep code =
    status_line rep code
    ++ (codes "\r\n"
        ++ header_text rep.header_list (codes "\r\n" ++ view_bytes rep.body ++ codes "\r\n"))

each_header_text :
    (hs : List HttpHeader) (more : List Bytes)
    → concat (each_header hs ++ more) ≡ header_text hs (concat more)
each_header_text [] more = refl
each_header_text (h ∷ hs) more = let e = each_header_text hs more in simp (append_assoc, e)

digits-c_string :
    (a b c : ℕ)
    → c_string ((a + b'0') ∷ (b + b'0') ∷ (c + b'0') ∷ 0 ∷ [])
      ≡ ((a + b'0') ∷ (b + b'0') ∷ (c + b'0') ∷ [])
digits-c_string a b c = ground arith

status_chars_lem :
    (rep : HttpResponse) (code : ℕ)
    → rep.status.code ≡ pos code
    → 100 ≤ code
    → code ≤ 600
    → status_chars rep ≡ three_digits code
unfolding http_get_status_sv
status_chars_lem rep code e lo hi =
    let f = digits-c_string (code / 100) (code / 10 % 10) (code % 10) in
    simp (e, ge→ltb 600 code hi, ge→ltb code 100 lo, f)

pieces_text :
    (rep : HttpResponse) (code : ℕ)
    → status_chars rep ≡ three_digits code
    → concat (response_pieces rep) ≡ response_text rep code
pieces_text rep code e =
    let h =
      each_header_text rep.header_list (codes "\r\n" ∷ view_bytes rep.body ∷ codes "\r\n" ∷ []) in
    simp (e, h, append_assoc, append-nil)

known_version :
    (v : HttpVersion) → v ≢ http_ver_unkown → string_view_empty (http_get_version_sv v) ≡ false
unfolding http_get_version_sv
known_version http_ver_1_0 n = refl
known_version http_ver_1_1 n = refl
known_version http_ver_2_0 n = refl
known_version http_ver_3_0 n = refl
known_version http_ver_unkown n = absurd (n refl)

module _ (T : Text) (rep : HttpResponse) where
  -- For a response with a known version and a status code from 100 to 600, over any implementation of
  -- strings that keeps the `Text` contract, and a text under the limit of that contract,
  -- `http_response_to_string` succeeds, and the string it makes is valid and reads: the version, the
  -- three digits of the code and the message of the status with a space between each two, a line
  -- ending, one line `name: value` for each header in its order, a blank line, the body, and a line
  -- ending.
  pub http_response_to_string_lem :
      (code : ℕ)
      → rep.version ≢ http_ver_unkown
      → rep.status.code ≡ pos code
      → 100 ≤ code
      → code ≤ 600
      → length (response_text rep code) + 1 < 2 ^ 30
      → (post : T.Str) × (http_response_to_string T rep ≡ some (post, http_success))
        × T.Valid post
        × (T.text post ≡ response_text rep code)
  unfolding http_response_to_string
  http_response_to_string_lem code known is lo hi small =
      let p = pieces_text rep code (status_chars_lem rep code is lo hi) in
      let e0 = known_version rep.version known in
      let len0 = ap (λ (t : Bytes). length t) T.init_text in
      let lenp = ap (λ (t : Bytes). length t) p in
      let (post, e, v, t) =
        append_each_lem T (response_pieces rep) T.init T.init_Valid
          (omega (arith, len0, lenp, small)) in
      (post, simp (e0, e), v, t ∙ ap (λ t0. t0 ++ concat (response_pieces rep)) T.init_text ∙ p)
