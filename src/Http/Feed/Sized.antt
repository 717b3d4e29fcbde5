-- ===== src/Http/Feed/Sized.antt =====
-- What `http_parse_feed` of src/http/http_parse_dfa.c makes of a request with a Content-Length.
use litehttp_c.Base.{
  ℕ, ◌^◌, ◌<◌, ◌≤◌, append-nil, ◌≡◌, refl, sym, ◌∙◌, ap, inr, List, [], ◌∷◌, ◌++◌, some, Bytes,
  codes, length, arith, length-append, true,
}
use litehttp_c.Util.ErrorCode.{http_success}
use litehttp_c.Util.StringT.Decimal.{digits_onto}
use litehttp_c.Util.StringView.{view, null, string_view_compare_cstr, strncmp}
use litehttp_c.Http.Types.{http_hdr_content_length, http_match_header_field, match_from}
use litehttp_c.Http.HdrValue.{
  HttpHeader, HttpHdrValue, http_hdr_parse_value, parse_field_value, conclude_value,
}
use litehttp_c.Http.HdrValue.Length.{
  AreDigits, digits_onto-AreDigits, http_hdr_value_parse_content_length_lem,
}
use litehttp_c.Http.ParseCtx.{
  HttpParseCtx, BodyType, http_transfer_body_unset, http_transfer_body_fixed, fresh_ctx, Build, Mem,
}
use litehttp_c.Http.ParseCtx.Header.{named_header, degraded, empty_header}
use litehttp_c.Http.ParseCtx.HeaderLine.{header_line, header_from, framed}
use litehttp_c.Http.ParseCtx.Scan.{Lacks}
use litehttp_c.Http.ParseCtx.Tokens.{line_of}
use litehttp_c.Http.Feed.{http_parse_feed}
use litehttp_c.Http.Feed.Append.{Fits}
use litehttp_c.Http.Feed.Fields.{AreFields, fields_text, framing}
use litehttp_c.Http.Feed.Message.{
  message_text, message_of, Granted, Complete, http_parse_feed_message,
}

abbrev pub content_length_field : ℕ → Bytes × Bytes
content_length_field n = (codes "Content-Length", digits_onto 20 n [])

abbrev sized_value : ℕ → HttpHdrValue
sized_value n = record { value_sv = view (digits_onto 20 n []); has_parsed_type = true; word = n }

abbrev sized_header : ℕ → HttpHeader
sized_header n = record { field = http_hdr_content_length; value = sized_value n; name = null }

name_of_length :
    named_header (codes "Content-Length") ≡ record empty_header { field = http_hdr_content_length }
unfolding http_match_header_field match_from string_view_compare_cstr strncmp
name_of_length = refl

parse_sized :
    (n : ℕ)
    → n < 2 ^ 63
    → http_hdr_parse_value
        (some (named_header (codes "Content-Length")))
        (view (digits_onto 20 n []))
      ≡ (some (sized_header n), http_success)
unfolding http_hdr_parse_value parse_field_value
parse_sized n h =
    let zero_value = record (sized_value n) { word = 0 } in
    let read =
      http_hdr_value_parse_content_length_lem zero_value [] n [] tt h refl
        (ap view (sym (append-nil (digits_onto 20 n [])))) in
    let header = record empty_header { field = http_hdr_content_length } in
    ap (λ h. http_hdr_parse_value (some h) (view (digits_onto 20 n []))) name_of_length
    ∙ ap (λ r. (some (conclude_value header r).0, (conclude_value header r).1)) read

pub header_from-sized : (n : ℕ) → n < 2 ^ 63 → header_from (content_length_field n) ≡ sized_header n
header_from-sized n h =
    let name = codes "Content-Length" in
    ap (λ r. (degraded (named_header name) name r).0) (parse_sized n h)

framed-content_length :
    (n : ℕ) (body : BodyType × ℕ)
    → n < 2 ^ 63
    → framed (header_from (content_length_field n)) body ≡ (http_transfer_body_fixed, n)
framed-content_length n body h = ap (λ (h : HttpHeader). framed h body) (header_from-sized n h)

pub framing_last :
    (fields : List (Bytes × Bytes)) (n : ℕ) (body : BodyType × ℕ)
    → n < 2 ^ 63
    → framing (fields ++ (content_length_field n ∷ [])) body ≡ (http_transfer_body_fixed, n)
framing_last [] n body h = framed-content_length n body h
framing_last (field ∷ fields) n body h = framing_last fields n (framed (header_from field) body) h

digits-Lacks : (ds : Bytes) → AreDigits ds → Lacks b'\r' ds
digits-Lacks [] h = tt
digits-Lacks (d ∷ ds) h = (λ e. absurd (ground (arith, h.0)), digits-Lacks ds h.1)

AreFields-append :
    (fields more : List (Bytes × Bytes))
    → AreFields fields
    → AreFields more
    → AreFields (fields ++ more)
AreFields-append [] more a b = b
AreFields-append (field ∷ fields) more a b = (a.0, AreFields-append fields more a.1 b)

fields_text-length :
    (fields : List (Bytes × Bytes)) (rest : Bytes) → length rest ≤ length (fields_text fields rest)
fields_text-length [] rest = omega arith
fields_text-length (field ∷ fields) rest = omega (
  arith,
  fields_text-length fields rest,
  length-append (header_line field) (b'\r' ∷ b'\n' ∷ fields_text fields rest),
)

-- A request line of three tokens, at most 97 fields of any kind, a Content-Length field with the
-- decimal length of the body, a blank line and any body, fed whole to a new node, are one finished
-- request with that body: what stands in the fields in front does not change where the body ends. It
-- holds in either build when no byte ends a token, a name or a line early, the memory is granted, and
-- a string can hold the text: its size stays below 2^30.
pub http_parse_feed_sized :
    (build : Build) (mem : Mem) (method path version : Bytes) (fields : List (Bytes × Bytes))
    (body : Bytes)
    → Lacks b' ' method × Lacks b'\r' method
    → Lacks b' ' path × Lacks b'\r' path
    → Lacks b'\r' version
    → AreFields fields
    → length fields < 98
    → Fits (
        message_text method path version (fields ++ (content_length_field (length body) ∷ [])) body)
    → Granted mem
    → (d : HttpParseCtx) × (http_parse_feed build mem fresh_ctx (
          message_text method path version
            (fields ++ (content_length_field (length body) ∷ []))
            body)
        ≡ some (d ∷ [], http_success))
      × Complete
          (message_text method path version
            (fields ++ (content_length_field (length body) ∷ []))
            body)
          (message_of method path version
            (fields ++ (content_length_field (length body) ∷ []))
            body)
          d
http_parse_feed_sized build mem method path version fields body m t v a few fits g =
    let all = fields ++ (content_length_field (length body) ∷ []) in
    let digits =
      digits-Lacks (digits_onto 20 (length body) [])
        (digits_onto-AreDigits 20 (length body) [] tt) in
    http_parse_feed_message build mem method path version all body m t v
      (AreFields-append fields _ a ((ground arith, ground arith, digits), tt))
      (omega (arith, length-append fields (content_length_field (length body) ∷ [])))
      (inr (
        framing_last fields (length body) (http_transfer_body_unset, 0)
          (omega (
            arith,
            fields_text-length all (b'\r' ∷ b'\n' ∷ body),
            length-append (line_of method path version)
                (b'\r' ∷ b'\n' ∷ fields_text all (b'\r' ∷ b'\n' ∷ body)),
          ))))
      fits g
