-- ===== src/Http/HdrValue/Length.antt =====
-- `http_hdr_value_parse_content_length` of src/http/http_types.c on a decimal number.
use litehttp_c.Base.{
  ℕ, zero, suc, ◌+◌, ◌-◌, ◌*◌, ◌/◌, ◌%◌, ◌^◌, ◌<◌, ◌≡◌, refl, ap, ◌∙◌, true, false, [], ◌∷◌, ◌++◌,
  some, Bytes, lt→ltb, ◌==◌, ==_iff, length, ◌≤◌, pos, arith, Bool-cases, inl, inr,
}
use litehttp_c.Util.ErrorCode.{http_success}
use litehttp_c.Util.StringT.Decimal.{digits_onto}
use litehttp_c.Util.StringView.{view, view_bytes}
use litehttp_c.Http.HdrValue.{HttpHdrValue, http_hdr_value_parse_content_length}
use litehttp_c.Http.HdrValue.Scanning.{
  c_string, is_blank, skip_blank, is_digit, is_space, skip_space, read_digits, starts_with_digit,
  strtoll, clamp_pos,
}

abbrev pub AreDigits : Bytes → Type 0
AreDigits [] = Unit {0}
AreDigits (c ∷ cs) = (is_digit c ≡ true) × AreDigits cs

-- The digits of a number, onto digits.
pub digits_onto-AreDigits :
    (fuel n : ℕ) (acc : Bytes) → AreDigits acc → AreDigits (digits_onto fuel n acc)
unfolding digits_onto
digits_onto-AreDigits zero n acc h = h
digits_onto-AreDigits (suc fuel) n acc h =
    let digit : is_digit (b'0' + n % 10) ≡ true = ground arith in
    let rest = digits_onto-AreDigits fuel (n / 10) ((b'0' + n % 10) ∷ acc) (digit, h) in
    elim (Bool-cases (n / 10 == 0)) [ inl e ↦ rw e (digit, h) | inr e ↦ rw e rest ]

read_digit :
    (m n : ℕ) (rest : Bytes)
    → m * 10 + n % 10 ≡ n
    → read_digits m ((b'0' + n % 10) ∷ rest) ≡ read_digits n rest
unfolding read_digits
read_digit m n rest h =
    let digit : is_digit (b'0' + n % 10) ≡ true = ground arith in
    let value : m * 10 + (b'0' + n % 10 - b'0') ≡ n = omega arith in
    rw digit (ap (λ k. read_digits k rest) value)

-- A number that is written with enough digits is read back, and the reading goes on behind it.
pub read_digits-digits_onto :
    (fuel n : ℕ) (acc rest : Bytes)
    → n < 10 ^ fuel
    → read_digits 0 (digits_onto fuel n acc ++ rest) ≡ read_digits n (acc ++ rest)
unfolding read_digits digits_onto
read_digits-digits_onto zero n acc rest h = let z : n ≡ 0 = omega arith in rw z refl
read_digits-digits_onto (suc fuel) n acc rest h =
    let more =
      read_digits-digits_onto fuel (n / 10) ((b'0' + n % 10) ∷ acc) rest (omega arith)
      ∙ read_digit (n / 10) n (acc ++ rest) (omega arith) in
    elim (Bool-cases (n / 10 == 0)) [
      | inl e ↦
          let small = (==_iff (n / 10) 0).0 e in rw e (read_digit 0 n (acc ++ rest) (omega arith))
      | inr e ↦ rw e more
    ]

c_string-digits : (ds rest : Bytes) → AreDigits ds → c_string (ds ++ rest) ≡ ds ++ c_string rest
c_string-digits [] rest h = refl
c_string-digits (d ∷ ds) rest h =
    let text : (d == 0) ≡ false = ground (arith, h.0) in
    rw text (ap (◌∷◌ d) (c_string-digits ds rest h.1))

read_end : (n : ℕ) (rest : Bytes) → starts_with_digit rest ≡ false → read_digits n rest ≡ n
unfolding read_digits
read_end n [] h = refl
read_end n (c ∷ cs) h = rw h refl

c_string_start :
    (rest : Bytes) → starts_with_digit rest ≡ false → starts_with_digit (c_string rest) ≡ false
c_string_start [] h = refl
c_string_start (c ∷ cs) h = elim (Bool-cases (c == 0)) [ inl e ↦ rw e refl | inr e ↦ rw e h ]

-- What a text starts with, when it starts with a digit.
strtoll_digits :
    (ds : Bytes)
    → starts_with_digit ds ≡ true
    → strtoll (skip_blank ds) ≡ some (clamp_pos (read_digits 0 ds))
unfolding strtoll skip_blank skip_space
strtoll_digits [] h = absurd (ground arith)
strtoll_digits (d ∷ ds) h =
    let text : is_blank d ≡ false = ground (arith, h) in
    let word : is_space d ≡ false = ground (arith, h) in
    let minus : (d == b'-') ≡ false = ground (arith, h) in
    let plus : (d == b'+') ≡ false = ground (arith, h) in rw (text, word, minus, plus, h) refl

starts : (ds rest : Bytes) → AreDigits ds → 0 < length ds → starts_with_digit (ds ++ rest) ≡ true
starts [] rest a h = absurd (omega arith)
starts (d ∷ ds) rest a h = a.0

digits_onto-length : (fuel n : ℕ) (acc : Bytes) → length acc ≤ length (digits_onto fuel n acc)
unfolding digits_onto
digits_onto-length zero n acc = omega arith
digits_onto-length (suc fuel) n acc =
    let rest = digits_onto-length fuel (n / 10) ((b'0' + n % 10) ∷ acc) in
    elim (Bool-cases (n / 10 == 0)) [ inl e ↦ rw e (omega arith) | inr e ↦ rw e (omega arith) ]

abbrev pub AreBlank : Bytes → Type 0
AreBlank [] = Unit {0}
AreBlank (c ∷ cs) = (is_blank c ≡ true) × AreBlank cs

pub c_string-blank : (bs rest : Bytes) → AreBlank bs → c_string (bs ++ rest) ≡ bs ++ c_string rest
c_string-blank [] rest h = refl
c_string-blank (b ∷ bs) rest h =
    let text : (b == 0) ≡ false = ground (arith, h.0) in
    rw text (ap (◌∷◌ b) (c_string-blank bs rest h.1))

pub skip_blank-blank : (bs rest : Bytes) → AreBlank bs → skip_blank (bs ++ rest) ≡ skip_blank rest
unfolding skip_blank
skip_blank-blank [] rest h = refl
skip_blank-blank (b ∷ bs) rest h = rw h.0 (skip_blank-blank bs rest h.1)

digits_onto-some : (n : ℕ) → 0 < length (digits_onto 20 n [])
unfolding digits_onto
digits_onto-some n =
    let rest = digits_onto-length 19 (n / 10) ((b'0' + n % 10) ∷ []) in
    elim (Bool-cases (n / 10 == 0)) [ inl e ↦ rw e (omega arith) | inr e ↦ rw e (omega arith) ]

strtoll_decimal :
    (n : ℕ) (rest : Bytes)
    → n < 2 ^ 63
    → starts_with_digit rest ≡ false
    → strtoll (skip_blank (digits_onto 20 n [] ++ rest)) ≡ some (pos n)
strtoll_decimal n rest h end =
    let ds = digits_onto 20 n [] in
    let a = digits_onto-AreDigits 20 n [] tt in
    strtoll_digits (ds ++ rest) (starts ds rest a (digits_onto-some n))
    ∙ ap (λ k. some (clamp_pos k))
        (read_digits-digits_onto 20 n [] rest (omega arith) ∙ read_end n rest end)
    ∙ rw (lt→ltb n (2 ^ 63) h) refl

-- A content length below 2^63 that is written in decimal is read as that number, whatever blanks
-- stand in front of it and whatever follows that does not start with a digit.
pub http_hdr_value_parse_content_length_lem :
    (value : HttpHdrValue) (blanks : Bytes) (n : ℕ) (rest : Bytes)
    → AreBlank blanks
    → n < 2 ^ 63
    → starts_with_digit rest ≡ false
    → value.value_sv ≡ view (blanks ++ (digits_onto 20 n [] ++ rest))
    → http_hdr_value_parse_content_length value ≡ (record value { word = n }, http_success)
unfolding http_hdr_value_parse_content_length
http_hdr_value_parse_content_length_lem value blanks n rest b h end text =
    let ds = digits_onto 20 n [] in
    let cut =
      c_string-blank blanks (ds ++ rest) b
      ∙ ap (λ t. blanks ++ t) (c_string-digits ds rest (digits_onto-AreDigits 20 n [] tt)) in
    let number =
      ap (λ v. strtoll (skip_blank (c_string (view_bytes v)))) text
      ∙ ap (λ t. strtoll (skip_blank t)) cut
      ∙ ap strtoll (skip_blank-blank blanks (ds ++ c_string rest) b)
      ∙ strtoll_decimal n (c_string rest) h (c_string_start rest end) in
    let word : n % 2 ^ 64 ≡ n = omega arith in
    rw (number, http_hdr_value_parse_content_length, word) refl
