-- ===== src/Http/HdrValue/ContentType.antt =====
-- `http_hdr_value_parse_content_type` of src/http/http_types.c on the types of its tables.
use litehttp_c.Base.{
  ℕ, zero, suc, ◌+◌, ◌<◌, ◌≡◌, refl, ap, ◌∙◌, Bool, true, false, not, ◌&&◌, List, [], ◌∷◌, ◌++◌,
  some, Bytes, ◌==◌, length, arith, Option-cases, inl, inr,
}
use litehttp_c.Util.ErrorCode.{http_success}
use litehttp_c.Util.StringView.{view, view_bytes}
use litehttp_c.Http.HdrValue.{
  HttpHdrValue, content_type_majors, content_type_subs, set_content_type,
  http_hdr_value_parse_content_type,
}
use litehttp_c.Http.HdrValue.Scanning.{
  c_string, is_blank, skip_blank, cons_trimmed, trim_end, trim_major, split_at, cut_at, same_text,
  enum_of,
}
use litehttp_c.Http.HdrValue.Length.{AreBlank, c_string-blank, skip_blank-blank}

-- A byte that ends no part of a content type.
abbrev pub is_name : ℕ → Bool
is_name c = not (is_blank c) && not (c == 0) && not (c == b'/') && not (c == b';')

abbrev pub AreNames : Bytes → Type 0
AreNames [] = Unit {0}
AreNames (c ∷ cs) = (is_name c ≡ true) × AreNames cs

abbrev pub nth : ℕ → List Bytes → Bytes
nth i [] = []
nth zero (text ∷ table) = text
nth (suc i) (text ∷ table) = nth i table

-- An entry is a name, and the comparisons with the table, whose places count from 1, find it.
abbrev NamedAt : ℕ → List Bytes → Type 0
NamedAt i table =
    AreNames (nth i table) × (0 < length (nth i table)) × (enum_of 1 table (nth i table) ≡ i + 1)

majors-NamedAt : (i : ℕ) → i < 5 → NamedAt i content_type_majors
unfolding enum_of same_text
majors-NamedAt zero h = (ground arith, omega arith, refl)
majors-NamedAt (suc zero) h = (ground arith, omega arith, refl)
majors-NamedAt (suc (suc zero)) h = (ground arith, omega arith, refl)
majors-NamedAt (suc (suc (suc zero))) h = (ground arith, omega arith, refl)
majors-NamedAt (suc (suc (suc (suc zero)))) h = (ground arith, omega arith, refl)
majors-NamedAt (suc (suc (suc (suc (suc i))))) h = absurd (omega arith)

c_string-names : (ns rest : Bytes) → AreNames ns → c_string (ns ++ rest) ≡ ns ++ c_string rest
c_string-names [] rest h = refl
c_string-names (n ∷ ns) rest h =
    let text : (n == 0) ≡ false = ground (arith, h.0) in
    rw text (ap (◌∷◌ n) (c_string-names ns rest h.1))

skip_blank-names :
    (ns rest : Bytes) → AreNames ns → 0 < length ns → skip_blank (ns ++ rest) ≡ ns ++ rest
unfolding skip_blank
skip_blank-names [] rest h some_name = absurd (omega arith)
skip_blank-names (n ∷ ns) rest h some_name =
    let word : is_blank n ≡ false = ground (arith, h.0) in rw word refl

-- The slash is behind a name and blanks.
split_at-blanks :
    (bs rest : Bytes) → AreBlank bs → split_at b'/' (bs ++ (b'/' ∷ rest)) ≡ some (bs, rest)
unfolding split_at
split_at-blanks [] rest h = refl
split_at-blanks (b ∷ bs) rest h =
    let blank : (b == b'/') ≡ false = ground (arith, h.0) in
    rw (blank, split_at-blanks bs rest h.1) refl

split_at-names :
    (ns bs rest : Bytes)
    → AreNames ns
    → AreBlank bs
    → split_at b'/' (ns ++ (bs ++ (b'/' ∷ rest))) ≡ some (ns ++ bs, rest)
unfolding split_at
split_at-names [] bs rest h blank = split_at-blanks bs rest blank
split_at-names (n ∷ ns) bs rest h blank =
    let word : (n == b'/') ≡ false = ground (arith, h.0) in
    rw (word, split_at-names ns bs rest h.1 blank) refl

trim_end-blanks : (bs : Bytes) → AreBlank bs → trim_end bs ≡ []
unfolding trim_end
trim_end-blanks [] h = refl
trim_end-blanks (b ∷ bs) h = rw (trim_end-blanks bs h.1, h.0) refl

cons_name : (n : ℕ) (ns : Bytes) → is_name n ≡ true → cons_trimmed n ns ≡ n ∷ ns
cons_name n [] h = let word : is_blank n ≡ false = ground (arith, h) in rw word refl
cons_name n (_ ∷ _) h = refl

trim_end-names : (ns bs : Bytes) → AreNames ns → AreBlank bs → trim_end (ns ++ bs) ≡ ns
unfolding trim_end
trim_end-names [] bs h blank = trim_end-blanks bs blank
trim_end-names (n ∷ ns) bs h blank = rw (trim_end-names ns bs h.1 blank) (cons_name n ns h.0)

trim_major-names :
    (ns bs : Bytes) → AreNames ns → 0 < length ns → AreBlank bs → trim_major (ns ++ bs) ≡ ns
trim_major-names [] bs h some_name blank = absurd (omega arith)
trim_major-names (n ∷ ns) bs h some_name blank = ap (◌∷◌ n) (trim_end-names ns bs h.1 blank)

subs-NamedAt : (j : ℕ) → j < 9 → NamedAt j content_type_subs
unfolding enum_of same_text
subs-NamedAt zero h = (ground arith, omega arith, refl)
subs-NamedAt (suc zero) h = (ground arith, omega arith, refl)
subs-NamedAt (suc (suc zero)) h = (ground arith, omega arith, refl)
subs-NamedAt (suc (suc (suc zero))) h = (ground arith, omega arith, refl)
subs-NamedAt (suc (suc (suc (suc zero)))) h = (ground arith, omega arith, refl)
subs-NamedAt (suc (suc (suc (suc (suc zero))))) h = (ground arith, omega arith, refl)
subs-NamedAt (suc (suc (suc (suc (suc (suc zero)))))) h = (ground arith, omega arith, refl)
subs-NamedAt (suc (suc (suc (suc (suc (suc (suc zero))))))) h = (ground arith, omega arith, refl)
subs-NamedAt (suc (suc (suc (suc (suc (suc (suc (suc zero)))))))) h =
    (ground arith, omega arith, refl)
subs-NamedAt (suc (suc (suc (suc (suc (suc (suc (suc (suc j))))))))) h = absurd (omega arith)

-- What may follow a content type: nothing, or parameters behind a semicolon.
abbrev pub Parameters : Bytes → Type 0
Parameters [] = Unit {0}
Parameters (c ∷ cs) = c ≡ b';'

c_string-Parameters : (rest : Bytes) → Parameters rest → Parameters (c_string rest)
c_string-Parameters [] h = tt
c_string-Parameters (c ∷ cs) h = let text : (c == 0) ≡ false = ground arith in rw text h

cut_at_start : (rest : Bytes) → Parameters rest → cut_at b';' rest ≡ []
unfolding split_at
cut_at_start [] h = refl
cut_at_start (c ∷ cs) h = rw h refl

cut_at-cons :
    (n : ℕ) (text : Bytes) → (n == b';') ≡ false → cut_at b';' (n ∷ text) ≡ n ∷ cut_at b';' text
unfolding split_at
cut_at-cons n text h = elim (Option-cases (split_at b';' text)) [
  | inl e ↦ rw (h, e, cut_at) refl
  | inr (parts, e) ↦ rw (h, e, cut_at) refl
]

cut_at-names : (ns rest : Bytes) → AreNames ns → Parameters rest → cut_at b';' (ns ++ rest) ≡ ns
cut_at-names [] rest h end = cut_at_start rest end
cut_at-names (n ∷ ns) rest h end =
    let word : (n == b';') ≡ false = ground (arith, h.0) in
    cut_at-cons n (ns ++ rest) word ∙ ap (◌∷◌ n) (cut_at-names ns rest h.1 end)

-- The C string of such a value.
c_string_type :
    (front major mid after sub rest : Bytes)
    → AreBlank front
    → AreNames major
    → AreBlank mid
    → AreBlank after
    → AreNames sub
    → c_string (front ++ (major ++ (mid ++ (b'/' ∷ (after ++ (sub ++ rest))))))
      ≡ front ++ (major ++ (mid ++ (b'/' ∷ (after ++ (sub ++ c_string rest)))))
c_string_type front major mid after sub rest f m d a s =
    c_string-blank front (major ++ (mid ++ (b'/' ∷ (after ++ (sub ++ rest))))) f
    ∙ ap (◌++◌ front) (
        c_string-names major (mid ++ (b'/' ∷ (after ++ (sub ++ rest)))) m
        ∙ ap (◌++◌ major) (
            c_string-blank mid (b'/' ∷ (after ++ (sub ++ rest))) d
            ∙ ap (λ k. mid ++ (b'/' ∷ k))
                (c_string-blank after (sub ++ rest) a
                  ∙ ap (◌++◌ after) (c_string-names sub rest s))))

-- A content type of the tables is recognised and gets its places there, whatever blanks stand in front of
-- it and around its slash, and whatever parameters follow behind a semicolon.
pub http_hdr_value_parse_content_type_lem :
    (value : HttpHdrValue) (i j : ℕ) (front mid after rest : Bytes)
    → i < 5
    → j < 9
    → AreBlank front
    → AreBlank mid
    → AreBlank after
    → Parameters rest
    → value.value_sv
      ≡ view (
          front
          ++ (nth i content_type_majors
              ++ (mid ++ (b'/' ∷ (after ++ (nth j content_type_subs ++ rest))))))
    → http_hdr_value_parse_content_type value
      ≡ (record (set_content_type value (i + 1) (j + 1)) { has_parsed_type = true }, http_success)
unfolding http_hdr_value_parse_content_type
http_hdr_value_parse_content_type_lem value i j front mid after rest hi hj f d a end text =
    let major = nth i content_type_majors in
    let sub = nth j content_type_subs in
    let known = majors-NamedAt i hi in
    let known_sub = subs-NamedAt j hj in
    let behind = after ++ (sub ++ c_string rest) in
    let parts : split_at b'/' (skip_blank (c_string (view_bytes value.value_sv)))
        ≡ some (major ++ mid, behind) =
      ap (λ sv. split_at b'/' (skip_blank (c_string (view_bytes sv)))) text
      ∙ ap (λ s. split_at b'/' (skip_blank s))
          (c_string_type front major mid after sub rest f known.0 d a known_sub.0)
      ∙ ap (split_at b'/') (
          skip_blank-blank front (major ++ (mid ++ (b'/' ∷ behind))) f
          ∙ skip_blank-names major (mid ++ (b'/' ∷ behind)) known.0 known.1)
      ∙ split_at-names major mid behind known.0 d in
    let trimmed = trim_major-names major mid known.0 known.1 d in
    let cut : cut_at b';' (skip_blank behind) ≡ sub =
      ap (cut_at b';') (
        skip_blank-blank after (sub ++ c_string rest) a
        ∙ skip_blank-names sub (c_string rest) known_sub.0 known_sub.1)
      ∙ cut_at-names sub (c_string rest) known_sub.0 (c_string-Parameters rest end) in
    let found : (i + 1 == 0) ≡ false = ground arith in
    rw (parts, trimmed, cut, known.2, known_sub.2, found, http_hdr_value_parse_content_type) refl
