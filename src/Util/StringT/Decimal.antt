-- ===== src/Util/StringT/Decimal.antt =====
-- `int_to_string_t` of src/util/string_t.c, and the decimal digits that `snprintf` of the C library
-- writes.
use litehttp_c.Base.{
  ℕ, zero, suc, ◌+◌, ◌-◌, ◌/◌, ◌%◌, ◌^◌, ◌≤◌, ◌<◌, ◌≡◌, refl, ap, ◌∙◌, Bool, false, [], ◌∷◌, Option,
  none, some, Bytes, length, take, ltb, ltb→lt, ◌==◌, ==_iff, if◌then◌else◌, ℤ, pos, negsuc, is_neg,
  Alloc, ◌>>=◌, arith, inl, inr, Bool-cases, take_all,
}
use litehttp_c.Util.StringView.{view}
use litehttp_c.Util.StringT.{StringT, string_init_from_cstr}
use litehttp_c.Util.StringT.Init.{string_init_from_string_view-Gives}
use litehttp_c.Util.StringT.Valid.{Gives}

-- `snprintf(buf, len, "%d", d)` of the C library: the digits, the most significant first. The fuel
-- is the most digits that an `int` has.
unfoldable pub digits_onto : ℕ → ℕ → Bytes → Bytes
digits_onto zero n acc = acc
digits_onto (suc fuel) n acc =
    let onto = (b'0' + n % 10) ∷ acc in
    let rest = digits_onto fuel (n / 10) onto in if n / 10 == 0 then onto else rest

unfoldable pub decimal : ℤ → Bytes
decimal (pos n) = digits_onto 10 n []
decimal (negsuc n) = b'-' ∷ digits_onto 10 (n + 1) []

-- The loop that counts the digits of `num` onto `buf_len`.
unfoldable pub count_digits : ℕ → ℕ → ℕ → ℕ
count_digits zero num buf_len = buf_len
count_digits (suc fuel) num buf_len =
    let rest = count_digits fuel (num / 10) (buf_len + 1) in if num == 0 then buf_len else rest

-- `-d` of the least `int` overflows, which is a fault.
abbrev pub int_abs : ℤ → Option ℕ
int_abs (pos n) = some n
int_abs (negsuc n) = if ltb (n + 1) (2 ^ 31) then some (n + 1) else none

abbrev pub is_zero_int : ℤ → Bool
is_zero_int (pos n) = n == 0
is_zero_int (negsuc n) = false

unfoldable pub int_to_string_t : Alloc → ℤ → Option (StringT × Bool)
int_to_string_t m d = if is_zero_int d then string_init_from_cstr m (some (b'0' ∷ [])) else do
  num ← int_abs d
  let counted = count_digits 10 num 1
  let buf_len = if is_neg d then counted + 1 else counted
  string_init_from_cstr m (some (take (buf_len - 1) (decimal d)))

count_zero : (fuel k : ℕ) → count_digits fuel 0 k ≡ k
unfolding count_digits
count_zero zero k = refl
count_zero (suc fuel) k = refl

-- The loop counts the digits that are written.
count_digits_lem :
    (fuel n k : ℕ) (acc : Bytes)
    → 0 < n
    → n < 10 ^ fuel
    → count_digits fuel n k + length acc ≡ k + length (digits_onto fuel n acc)
unfolding count_digits digits_onto
count_digits_lem zero n k acc h b = absurd (omega arith)
count_digits_lem (suc fuel) n k acc h b =
    let some_left : (n == 0) ≡ false = ground arith in
    elim (Bool-cases (n / 10 == 0)) [
      | inl e ↦
          let last : n / 10 ≡ 0 = (==_iff (n / 10) 0).0 e in
          rw (some_left, e)
            (ap (λ c. c + length acc)
                (ap (λ m. count_digits fuel m (k + 1)) last ∙ count_zero fuel (k + 1))
              ∙ omega arith)
      | inr e ↦
          let more : 0 < n / 10 = ground (arith, e) in
          rw (some_left, e)
            (omega (
              arith,
              count_digits_lem fuel (n / 10) (k + 1) ((b'0' + n % 10) ∷ acc) more (omega arith),
            ))
    ]

digits_onto-bound : (fuel n : ℕ) (acc : Bytes) → length (digits_onto fuel n acc) ≤ length acc + fuel
unfolding digits_onto
digits_onto-bound zero n acc = omega arith
digits_onto-bound (suc fuel) n acc =
    let rest = digits_onto-bound fuel (n / 10) ((b'0' + n % 10) ∷ acc) in
    elim (Bool-cases (n / 10 == 0)) [ inl e ↦ rw e (omega arith) | inr e ↦ rw e (omega arith) ]

-- `snprintf` into a buffer that has room for the whole text.
printed :
    (junk : ℕ → ℕ) (bs : Bytes) (k : ℕ)
    → k ≡ length bs
    → length bs ≤ 11
    → Gives (string_init_from_cstr (some junk) (some (take k bs))) bs
unfolding string_init_from_cstr
printed junk bs k e h =
    rw (take_all k bs (omega arith))
      (string_init_from_string_view-Gives junk (view bs) (omega arith))

printed_zero :
    (junk : ℕ → ℕ)
    → Gives (string_init_from_cstr (some junk) (some (b'0' ∷ []))) (digits_onto 10 0 [])
unfolding digits_onto
printed_zero junk = printed junk (b'0' ∷ []) 1 refl (omega arith)

-- An `int` other than the least one is put into a string as its decimal text: the buffer that the
-- function counts out for `snprintf` has room for every digit and the sign. Memory is there.
pub int_to_string_t-Gives :
    (junk : ℕ → ℕ) (d : ℤ) (num : ℕ)
    → int_abs d ≡ some num
    → num < 2 ^ 31
    → Gives (int_to_string_t (some junk) d) (decimal d)
unfolding int_to_string_t decimal
int_to_string_t-Gives junk (pos n) num e h =
    let same : n ≡ num = cc in
    elim (Bool-cases (n == 0)) [
      | inl z ↦ let none_left : n ≡ 0 = (==_iff n 0).0 z in rw none_left (printed_zero junk)
      | inr z ↦
          let some_left : 0 < n = ground (arith, z) in
          let count = count_digits_lem 10 n 1 [] some_left (omega arith) in
          let room = digits_onto-bound 10 n [] in
          rw (z, int_to_string_t)
            (printed junk (digits_onto 10 n []) (count_digits 10 n 1 - 1) (omega arith)
              (omega arith))
    ]
int_to_string_t-Gives junk (negsuc n) num e h = elim (Bool-cases (ltb (n + 1) (2 ^ 31))) [
  | inr big ↦ absurd (ground (arith, e, big))
  | inl small ↦
      let count =
        count_digits_lem 10 (n + 1) 1 [] (omega arith)
          (omega (arith, ltb→lt (n + 1) (2 ^ 31) small)) in
      let room = digits_onto-bound 10 (n + 1) [] in
      rw (small, int_to_string_t)
        (printed junk (b'-' ∷ digits_onto 10 (n + 1) []) (count_digits 10 (n + 1) 1 + 1 - 1)
          (omega arith) (omega arith))
]
