-- ===== src/Util/StringT/Capacity.antt =====
-- `next_capacity` of src/util/string_t.c: how much room an allocation asks for.
use native.Mathlib.Nat.{pow-suc, pow-le-pow_right}
use native.Mathlib.Decide.{dec_lt}
use Prim.Native.Nat.{bit_and}
use litehttp_c.Base.{
  ℕ, zero, suc, ◌-◌, ◌*◌, ◌/◌, ◌^◌, ◌≤◌, ◌<◌, ◌≡◌, refl, false, none, some, arith, Bool-cases, inl,
  inr, lt→ltb, ge→ltb, ◌≢◌, ◌⊎◌, ◌==◌, ==_iff,
}
use litehttp_c.Util.StringT.{bit_length, next_capacity}

bit_length-le : (bits k n : ℕ) → n < 2 ^ k → bit_length bits n ≤ k
unfolding bit_length
bit_length-le zero k n h = omega arith
bit_length-le (suc bits) zero n h = ground arith
bit_length-le (suc bits) (suc k) n h = ground (arith, pow-suc 2 k, bit_length-le bits k (n / 2))

-- Exponents are ordered as their powers are.
pow_large : (k b : ℕ) → 2 ^ k < 2 ^ b → suc k ≤ b
pow_large k b h = elim (dec_lt k b) [
  | yes p ↦ p
  | no q ↦
      absurd (omega (arith, pow-le-pow_right {n = 2} (omega arith) {i = b} {j = k} (omega arith)))
]

-- The bits are enough for the number, and no more than it needs.
abbrev Spans : ℕ → ℕ → Type 0
Spans n b = (n < 2 ^ b) × ((2 ^ b ≤ 2 * n) ⊎ ((n ≡ 0) × (2 ^ b ≡ 1)))

Spans-double : (n b : ℕ) → Spans (n / 2) b → 2 ^ suc b ≡ 2 ^ b * 2 → 0 < n → Spans n (suc b)
Spans-double n b (h, inl k) e p = (omega arith, inl (omega arith))
Spans-double n b (h, inr k) e p = (omega arith, inl (omega arith))

bit_length-Spans : (bits n : ℕ) → n < 2 ^ bits → Spans n (bit_length bits n)
unfolding bit_length
bit_length-Spans zero n h = (h, inr (omega arith, refl))
bit_length-Spans (suc bits) n h =
    let half = bit_length-Spans bits (n / 2) (omega (arith, pow-suc 2 bits)) in
    let e = pow-suc 2 (bit_length bits (n / 2)) in
    elim (Bool-cases (n == 0)) [
      | inl z ↦ rw z (ground arith, inr (ground arith, refl))
      | inr p ↦ rw p (Spans-double n _ half e (ground arith))
    ]

-- A size below 2^30 that is not 0 gets a capacity that holds it and is at most twice as large.
pub next_capacity_bounds :
    (n : ℕ) → 0 < n → n < 2 ^ 30 → (c : ℕ) × (next_capacity n ≡ some c) × (n ≤ c) × (c ≤ 2 * n)
unfolding next_capacity
next_capacity_bounds n p h =
    let bits = bit_length 64 n in
    let spans = bit_length-Spans 64 n (omega arith) in
    let small = bit_length-le 64 30 n h in
    let nonzero : (n == 0) ≡ false = ground arith in
    elim (Bool-cases (bit_and n (n - 1) == 0)) [
      | inl power ↦ (n, rw (nonzero, power), omega arith, omega arith)
      | inr other ↦
          (2 ^ bits, rw (nonzero, other, lt→ltb bits 31 (omega arith)), omega arith, omega arith)
    ]

-- For a 64-bit size beyond 2^30 that is not a power of two, the shift of an `int` is undefined.
pub next_capacity_undefined :
    (n : ℕ) → 2 ^ 30 < n → n < 2 ^ 64 → bit_and n (n - 1) ≢ 0 → next_capacity n ≡ none
unfolding next_capacity
next_capacity_undefined n p h odd =
    let bits = bit_length 64 n in
    let spans = bit_length-Spans 64 n (omega arith) in
    let nonzero : (n == 0) ≡ false = ground arith in
    elim (Bool-cases (bit_and n (n - 1) == 0)) [
      | inl power ↦ absurd (odd ((==_iff _ 0).0 power))
      | inr other ↦ rw (nonzero, other, ge→ltb bits 31 (pow_large 30 bits (omega arith)))
    ]
