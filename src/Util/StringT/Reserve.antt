-- ===== src/Util/StringT/Reserve.antt =====
-- `string_reserve` of src/util/string_t.c.
use litehttp_c.Base.{
  ℕ, ◌-◌, ◌^◌, ◌≤◌, ◌<◌, ◌≡◌, ◌≢◌, refl, sym, ap, ◌∙◌, true, some, Bytes, length, take, get_or,
  arith, leb, leb→le, gt→leb, ◌==◌, Bool-cases, inl, inr, realloc_lem, get_or-take,
}
use litehttp_c.Util.StringT.{Storage, null_pointer, small_buf, heap, StringT, string_len}
use litehttp_c.Util.StringT.Change.{assert_data, string_reserve}
use litehttp_c.Util.StringT.Capacity.{next_capacity_bounds}
use litehttp_c.Util.StringT.Valid.{IsValid, contents}
use litehttp_c.Util.StringT.Write.{mk, cpy_smbuf2data_lem}

-- A string that has room, with the same text.
abbrev pub Reserves : StringT → ℕ → StringT → Type 0
Reserves s capacity s' =
    IsValid s'
    × (contents s' ≡ contents s)
    × (string_len s' ≡ string_len s)
    × (capacity ≤ s'.capacity)

-- The text is kept in a larger block.
larger :
    (small b old : Bytes) (size c : ℕ)
    → length small ≡ 16
    → length b ≡ c
    → size ≤ c
    → take size b ≡ take size old
    → (size ≢ 0 → get_or old (size - 1) 1 ≡ 0)
    → IsValid (mk small (heap b) size c)
larger small b old size c h l k e z = record {
  small_length = h;
  has_capacity = l;
  in_bounds = omega arith;
  terminated = λ n.
      let inside : size - 1 < size = omega (arith, n) in
      sym (get_or-take (size - 1) size b 1 inside)
      ∙ ap (λ t. get_or t (size - 1) 1) e
      ∙ get_or-take (size - 1) size old 1 inside
      ∙ z n;
}

reserve_at :
    (junk : ℕ → ℕ) (small : Bytes) (st : Storage) (size old capacity : ℕ)
    → IsValid (mk small st size old)
    → assert_data (mk small st size old) ≡ some tt
    → size < capacity
    → capacity < 2 ^ 30
    → (s' : StringT) × (string_reserve (some junk) (mk small st size old) capacity
        ≡ some (s', true))
      × Reserves (mk small st size old) capacity s'
unfolding string_reserve
reserve_at junk small null_pointer size old capacity v a h k = absurd (cc)
reserve_at junk small small_buf size old capacity v a h k =
    let s = mk small small_buf size old in
    let (c, e, lo, hi) = next_capacity_bounds capacity (omega arith) k in
    let (b, f, l, keep) = cpy_smbuf2data_lem junk small size old c v.in_bounds (omega arith) in
    let beyond = gt→leb capacity size h in
    let full = gt→leb capacity old (omega (arith, v.has_capacity)) in
    let no_capacity : (old == 0) ≡ true = ground (arith, v.has_capacity) in
    let within : string_len s ≤ size = ground arith in
    (
      mk small (heap b) size c,
      rw (beyond, full, e, no_capacity, f) refl,
      (
        larger small b small size c v.small_length l (omega arith) (keep size (omega arith))
            v.terminated,
        keep (string_len s) within,
        refl,
        lo,
      ),
    )
reserve_at junk small (heap b0) size old capacity v a h k =
    let s = mk small (heap b0) size old in
    let (c, e, lo, hi) = next_capacity_bounds capacity (omega arith) k in
    let (b, f, l, keep) = realloc_lem junk b0 c in
    let beyond = gt→leb capacity size h in
    let within : string_len s ≤ size = ground arith in
    elim (Bool-cases (leb capacity old)) [
      | inl room ↦ (s, rw (beyond, room) refl, (v, refl, refl, leb→le capacity old room))
      | inr full ↦ (
        mk small (heap b) size c,
        rw (beyond, full, e, f) refl,
        (
          larger small b b0 size c v.small_length l (omega arith)
              (keep size (omega arith) (omega (arith, v.in_bounds))) v.terminated,
          keep (string_len s) (omega arith) (omega (arith, v.in_bounds)),
          refl,
          lo,
        ),
      )
    ]

-- Reserving more than the size of a valid string that points to its data, and less than 2^30, succeeds
-- when memory is there: the string is valid, has the capacity, and keeps its text.
pub string_reserve-Reserves :
    (junk : ℕ → ℕ) (s : StringT) (capacity : ℕ)
    → IsValid s
    → assert_data s ≡ some tt
    → s.size < capacity
    → capacity < 2 ^ 30
    → (s' : StringT) × (string_reserve (some junk) s capacity ≡ some (s', true))
      × Reserves s capacity s'
string_reserve-Reserves junk s capacity v a h k =
    reserve_at junk s.small s.storage s.size s.capacity capacity v a h k
