-- ===== src/Util/StringT/Resize.antt =====
-- `string_resize` of src/util/string_t.c.
use litehttp_c.Base.{
  ℕ, ◌+◌, ◌-◌, ◌^◌, ◌≤◌, ◌<◌, ◌≡◌, ◌≢◌, refl, sym, ◌∙◌, ap, true, false, [], ◌∷◌, ◌++◌, append-nil,
  Alloc, some, Bytes, length, take, drop, get_or, replicate, arith, ◌==◌, ltb, lt→ltb, ge→ltb,
  memcpy, memcpy_lem, length-take, take-append_self, get_or-append_self, take-take, get_or-take,
  Bool-cases, inl, inr, ltb→lt, ltb→ge, size_add, realloc, realloc_lem,
}
use mathlib.Core.Path.{subst}
use litehttp_c.Util.StringT.{Storage, null_pointer, small_buf, heap, StringT, buffer, next_capacity}
use litehttp_c.Util.StringT.Change.{string_resize}
use litehttp_c.Util.StringT.Capacity.{next_capacity_bounds}
use litehttp_c.Util.StringT.Valid.{IsValid, contents, Gives}
use litehttp_c.Util.StringT.Write.{
  mk, string_len_suc, heap_IsValid, small_IsValid, cpy_smbuf2data_lem,
}
use litehttp_c.Util.StringT.Padding.{resized, pad_lem, padded, pad_to_lem}

small_at :
    (junk : ℕ → ℕ) (small : Bytes) (k n old : ℕ)
    → IsValid (mk small small_buf (k + 1) old)
    → k < n
    → n + 1 < 2 ^ 30
    → Gives
        (string_resize (some junk) (mk small small_buf (k + 1) old) n)
        (resized (take k small) n)
unfolding string_resize
small_at junk small k n old v h bound =
    let last : k + 1 - 1 ≡ k = omega arith in
    let ended : get_or small k 1 ≡ 0 =
      ap (λ i. get_or small i 1) (sym last) ∙ v.terminated (λ z. absurd (omega (arith, z))) in
    let no_capacity : old ≡ 0 = v.has_capacity in
    let nonzero : (n == 0) ≡ false = ground arith in
    let beyond = ge→ltb n (k + 1) (omega arith) in
    let full = ge→ltb n old (omega (arith, no_capacity)) in
    let no_capacity' : (old == 0) ≡ true = ground (arith, no_capacity) in
    elim (Bool-cases (ltb n 16)) [
      | inl fits ↦
          let (b, e, l, t, z) =
            pad_to_lem small small_buf k n old h (omega (arith, ltb→lt n 16 fits, v.small_length))
              ended in
          (
            mk b small_buf (n + 1) old,
            rw (nonzero, beyond, full, no_capacity', fits, e) refl,
            small_IsValid b n old (l ∙ v.small_length) (ltb→lt n 16 fits) z no_capacity,
            rw (string_len_suc n) t,
          )
      | inr large ↦
          let (c, ec, lo, hi) = next_capacity_bounds (size_add n 1) (omega arith) (omega arith) in
          let (b1, e1, l1, keep) =
            cpy_smbuf2data_lem junk small (k + 1) old c v.in_bounds (omega arith) in
          let ended1 : get_or b1 k 1 ≡ 0 =
            sym (get_or-take k (k + 1) b1 1 (omega arith))
            ∙ ap (λ t. get_or t k 1) (keep (k + 1) (omega arith))
            ∙ get_or-take k (k + 1) small 1 (omega arith)
            ∙ ended in
          let (b, e, l, t, z) = pad_to_lem small (heap b1) k n c h (omega arith) ended1 in
          (
            mk small (heap b) (n + 1) c,
            rw (nonzero, beyond, full, no_capacity', large, ec, e1, e) refl,
            heap_IsValid small b n c v.small_length (l ∙ l1) (omega arith) z,
            rw (string_len_suc n) (t ∙ ap (λ t0. resized t0 n) (keep k (omega arith))),
          )
    ]

grow_eq :
    (junk : ℕ → ℕ) (small block : Bytes) (k n old c : ℕ) (b1 b : Bytes)
    → k < n
    → (n == 0) ≡ false
    → ltb n old ≡ false
    → next_capacity (size_add n 1) ≡ some c
    → realloc (some junk) block c ≡ some b1
    → memcpy b1 (k + 1) (replicate (n - k) 0) ≡ some b
    → string_resize (some junk) (mk small (heap block) (k + 1) old) n
      ≡ some (mk small (heap b) (n + 1) c, true)
unfolding string_resize
grow_eq junk small block k n old c b1 b h nonzero large ec e1 e =
    let count : n - (k + 1) + 1 ≡ n - k = omega arith in
    let padding = ap (λ i. memcpy b1 (k + 1) (replicate i 0)) count ∙ e in
    rw (nonzero, ge→ltb n (k + 1) (omega arith), large, ec, e1, padding) refl

heap_at :
    (junk : ℕ → ℕ) (small block : Bytes) (k n old : ℕ)
    → IsValid (mk small (heap block) (k + 1) old)
    → k < n
    → n + 1 < 2 ^ 30
    → Gives
        (string_resize (some junk) (mk small (heap block) (k + 1) old) n)
        (resized (take k block) n)
unfolding string_resize
heap_at junk small block k n old v h bound =
    let last : k + 1 - 1 ≡ k = omega arith in
    let ended : get_or block k 1 ≡ 0 =
      ap (λ i. get_or block i 1) (sym last) ∙ v.terminated (λ z. absurd (omega (arith, z))) in
    let nonzero : (n == 0) ≡ false = ground arith in
    let beyond = ge→ltb n (k + 1) (omega arith) in
    elim (Bool-cases (ltb n old)) [
      | inl fits ↦
          let (b, e, l, t, z) =
            pad_to_lem small (heap block) k n old h
              (omega (arith, ltb→lt n old fits, v.has_capacity)) ended in
          (
            mk small (heap b) (n + 1) old,
            rw (nonzero, beyond, fits, e) refl,
            heap_IsValid small b n old v.small_length (l ∙ v.has_capacity) (ltb→lt n old fits) z,
            rw (string_len_suc n) t,
          )
      | inr large ↦
          let (c, ec, lo, hi) = next_capacity_bounds (size_add n 1) (omega arith) (omega arith) in
          let (b1, e1, l1, keep) = realloc_lem junk block c in
          let room : k + 1 ≤ length block = v.in_bounds in
          let grown : length block ≤ n = omega (arith, ltb→ge n old large, v.has_capacity) in
          let ended1 : get_or b1 k 1 ≡ 0 =
            sym (get_or-take k (k + 1) b1 1 (omega arith))
            ∙ ap (λ t. get_or t k 1) (keep (k + 1) (omega arith) room)
            ∙ get_or-take k (k + 1) block 1 (omega arith)
            ∙ ended in
          let (b, e, l, t, z) = pad_lem b1 k n h (omega arith) ended1 in
          let count : n - (k + 1) + 1 ≡ n - k = omega arith in
          (
            mk small (heap b) (n + 1) c,
            grow_eq junk small block k n old c b1 b h nonzero large ec e1 e,
            heap_IsValid small b n c v.small_length (l ∙ l1) (omega arith) z,
            rw (string_len_suc n) (
                t
                ∙ padded k n b1 (omega arith) h
                ∙ ap (λ t0. resized t0 n) (keep k (omega arith) (omega arith))),
          )
    ]

-- Cutting a text at `n`.
cut_lem :
    (k n : ℕ) (block b : Bytes)
    → n ≤ k
    → k < length block
    → b ≡ take n block ++ (0 ∷ drop (n + 1) block)
    → (take n b ≡ resized (take k block) n) × (get_or b n 1 ≡ 0)
cut_lem k n block b h room q =
    let at_n : n ≡ length (take n block) = omega (arith, length-take n block) in
    let none_left : n - length (take k block) ≡ 0 = omega (arith, length-take k block) in
    (
      rw (q, none_left)
          (take-append_self n (take n block) (0 ∷ drop (n + 1) block) at_n
            ∙ sym (take-take n k block h)
            ∙ sym (append-nil (take n (take k block)))),
      rw q (get_or-append_self n (take n block) 0 (drop (n + 1) block) 1 at_n),
    )

cut_at :
    (m : Alloc) (small : Bytes) (st : Storage) (k n old : ℕ)
    → IsValid (mk small st (k + 1) old)
    → st ≢ null_pointer
    → 0 < n
    → n ≤ k
    → Gives
        (string_resize m (mk small st (k + 1) old) n)
        (resized (take k (buffer (mk small st (k + 1) old))) n)
unfolding string_resize
cut_at m small null_pointer k n old v st p h = absurd (st refl)
cut_at m small small_buf k n old v st p h =
    let nonzero : (n == 0) ≡ false = ground arith in
    let (b, e, l, q) = memcpy_lem small n (0 ∷ []) (omega (arith, v.in_bounds)) in
    let (t, z) = cut_lem k n small b h (omega (arith, v.in_bounds)) q in
    (
      mk b small_buf (n + 1) old,
      rw (nonzero, lt→ltb n (k + 1) (omega arith), e) refl,
      small_IsValid b n old (l ∙ v.small_length) (omega (arith, v.in_bounds, v.small_length)) z
          v.has_capacity,
      rw (string_len_suc n) t,
    )
cut_at m small (heap block) k n old v st p h =
    let nonzero : (n == 0) ≡ false = ground arith in
    let (b, e, l, q) = memcpy_lem block n (0 ∷ []) (omega (arith, v.in_bounds)) in
    let (t, z) = cut_lem k n block b h (omega (arith, v.in_bounds)) q in
    (
      mk small (heap b) (n + 1) old,
      rw (nonzero, lt→ltb n (k + 1) (omega arith), e) refl,
      heap_IsValid small b n old v.small_length (l ∙ v.has_capacity)
          (omega (arith, v.in_bounds, v.has_capacity)) z,
      rw (string_len_suc n) t,
    )

grow_at :
    (junk : ℕ → ℕ) (small : Bytes) (st : Storage) (k n old : ℕ)
    → IsValid (mk small st (k + 1) old)
    → st ≢ null_pointer
    → k < n
    → n + 1 < 2 ^ 30
    → Gives
        (string_resize (some junk) (mk small st (k + 1) old) n)
        (resized (take k (buffer (mk small st (k + 1) old))) n)
grow_at junk small null_pointer k n old v st h bound = absurd (st refl)
grow_at junk small small_buf k n old v st h bound = small_at junk small k n old v h bound
grow_at junk small (heap block) k n old v st h bound = heap_at junk small block k n old v h bound

resize_suc :
    (junk : ℕ → ℕ) (small : Bytes) (st : Storage) (k n old : ℕ)
    → st ≢ null_pointer
    → 0 < n
    → n + 1 < 2 ^ 30
    → IsValid (mk small st (k + 1) old)
    → Gives
        (string_resize (some junk) (mk small st (k + 1) old) n)
        (resized (contents (mk small st (k + 1) old)) n)
resize_suc junk small st k n old s p bound v = rw (string_len_suc k) (elim (Bool-cases (ltb k n)) [
  | inr short ↦ cut_at (some junk) small st k n old v s p (ltb→ge k n short)
  | inl long ↦ grow_at junk small st k n old v s (ltb→lt k n long) bound
])

-- Resizing a valid string that has a terminator, to a length that is not 0 and stays below 2^30 - 1,
-- succeeds when memory is there: the result is valid, and its text is the old one cut at the new
-- length, or padded with zeros up to it.
pub string_resize-Gives :
    (junk : ℕ → ℕ) (s : StringT) (n : ℕ)
    → IsValid s
    → s.size ≢ 0
    → s.storage ≢ null_pointer
    → 0 < n
    → n + 1 < 2 ^ 30
    → Gives (string_resize (some junk) s n) (resized (contents s) n)
string_resize-Gives junk s n v sized stored p bound =
    let last : s.size - 1 + 1 ≡ s.size = ground arith in
    subst
      (λ z.
        IsValid (mk s.small s.storage z s.capacity)
        → Gives (string_resize (some junk) (mk s.small s.storage z s.capacity) n)
            (resized (contents (mk s.small s.storage z s.capacity)) n))
      last (resize_suc junk s.small s.storage (s.size - 1) n s.capacity stored p bound) v
