-- ===== src/Util/StringT/Assign.antt =====
-- `string_assign_view` of src/util/string_t.c on its branches.
use litehttp_c.Base.{
  ℕ, ◌+◌, ◌-◌, ◌^◌, ◌≤◌, ◌<◌, ◌≡◌, refl, ◌∙◌, ap, true, [], ◌∷◌, some, Bytes, length, take, arith,
  ◌==◌, malloc_lem, size_add, replicate, ltb, lt→ltb, ge→ltb, Bool-cases, ltb→lt, ltb→ge, inl, inr,
  realloc_lem, memcpy_lem, take-take, take-append_self, get_or-append_self, length-take, ◌⊎◌,
}
use litehttp_c.Util.StringView.{view}
use litehttp_c.Util.StringT.{Storage, null_pointer, small_buf, heap, StringT, string_len}
use litehttp_c.Util.StringT.Change.{string_assign_view}
use litehttp_c.Util.StringT.Capacity.{next_capacity_bounds}
use litehttp_c.Util.StringT.Valid.{IsValid, contents, Gives}
use litehttp_c.Util.StringT.Write.{mk, string_len_suc, cpy_sv2str_lem, heap_IsValid, small_IsValid}

module _ (junk : ℕ → ℕ) (small : Bytes) (size old : ℕ) (bs : Bytes)
    (k : length bs + 1 < 2 ^ 30) where
  assign_small :
      IsValid (mk small small_buf size old)
      → length bs < 16
      → Gives (string_assign_view (some junk) (mk small small_buf size old) (view bs)) bs
  unfolding string_assign_view
  assign_small v h =
      let (c, e, lo, hi) =
        next_capacity_bounds (size_add (length bs) 1) (omega arith) (omega arith) in
      let no_capacity : (old == 0) ≡ true = ground arith in
      let (b, e2, l, p, z) =
        cpy_sv2str_lem (mk small small_buf size old) (view bs) 0 (length bs) (omega arith)
          (omega (arith, v.small_length)) (omega arith) in
      (
        mk b small_buf (length bs + 1) old,
        rw (e, no_capacity, lt→ltb (length bs) 16 h, e2) refl,
        small_IsValid b (length bs) old (l ∙ v.small_length) h z v.has_capacity,
        rw (string_len_suc (length bs)) p,
      )

  assign_moved :
      IsValid (mk small small_buf size old)
      → 16 ≤ length bs
      → Gives (string_assign_view (some junk) (mk small small_buf size old) (view bs)) bs
  unfolding string_assign_view
  assign_moved v h =
      let (c, e, lo, hi) =
        next_capacity_bounds (size_add (length bs) 1) (omega arith) (omega arith) in
      let no_capacity : (old == 0) ≡ true = ground arith in
      let (block, em, lm) = malloc_lem junk c in
      let (b, e2, l, p, z) =
        cpy_sv2str_lem (mk small (heap block) size old) (view bs) 0 (length bs) (omega arith)
          (omega arith) (omega arith) in
      (
        mk (replicate 16 0) (heap b) (length bs + 1) c,
        rw (e, no_capacity, ge→ltb (length bs) 16 h, em, e2) refl,
        heap_IsValid (replicate 16 0) b (length bs) c refl (l ∙ lm) (omega arith) z,
        rw (string_len_suc (length bs)) p,
      )

  assign_room :
      (block : Bytes)
      → IsValid (mk small (heap block) size old)
      → length bs < old
      → Gives (string_assign_view (some junk) (mk small (heap block) size old) (view bs)) bs
  unfolding string_assign_view
  assign_room block v h =
      let (c, e, lo, hi) =
        next_capacity_bounds (size_add (length bs) 1) (omega arith) (omega arith) in
      let (b, e2, l, p, z) =
        cpy_sv2str_lem (mk small (heap block) size old) (view bs) 0 (length bs) (omega arith)
          (omega (arith, v.has_capacity)) (omega arith) in
      (
        mk small (heap b) (length bs + 1) old,
        rw (e, lt→ltb (length bs) old h, e2) refl,
        heap_IsValid small b (length bs) old v.small_length (l ∙ v.has_capacity) h z,
        rw (string_len_suc (length bs)) p,
      )

assign_at :
    (junk : ℕ → ℕ) (small : Bytes) (st : Storage) (size old : ℕ) (bs : Bytes)
    → IsValid (mk small st size old)
    → length bs + 1 < 2 ^ 30
    → (st ≡ small_buf) ⊎ (length bs < old)
    → Gives (string_assign_view (some junk) (mk small st size old) (view bs)) bs
assign_at junk small null_pointer size old bs v k (inl e) = absurd (ground arith)
assign_at junk small null_pointer size old bs v k (inr r) = absurd (omega (arith, v.has_capacity))
assign_at junk small (heap b) size old bs v k (inl e) = absurd (ground arith)
assign_at junk small (heap b) size old bs v k (inr r) = assign_room junk small size old bs k b v r
assign_at junk small small_buf size old bs v k _ = elim (Bool-cases (ltb (length bs) 16)) [
  | inl t ↦ assign_small junk small size old bs k v (ltb→lt _ _ t)
  | inr t ↦ assign_moved junk small size old bs k v (ltb→ge _ _ t)
]

-- Assigning a view to a valid string that uses its small buffer, or whose heap block has room for it,
-- gives a valid string that stands for the view's bytes, when memory is there.
pub string_assign_view-Gives :
    (junk : ℕ → ℕ) (s : StringT) (bs : Bytes)
    → IsValid s
    → length bs + 1 < 2 ^ 30
    → (s.storage ≡ small_buf) ⊎ (length bs < s.capacity)
    → Gives (string_assign_view (some junk) s (view bs)) bs
string_assign_view-Gives junk s bs v k r =
    assign_at junk s.small s.storage s.size s.capacity bs v k r

-- Assigning a longer view to a heap string whose block is too small grows the block and does not
-- copy the view: the call reports success, and the new text starts with the old one.
pub string_assign_view_grow :
    (junk : ℕ → ℕ) (small block : Bytes) (size old : ℕ) (bs : Bytes)
    → IsValid (mk small (heap block) size old)
    → length bs + 1 < 2 ^ 30
    → old ≤ length bs
    → (s : StringT) × (string_assign_view (some junk) (mk small (heap block) size old) (view bs)
        ≡ some (s, true))
      × IsValid s
      × (string_len s ≡ length bs)
      × (take size (contents s) ≡ take size block)
unfolding string_assign_view
string_assign_view_grow junk small block size old bs v k h =
    let (c, e, lo, hi) =
      next_capacity_bounds (size_add (length bs) 1) (omega arith) (omega arith) in
    let (b1, e1, l1, keep) = realloc_lem junk block c in
    let (b2, e2, l2, q) = memcpy_lem b1 (length bs) (0 ∷ []) (omega arith) in
    let n = length-take (length bs) b1 in
    (
      mk small (heap b2) (length bs + 1) c,
      rw (e, ge→ltb (length bs) old h, e1, e2) refl,
      record {
        small_length = v.small_length;
        has_capacity = l2 ∙ l1;
        in_bounds = omega (arith, l2, l1);
        terminated = λ _.
            let e' : length bs + 1 - 1 ≡ length bs = omega arith in
            rw (e', q) (get_or-append_self (length bs) (take (length bs) b1) 0 _ 1 (omega arith));
      },
      string_len_suc (length bs),
      rw (string_len_suc (length bs), q)
          (ap (take size) (take-append_self (length bs) (take (length bs) b1) _ (omega arith))
            ∙ take-take size (length bs) b1 (omega (arith, v.in_bounds, v.has_capacity))
            ∙ keep size (omega (arith, v.in_bounds, v.has_capacity)) v.in_bounds),
    )
