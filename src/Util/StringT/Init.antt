-- ===== src/Util/StringT/Init.antt =====
-- The initialisers of src/util/string_t.c, and `string_clear`.
use litehttp_c.Base.{
  ℕ, ◌+◌, ◌^◌, ◌≤◌, ◌<◌, ◌≡◌, refl, ◌∙◌, some, Bytes, length, arith, malloc_lem, ◌>>=◌, size_add,
  replicate, ltb, lt→ltb, ge→ltb, Bool-cases, ltb→lt, ltb→ge, inl, inr,
}
use litehttp_c.Util.StringView.{StringView, null, view, view_bytes, string_view_len}
use litehttp_c.Util.StringT.{
  Storage, null_pointer, small_buf, heap, StringT, string_len, string_init,
  string_init_from_string_view, string_clear,
}
use litehttp_c.Util.StringT.Capacity.{next_capacity_bounds}
use litehttp_c.Util.StringT.Valid.{IsValid, Gives, string_init-IsValid}
use litehttp_c.Util.StringT.Write.{mk, string_len_suc, cpy_sv2str_lem, heap_IsValid, small_IsValid}

init_small :
    (junk : ℕ → ℕ) (bs : Bytes)
    → length bs < 16
    → Gives (string_init_from_string_view (some junk) (view bs)) bs
unfolding string_init_from_string_view
init_small junk bs h =
    let (b, e, l, p, z) =
      cpy_sv2str_lem string_init (view bs) 0 (length bs) (omega arith) h (omega arith) in
    (
      mk b small_buf (length bs + 1) 0,
      rw (lt→ltb (length bs) 16 h, e) refl,
      small_IsValid b (length bs) 0 l h z refl,
      rw (string_len_suc (length bs)) p,
    )

init_heap :
    (junk : ℕ → ℕ) (bs : Bytes)
    → 16 ≤ length bs
    → length bs + 1 < 2 ^ 30
    → Gives (string_init_from_string_view (some junk) (view bs)) bs
unfolding string_init_from_string_view
init_heap junk bs h k =
    let (c, e, lo, hi) =
      next_capacity_bounds (size_add (length bs) 1) (omega arith) (omega arith) in
    let (block, em, lm) = malloc_lem junk c in
    let (b, e2, l, p, z) =
      cpy_sv2str_lem (mk (replicate 16 0) (heap block) 0 0) (view bs) 0 (length bs) (omega arith)
        (omega arith) (omega arith) in
    (
      mk (replicate 16 0) (heap b) (length bs + 1) c,
      rw (ge→ltb (length bs) 16 h, e, ◌>>=◌, em, e2) refl,
      heap_IsValid (replicate 16 0) b (length bs) c refl (l ∙ lm) (omega arith) z,
      rw (string_len_suc (length bs)) p,
    )

-- A string made from a view, null or of fewer than 2^30 - 1 bytes, is valid and stands for the view's
-- bytes, when memory is there.
pub string_init_from_string_view-Gives :
    (junk : ℕ → ℕ) (sv : StringView)
    → string_view_len sv + 1 < 2 ^ 30
    → Gives (string_init_from_string_view (some junk) sv) (view_bytes sv)
string_init_from_string_view-Gives junk null h =
    unfold string_init_from_string_view in (string_init, refl, string_init-IsValid, refl)
string_init_from_string_view-Gives junk (view bs) h = elim (Bool-cases (ltb (length bs) 16)) [
  | inl t ↦ init_small junk bs (ltb→lt _ _ t)
  | inr t ↦ init_heap junk bs (ltb→ge _ _ t) h
]

clear_at :
    (small : Bytes) (st : Storage) (size old : ℕ)
    → IsValid (mk small st size old)
    → (s' : StringT) × (string_clear (mk small st size old) ≡ some s')
      × IsValid s'
      × (string_len s' ≡ 0)
      × (s'.capacity ≡ 0)
      × (s'.small ≡ small)
unfolding string_clear
clear_at small small_buf size old v =
    (mk small small_buf 0 old, ground arith, ground arith, refl, v.has_capacity, refl)
clear_at small null_pointer size old v =
    (mk small small_buf 0 0, refl, ground arith, refl, refl, refl)
clear_at small (heap b) size old v = (mk small small_buf 0 0, refl, ground arith, refl, refl, refl)

-- Clearing a valid string succeeds and gives a valid empty one; the small buffer keeps its bytes,
-- so `string_cstr` of the result need not start with a terminator.
pub string_clear_lem :
    (s : StringT)
    → IsValid s
    → (s' : StringT) × (string_clear s ≡ some s')
      × IsValid s'
      × (string_len s' ≡ 0)
      × (s'.capacity ≡ 0)
      × (s'.small ≡ s.small)
string_clear_lem s v = clear_at s.small s.storage s.size s.capacity v
