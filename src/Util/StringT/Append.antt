-- ===== src/Util/StringT/Append.antt =====
-- `string_append_view` of src/util/string_t.c and the operations that call it.
use litehttp_c.Base.{
  malloc, ℕ, ◌+◌, ◌^◌, ◌≤◌, ◌<◌, ◌≡◌, refl, ◌∙◌, ap, true, false, [], ◌∷◌, ◌++◌, none, some, Bytes,
  length, take, arith, ◌==◌, realloc, realloc_lem, size_add,
}
use litehttp_c.Util.StringView.{StringView, view, view_bytes, string_view_len}
use litehttp_c.Util.StringT.{
  Storage, null_pointer, small_buf, heap, StringT, string_len, cpy_sv2str, cpy_smbuf2data,
}
use litehttp_c.Util.StringT.Change.{string_append_view, string_push_back}
use litehttp_c.Util.StringT.Capacity.{next_capacity_bounds}
use litehttp_c.Util.StringT.Valid.{IsValid, contents, Gives}
use litehttp_c.Util.StringT.Write.{
  mk, string_len_suc, cpy_sv2str_lem, heap_IsValid, cpy_smbuf2data_lem,
}

abbrev asked : StringT → StringView → ℕ
asked s sv = size_add (size_add (string_view_len sv) (string_len s)) 1

-- The tail that both paths share: the text, then the view, in a block large enough.
append_tail :
    (small block : Bytes) (size old c n : ℕ) (sv : StringView) (text : Bytes)
    → length small ≡ 16
    → length block ≡ c
    → n + string_view_len sv < c
    → n < 2 ^ 31
    → take n block ≡ text
    → (b : Bytes) × (cpy_sv2str (mk small (heap block) size old) sv n
        ≡ some (mk small (heap b) (n + string_view_len sv + 1) old))
      × IsValid (mk small (heap b) (n + string_view_len sv + 1) c)
      × (contents (mk small (heap b) (n + string_view_len sv + 1) c) ≡ text ++ view_bytes sv)
append_tail small block size old c n sv text hs hl room low pre =
    let end = n + string_view_len sv in
    let (b, e, l, p, z) =
      cpy_sv2str_lem (mk small (heap block) size old) sv n end refl (omega arith) low in
    (
      b,
      e,
      heap_IsValid small b end c hs (l ∙ hl) room z,
      rw (string_len_suc end) (p ∙ ap (λ t. t ++ view_bytes sv) pre),
    )

append_at :
    (junk : ℕ → ℕ) (small : Bytes) (st : Storage) (size old : ℕ) (sv : StringView)
    → IsValid (mk small st size old)
    → string_view_len sv + string_len (mk small st size old) + 1 < 2 ^ 30
    → Gives
        (string_append_view (some junk) (mk small st size old) sv)
        (contents (mk small st size old) ++ view_bytes sv)
unfolding string_append_view
append_at junk small small_buf size old sv v h =
    let s = mk small small_buf size old in
    let (c, e, lo, hi) = next_capacity_bounds (asked s sv) (omega arith) (omega arith) in
    let fits : size ≤ c = ground arith in
    let within : string_len s ≤ size = ground arith in
    let (b1, e1, l1, keep) = cpy_smbuf2data_lem junk small size old c v.in_bounds fits in
    let (b2, e2, v2, t) =
      append_tail small b1 size c c (string_len s) sv (contents s) v.small_length l1 (omega arith)
        (omega arith) (keep (string_len s) within) in
    let no_capacity : (old == 0) ≡ true = ground arith in
    (mk small (heap b2) _ c, rw (e, no_capacity, e1, e2) refl, v2, t)
append_at junk small null_pointer size old sv v h =
    let s = mk small null_pointer size old in
    let (c, e, lo, hi) = next_capacity_bounds (asked s sv) (omega arith) (omega arith) in
    let within : string_len s ≤ size = ground arith in
    let (b1, e1, l1, keep) = realloc_lem junk [] c in
    let (b2, e2, v2, t) =
      append_tail small b1 size old c (string_len s) sv (contents s) v.small_length l1 (omega arith)
        (omega arith) (keep (string_len s) (omega arith) (omega (arith, v.in_bounds))) in
    (mk small (heap b2) _ c, rw (e, e1, e2) refl, v2, t)
append_at junk small (heap b) size old sv v h =
    let s = mk small (heap b) size old in
    let (c, e, lo, hi) = next_capacity_bounds (asked s sv) (omega arith) (omega arith) in
    let within : string_len s ≤ size = ground arith in
    let (b1, e1, l1, keep) = realloc_lem junk b c in
    let (b2, e2, v2, t) =
      append_tail small b1 size old c (string_len s) sv (contents s) v.small_length l1 (omega arith)
        (omega arith) (keep (string_len s) (omega arith) (omega arith)) in
    (mk small (heap b2) _ c, rw (e, e1, e2) refl, v2, t)

-- Appending to a valid string whose new size stays below 2^30 succeeds when memory is there: the
-- result is valid, and its text is the old text with the view's bytes behind it.
pub string_append_view-Gives :
    (junk : ℕ → ℕ) (s : StringT) (sv : StringView)
    → IsValid s
    → string_view_len sv + string_len s + 1 < 2 ^ 30
    → Gives (string_append_view (some junk) s sv) (contents s ++ view_bytes sv)
string_append_view-Gives junk s sv v h = append_at junk s.small s.storage s.size s.capacity sv v h

refused_at :
    (small : Bytes) (st : Storage) (size old : ℕ) (sv : StringView)
    → IsValid (mk small st size old)
    → string_view_len sv + string_len (mk small st size old) + 1 < 2 ^ 30
    → string_append_view none (mk small st size old) sv ≡ some (mk small st size old, false)
unfolding string_append_view cpy_smbuf2data malloc realloc
refused_at small small_buf size old sv v h =
    let s = mk small small_buf size old in
    let (c, e, _, _) = next_capacity_bounds (asked s sv) (omega arith) (omega arith) in
    let no_capacity : (old == 0) ≡ true = ground arith in rw (e, no_capacity) refl
refused_at small null_pointer size old sv v h =
    let s = mk small null_pointer size old in
    let (c, e, _, _) = next_capacity_bounds (asked s sv) (omega arith) (omega arith) in rw e refl
refused_at small (heap b) size old sv v h =
    let s = mk small (heap b) size old in
    let (c, e, _, _) = next_capacity_bounds (asked s sv) (omega arith) (omega arith) in rw e refl

-- When memory is refused, appending to a valid string reports it and leaves the string as it was, and
-- `string_push_back` leaves it so too but reports success: the byte is lost.
pub string_append_view_refused :
    (s : StringT) (sv : StringView) (ch : ℕ)
    → IsValid s
    → string_view_len sv + string_len s + 1 < 2 ^ 30
    → string_len s + 2 < 2 ^ 30
    → (string_append_view none s sv ≡ some (s, false))
      × (string_push_back none s ch ≡ some (s, true))
unfolding string_push_back
string_append_view_refused s sv ch v h k = (
  refused_at s.small s.storage s.size s.capacity sv v h,
  rw (refused_at s.small s.storage s.size s.capacity (view (ch ∷ [])) v (omega arith)) refl,
)

-- With memory there, `string_push_back` puts its byte behind the text.
pub string_push_back-Gives :
    (junk : ℕ → ℕ) (s : StringT) (ch : ℕ)
    → IsValid s
    → string_len s + 2 < 2 ^ 30
    → Gives (string_push_back (some junk) s ch) (contents s ++ (ch ∷ []))
unfolding string_push_back
string_push_back-Gives junk s ch v h =
    let (s', e, v', t) = string_append_view-Gives junk s (view (ch ∷ [])) v (omega arith) in
    (s', rw e refl, v', t)
