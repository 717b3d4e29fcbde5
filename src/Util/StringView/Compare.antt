-- ===== src/Util/StringView/Compare.antt =====
-- When `string_view_compare` and `string_view_equal` of src/util/string_t.c mean equality of bytes.
use litehttp_c.Base.{
  ℕ, zero, suc, ◌^◌, ◌≤◌, ◌<◌, ◌≡◌, ◌≢◌, ◌↔◌, refl, sym, ◌∙◌, true, [], ◌∷◌, Bytes, length, take,
  ltb, if◌then◌else◌, pos, is_zero, size_sub, int_of_size, arith, take_all,
}
use litehttp_c.Util.StringView.{view, strncmp, string_view_compare, string_view_equal}

abbrev pub NulFree : Bytes → Type 0
NulFree [] = Unit {0}
NulFree (x ∷ xs) = (x ≢ 0) × NulFree xs

strncmp-take :
    (n : ℕ) (a b : Bytes)
    → NulFree a
    → n ≤ length a
    → n ≤ length b
    → is_zero (strncmp n a b) ≡ true
    → take n a ≡ take n b
unfolding strncmp
strncmp-take zero a b f h k e = refl
strncmp-take (suc n) [] b f h k e = elim h [ ]
strncmp-take (suc n) (x ∷ a) [] f h k e = elim k [ ]
strncmp-take (suc n) (x ∷ a) (y ∷ b) f h k e = ground (arith, strncmp-take n a b f.1)

strncmp_self : (n : ℕ) (a : Bytes) → strncmp n a a ≡ pos 0
unfolding strncmp
strncmp_self zero a = refl
strncmp_self (suc n) [] = refl
strncmp_self (suc n) (x ∷ a) = ground (arith, strncmp_self n a)

lengths_eq :
    (m n : ℕ) → m < 2 ^ 31 → n < 2 ^ 31 → is_zero (int_of_size (size_sub m n)) ≡ true → m ≡ n
lengths_eq m n h k e = ground arith

abbrev minlen : Bytes → Bytes → ℕ
minlen a b = if ltb (length a) (length b) then length a else length b

compare_zero :
    (a b : Bytes)
    → is_zero (string_view_compare (view a) (view b)) ≡ true
    → (is_zero (strncmp (minlen a b) a b) ≡ true)
      × (is_zero (int_of_size (size_sub (length a) (length b))) ≡ true)
unfolding string_view_compare
compare_zero a b e = ground arith

equal_sound :
    (a b : Bytes)
    → NulFree a
    → length a < 2 ^ 31
    → length b < 2 ^ 31
    → string_view_equal (view a) (view b) ≡ true
    → a ≡ b
unfolding string_view_equal
equal_sound a b f h k e =
    let (zero_cmp, zero_len) = compare_zero a b e in
    let same = lengths_eq (length a) (length b) h k zero_len in
    let whole : minlen a b ≡ length a = ground arith in
    sym (take_all (length a) a (omega arith))
    ∙ strncmp-take (length a) a b f (omega arith) (omega arith) (rw whole at zero_cmp)
    ∙ take_all (length a) b (omega arith)

size_sub_self : (n : ℕ) → n < 2 ^ 31 → is_zero (int_of_size (size_sub n n)) ≡ true
size_sub_self n h = ground arith

equal_complete : (a : Bytes) → length a < 2 ^ 31 → string_view_equal (view a) (view a) ≡ true
unfolding string_view_equal string_view_compare
equal_complete a h = ground (arith, strncmp_self (minlen a a) a, size_sub_self (length a) h)

-- On texts with no NUL byte and shorter than 2^31, `string_view_equal` says whether the bytes of the
-- two views are the same.
pub string_view_equal_iff :
    (a b : Bytes)
    → NulFree a
    → length a < 2 ^ 31
    → length b < 2 ^ 31
    → (string_view_equal (view a) (view b) ≡ true) ↔ (a ≡ b)
string_view_equal_iff a b f h k = (equal_sound a b f h k, λ e. rw (← e) (equal_complete a h))
