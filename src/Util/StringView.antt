-- ===== src/Util/StringView.antt =====
-- The `string_view_t` half of src/util/string_t.c. A view is the bytes that it spans, or the null
-- pointer; that those bytes outlive the view is the caller's duty there and a premise here.
pub mod Compare
pub mod Buffer
use litehttp_c.Base.{
  ℕ, zero, suc, ◌+◌, ◌-◌, ◌*◌, ◌%◌, ◌^◌, Bool, true, false, List, [], ◌∷◌, ◌++◌, Option, none, some,
  Bytes, length, take, drop, ltb, leb, ◌==◌, if◌then◌else◌, ℤ, pos, negsuc, is_zero, size_sub,
  int_of_size, put, ◌>>=◌, min,
}

pub data StringView : Type 0 where
  null : StringView
  view : Bytes → StringView

-- `string_view_from_cstr`, on the bytes in front of the terminator.
abbrev pub string_view_from_cstr : Option Bytes → StringView
string_view_from_cstr none = null
string_view_from_cstr (some cstr) = view cstr

-- `string_view_from_parts`, on the memory at `data`; a null pointer has length 0.
abbrev pub string_view_from_parts : Option Bytes → ℕ → StringView
string_view_from_parts none len = null
string_view_from_parts (some mem) len = view (take len mem)

abbrev pub view_bytes : StringView → Bytes
view_bytes null = []
view_bytes (view bs) = bs

abbrev pub string_view_len : StringView → ℕ
string_view_len sv = length (view_bytes sv)

abbrev pub string_view_empty : StringView → Bool
string_view_empty sv = string_view_len sv == 0

-- `strncmp` of the C library: only the sign of its result is fixed, and a NUL ends both texts.
unfoldable pub strncmp : ℕ → Bytes → Bytes → ℤ
strncmp zero a b = pos 0
strncmp (suc n) [] b = pos 0
strncmp (suc n) (x ∷ a) [] = pos 0
strncmp (suc n) (x ∷ a) (y ∷ b) =
    let rest = strncmp n a b in
    if x == y then (if x == 0 then pos 0 else rest) else if ltb x y then negsuc 0 else pos 1

unfoldable pub string_view_compare : StringView → StringView → ℤ
string_view_compare lhs rhs =
    let llen = string_view_len lhs in
    let rlen = string_view_len rhs in
    let minlen = if ltb llen rlen then llen else rlen in
    let cmp = strncmp minlen (view_bytes lhs) (view_bytes rhs) in
    if is_zero cmp then int_of_size (size_sub llen rlen) else cmp

unfoldable pub string_view_equal : StringView → StringView → Bool
unfolding string_view_compare
string_view_equal lhs rhs = is_zero (string_view_compare lhs rhs)

unfoldable pub string_view_compare_cstr : StringView → Option Bytes → ℤ
unfolding string_view_compare
string_view_compare_cstr lhs rhs = string_view_compare lhs (string_view_from_cstr rhs)

-- The buffer is the block that the caller passes; the result is its new contents and the verdict.
unfoldable pub string_view_to_buf : StringView → Bytes → ℕ → Option (Bytes × Bool)
string_view_to_buf sv buf buf_len =
    if ltb buf_len (string_view_len sv)
    then (if ltb buf_len 1
        then some (buf, false)
        else put buf 0 (take (buf_len - 1) (view_bytes sv)) >>= λ b. some (b, false))
    else put buf 0 (view_bytes sv) >>= λ b. some (b, true)

-- `(size_t)-1`
abbrev pub string_t_npos : ℕ
string_t_npos = 2 ^ 64 - 1

-- `char` is signed: a byte from 128 on is sign-extended before it is added.
abbrev pub char_to_size : ℕ → ℕ
char_to_size c = if ltb c 128 then c else 2 ^ 64 - 256 + c

unfoldable pub hash_from : ℕ → Bytes → ℕ
hash_from hash [] = hash
hash_from hash (c ∷ cs) = hash_from ((hash * 32 + hash + char_to_size c) % 2 ^ 64) cs

unfoldable pub string_view_hash : StringView → ℕ
unfolding hash_from
string_view_hash sv = hash_from 5381 (view_bytes sv)

unfoldable pub string_view_substr : StringView → ℕ → ℕ → StringView
string_view_substr sv start len =
    let sv_len = string_view_len sv in
    if leb sv_len start
    then view []
    else let max_len = sv_len - start in
      view (take (if ltb len max_len then len else max_len) (drop start (view_bytes sv)))
