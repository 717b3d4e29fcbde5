-- ===== src/Http/HdrValue/Scanning.antt =====
-- What src/http/http_types.c does with the text of a header value: blanks, cuts, comparisons and `strtoll`.
use litehttp_c.Base.{
  ℕ, ◌+◌, ◌-◌, ◌*◌, ◌^◌, Bool, true, false, ◌&&◌, ◌||◌, List, [], ◌∷◌, Option, none, some, Bytes,
  ltb, leb, ◌==◌, if◌then◌else◌, ℤ, pos, negsuc,
}

abbrev pub c_string : Bytes → Bytes
c_string [] = []
c_string (c ∷ cs) = if c == 0 then [] else c ∷ c_string cs

abbrev pub is_blank : ℕ → Bool
is_blank c = c == b' ' || c == b'\t'

-- `while (*p == ' ' || *p == '\t') ++p;`
unfoldable pub skip_blank : Bytes → Bytes
skip_blank [] = []
skip_blank (c ∷ cs) = if is_blank c then skip_blank cs else c ∷ cs

abbrev pub cons_trimmed : ℕ → Bytes → Bytes
cons_trimmed c [] = if is_blank c then [] else c ∷ []
cons_trimmed c (d ∷ ds) = c ∷ d ∷ ds

unfoldable pub trim_end : Bytes → Bytes
trim_end [] = []
trim_end (c ∷ cs) = cons_trimmed c (trim_end cs)

-- The loop on `end_major`, which never removes the first byte.
abbrev pub trim_major : Bytes → Bytes
trim_major [] = []
trim_major (c ∷ cs) = c ∷ trim_end cs

-- `strchr`: the text in front of the first `c`, and the text behind it.
unfoldable pub split_at : ℕ → Bytes → Option (Bytes × Bytes)
split_at c [] = none
split_at c (x ∷ xs) =
    let rest = split_at c xs in
    if x == c then some ([], xs) else elim rest [ none ↦ none | some (a, b) ↦ some (x ∷ a, b) ]

abbrev pub cut_at : ℕ → Bytes → Bytes
cut_at c xs = elim (split_at c xs) [ none ↦ xs | some (a, b) ↦ a ]

-- `strcmp(a, b) == 0`
unfoldable pub same_text : Bytes → Bytes → Bool
same_text [] [] = true
same_text [] (_ ∷ _) = false
same_text (_ ∷ _) [] = false
same_text (x ∷ xs) (y ∷ ys) = x == y && same_text xs ys

-- A chain of comparisons that sets an enumeration to the place of the text, and to 0 otherwise.
unfoldable pub enum_of : ℕ → List Bytes → Bytes → ℕ
enum_of i [] s = 0
enum_of i (text ∷ table) s =
    let rest = enum_of (i + 1) table s in if same_text s text then i else rest

abbrev pub is_space : ℕ → Bool
is_space c = c == b' ' || (leb 9 c && leb c 13)

abbrev pub is_digit : ℕ → Bool
is_digit c = leb b'0' c && leb c b'9'

unfoldable pub skip_space : Bytes → Bytes
skip_space [] = []
skip_space (c ∷ cs) = if is_space c then skip_space cs else c ∷ cs

-- The number in front of a text, onto the one read so far.
unfoldable pub read_digits : ℕ → Bytes → ℕ
read_digits n [] = n
read_digits n (c ∷ cs) = if is_digit c then read_digits (n * 10 + (c - b'0')) cs else n

abbrev pub starts_with_digit : Bytes → Bool
starts_with_digit [] = false
starts_with_digit (c ∷ _) = is_digit c

-- The value of `strtoll` at base 10, held within an `int64_t`.
abbrev pub clamp_pos : ℕ → ℤ
clamp_pos n = if ltb n (2 ^ 63) then pos n else pos (2 ^ 63 - 1)

abbrev pub clamp_neg : ℕ → ℤ
clamp_neg n =
    if n == 0 then pos 0 else if ltb n (2 ^ 63) then negsuc (n - 1) else negsuc (2 ^ 63 - 1)

abbrev pub signed_digits : Bytes → Option ℤ
signed_digits [] = none
signed_digits (c ∷ cs) =
    if c == b'-'
    then (if starts_with_digit cs then some (clamp_neg (read_digits 0 cs)) else none)
    else if c == b'+'
    then (if starts_with_digit cs then some (clamp_pos (read_digits 0 cs)) else none)
    else if is_digit c
    then some (clamp_pos (read_digits 0 (c ∷ cs)))
    else none

-- `strtoll(p, &endptr, 10)` of the C library; `none` is `endptr == p`.
unfoldable pub strtoll : Bytes → Option ℤ
strtoll text = signed_digits (skip_space text)
