-- ===== src/Util/StringT.antt =====
-- The `string_t` half of src/util/string_t.c: a string is a record of the 16-byte buffer inside it,
-- of where `data` points, and of `size` and `capacity`, both counting the terminator. An operation
-- returns the new string and its verdict; `none` is a fault, that is, an access out of bounds, a
-- failed assertion, or a shift that C leaves undefined. Each takes the outcome of the one allocation
-- that it may make.
pub mod Capacity
pub mod Valid
pub mod Write
pub mod Change
pub mod Append
pub mod Assign
pub mod Padding
pub mod Resize
pub mod Init
pub mod Compare
pub mod Decimal
pub mod Reserve
use Prim.Native.Nat.{bit_and}
use litehttp_c.Base.{
  ℕ, zero, suc, ◌+◌, ◌-◌, ◌*◌, ◌/◌, ◌%◌, ◌^◌, Bool, true, false, not, ◌&&◌, List, [], ◌∷◌, ◌++◌,
  Option, none, some, Bytes, length, take, replicate, ltb, leb, ◌==◌, if◌then◌else◌, ℤ, pos, negsuc,
  is_neg, size_add, put, memcpy, malloc, realloc, Alloc, ◌>>=◌, ◌>>◌, assert,
}
use litehttp_c.Util.StringView.{
  StringView, null, view, view_bytes, string_view_len, string_view_from_cstr,
  string_view_from_parts, string_view_compare, string_view_substr,
}

pub data Storage : Type 0 where
  null_pointer : Storage
  small_buf : Storage
  heap : Bytes → Storage

pub record StringT : Type 0 where
  pub small : Bytes
  pub storage : Storage
  pub size : ℕ
  pub capacity : ℕ

abbrev pub str_small_buf_size : ℕ
str_small_buf_size = 16

-- `bits - __builtin_clzl(n)`; the fuel is the 64 bits of a `size_t`.
unfoldable pub bit_length : ℕ → ℕ → ℕ
bit_length zero n = 0
bit_length (suc bits) n = if n == 0 then 0 else suc (bit_length bits (n / 2))

-- `1 << k` on an `int`: defined while the result fits one.
abbrev pub shift_int : ℕ → Option ℕ
shift_int k = if ltb k 31 then some (2 ^ k) else none

unfoldable pub next_capacity : ℕ → Option ℕ
next_capacity n =
    if n == 0
    then some 1
    else if bit_and n (n - 1) == 0
    then some n
    else shift_int (bit_length 64 n)

abbrev pub buffer_at : Storage → Bytes → Bytes
buffer_at null_pointer small = []
buffer_at small_buf small = small
buffer_at (heap b) small = b

abbrev pub buffer : StringT → Bytes
buffer s = buffer_at s.storage s.small

abbrev pub with_buffer_at : Storage → StringT → Bytes → StringT
with_buffer_at null_pointer s b = s
with_buffer_at small_buf s b = record s { small = b }
with_buffer_at (heap _) s b = record s { storage = heap b }

abbrev pub with_buffer : StringT → Bytes → StringT
with_buffer s b = with_buffer_at s.storage s b

abbrev pub is_small : Storage → Bool
is_small small_buf = true
is_small null_pointer = false
is_small (heap _) = false

-- With the assertion that a string in its small buffer has no capacity.
abbrev pub use_sbuf : StringT → Option Bool
use_sbuf s =
    if is_small s.storage then (assert (s.capacity == 0) >>= λ _. some true) else some false

abbrev pub succeed : Option StringT → Option (StringT × Bool)
succeed m = m >>= λ s. some (s, true)

-- `cpy_sv2str`. The offset is an `int`: a `size_t` beyond it is a fault.
unfoldable pub cpy_sv2str : StringT → StringView → ℕ → Option StringT
cpy_sv2str dest src offset = do
  assert (ltb offset (2 ^ 31))
  b ← put (buffer dest) offset (view_bytes src)
  some (record (with_buffer dest b) { size = offset + string_view_len src + 1 })

-- `cpy_smbuf2data`; on failure `data` points to the small buffer again.
unfoldable pub cpy_smbuf2data : Alloc → StringT → ℕ → Option (StringT × Bool)
cpy_smbuf2data m s new_cap = elim (malloc m new_cap) [
  | none ↦ some (s, false)
  | some block ↦ do
    b ← memcpy block 0 (take s.size s.small)
    some (record s { storage = heap b; capacity = new_cap }, true)
]

abbrev pub string_init : StringT
string_init = record { small = replicate 16 0; storage = small_buf; size = 0; capacity = 0 }

-- The string as `calloc` leaves it.
abbrev pub string_zeroed : StringT
string_zeroed = record { small = replicate 16 0; storage = null_pointer; size = 0; capacity = 0 }

abbrev pub string_len : StringT → ℕ
string_len s = if s.size == 0 then 0 else s.size - 1

abbrev pub string_empty : StringT → Bool
string_empty s = string_len s == 0

abbrev pub string_cstr : StringT → Bytes
string_cstr s = buffer s

abbrev pub string_view_from_string_at : Storage → StringT → StringView
string_view_from_string_at null_pointer s = null
string_view_from_string_at small_buf s = view (take (string_len s) s.small)
string_view_from_string_at (heap b) s = view (take (string_len s) b)

abbrev pub string_view_from_string : StringT → StringView
string_view_from_string s = string_view_from_string_at s.storage s

unfoldable pub string_clear : StringT → Option StringT
string_clear s = do
  small ← use_sbuf s
  some (
      if small
      then record s { size = 0 }
      else record s { size = 0; capacity = 0; storage = small_buf })

unfoldable pub string_init_from_string_view : Alloc → StringView → Option (StringT × Bool)
string_init_from_string_view m null = some (string_init, true)
string_init_from_string_view m (view bs) =
    if ltb (length bs) str_small_buf_size then succeed (cpy_sv2str string_init (view bs) 0) else do
      new_cap ← next_capacity (size_add (length bs) 1)
      elim (malloc m new_cap) [
        | none ↦ some (record string_init { storage = null_pointer }, false)
        | some block ↦ do
          s ← cpy_sv2str (record string_init { storage = heap block }) (view bs) 0
          some (record s { capacity = new_cap }, true)
      ]

unfoldable pub string_init_from_cstr : Alloc → Option Bytes → Option (StringT × Bool)
string_init_from_cstr m cstr = string_init_from_string_view m (string_view_from_cstr cstr)

-- A null pointer with a length is refused, and leaves the string as it is.
unfoldable pub string_init_from_parts : Alloc → StringT → Option Bytes → ℕ → Option (StringT × Bool)
string_init_from_parts m s none len =
    if not (len == 0) then some (s, false) else string_init_from_string_view m null
string_init_from_parts m s (some mem) len =
    string_init_from_string_view m (string_view_from_parts (some mem) len)

-- The block that is handed to `free`.
unfoldable pub string_destroy : StringT → Option (Option Bytes)
string_destroy s = elim s.storage [
  | small_buf ↦ assert (s.capacity == 0) >>= λ _. some none
  | null_pointer ↦ some none
  | heap b ↦ some (some b)
]

unfoldable pub string_take_ownership : StringT → Bytes → ℕ → StringT
string_take_ownership s block len = record s {
  size = size_add len 1;
  capacity = size_add len 1;
  storage = heap block;
}
