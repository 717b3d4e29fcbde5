-- ===== src/Util/StringT/Valid.antt =====
-- The representation invariant of src/util/string_t.c, and the text that a string stands for.
use litehttp_c.Base.{
  ℕ, ◌-◌, ◌≤◌, ◌≡◌, ◌≢◌, Bool, true, Option, some, Bytes, length, take, get_or, arith,
}
use litehttp_c.Util.StringT.{
  Storage, null_pointer, small_buf, heap, StringT, buffer, string_len, string_init, string_zeroed,
}

-- `capacity` is the size of the heap block, and 0 where there is none.
abbrev pub HasCapacity : Storage → ℕ → Type 0
HasCapacity null_pointer c = c ≡ 0
HasCapacity small_buf c = c ≡ 0
HasCapacity (heap b) c = length b ≡ c

pub record IsValid (s : StringT) : Type 0 where
  pub small_length : length s.small ≡ 16
  pub has_capacity : HasCapacity s.storage s.capacity
  pub in_bounds : s.size ≤ length (buffer s)
  pub terminated : s.size ≢ 0 → get_or (buffer s) (s.size - 1) 1 ≡ 0

abbrev pub contents : StringT → Bytes
contents s = take (string_len s) (buffer s)

-- The operation reports success, and its string is valid and stands for `bs`.
abbrev pub Gives : Option (StringT × Bool) → Bytes → Type 0
Gives r bs = (s : StringT) × (r ≡ some (s, true)) × IsValid s × (contents s ≡ bs)

pub string_init-IsValid : IsValid string_init
string_init-IsValid = ground arith

pub string_zeroed-IsValid : IsValid string_zeroed
string_zeroed-IsValid = ground arith
