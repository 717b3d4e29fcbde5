-- ===== src/Util/StringT/Change.antt =====
-- The operations of src/util/string_t.c on a string that has data: reserve, resize, assign and append.
use litehttp_c.Base.{
  ℕ, ◌+◌, ◌-◌, Bool, true, false, [], ◌∷◌, Option, none, some, Bytes, length, replicate, ltb, leb,
  ◌==◌, if◌then◌else◌, size_add, memcpy, malloc, realloc, Alloc, ◌>>=◌, ◌>>◌,
}
use litehttp_c.Util.StringView.{
  StringView, null, view, string_view_len, string_view_from_cstr, string_view_from_parts,
}
use litehttp_c.Util.StringT.{
  StringT, null_pointer, heap, str_small_buf_size, next_capacity, buffer, with_buffer, use_sbuf,
  succeed, cpy_sv2str, cpy_smbuf2data, string_len, string_view_from_string, string_clear,
}

abbrev pub heap_block : StringT → Bytes
heap_block s = elim s.storage [ heap b ↦ b | _ ↦ [] ]

-- `assert(s->data != nullptr)`
abbrev pub assert_data : StringT → Option (Unit {0})
assert_data s = elim s.storage [ null_pointer ↦ none | _ ↦ some tt ]

unfoldable pub string_reserve : Alloc → StringT → ℕ → Option (StringT × Bool)
string_reserve m s capacity = do
  assert_data s
  if leb capacity s.size
      then some (s, false)
      else if leb capacity s.capacity
      then some (s, true)
      else do
        new_cap ← next_capacity capacity
        small ← use_sbuf s
        if small then cpy_smbuf2data m s new_cap else elim (realloc m (heap_block s) new_cap) [
          | none ↦ some (s, false)
          | some b ↦ some (record s { storage = heap b; capacity = new_cap }, true)
        ]

-- `memset(data + size, 0, new_len - size + 1)`, the new size, and the terminator.
unfoldable pub pad_to : StringT → ℕ → Option StringT
pad_to s new_len = do
  b ← memcpy (buffer s) s.size (replicate (new_len - s.size + 1) 0)
  b' ← memcpy b new_len (0 ∷ [])
  some (record (with_buffer s b') { size = new_len + 1 })

-- The tail of `string_resize` behind `realloc`.
abbrev pub resize_block : StringT → ℕ → ℕ → Option Bytes → Option (StringT × Bool)
resize_block s new_len new_cap none = some (s, false)
resize_block s new_len new_cap (some block) = do
  b ← memcpy block s.size (replicate (new_len - s.size + 1) 0)
  some (record s { storage = heap b; size = new_len + 1; capacity = new_cap }, true)

unfoldable pub string_resize : Alloc → StringT → ℕ → Option (StringT × Bool)
string_resize m s new_len = do
  assert_data s
  if new_len == 0
      then succeed (string_clear s)
      else if ltb new_len s.size
      then (do
        b ← memcpy (buffer s) new_len (0 ∷ [])
        some (record (with_buffer s b) { size = new_len + 1 }, true))
      else if ltb new_len s.capacity
      then succeed (pad_to s new_len)
      else do
        small ← use_sbuf s
        if small
            then (if ltb new_len str_small_buf_size then succeed (pad_to s new_len) else do
              new_cap ← next_capacity (size_add new_len 1)
              (s1, done) ← cpy_smbuf2data m s new_cap
              if done
                  then (pad_to s1 new_len >>= λ s'. some (record s' { capacity = new_cap }, true))
                  else some (s1, false))
            else do
              new_cap ← next_capacity (size_add new_len 1)
              resize_block s new_len new_cap (realloc m (heap_block s) new_cap)

unfoldable pub string_assign_view : Alloc → StringT → StringView → Option (StringT × Bool)
string_assign_view m s null = do assert_data s; s' ← string_clear s; some (s', true)
string_assign_view m s (view bs) = do
  assert_data s
  new_cap ← next_capacity (size_add (length bs) 1)
  small ← use_sbuf s
  if small
      then (if ltb (length bs) str_small_buf_size
          then succeed (cpy_sv2str s (view bs) 0)
          else elim (malloc m new_cap) [
            | none ↦ some (s, false)
            | some block ↦ do
              s' ← cpy_sv2str (record s { storage = heap block }) (view bs) 0
              some (record s' { capacity = new_cap; small = replicate 16 0 }, true)
          ])
      else if ltb (length bs) s.capacity
      then succeed (cpy_sv2str s (view bs) 0)
      else elim (realloc m (heap_block s) new_cap) [
        | none ↦ some (s, false)
        | some block ↦ do
          b ← memcpy block (length bs) (0 ∷ [])
          some (record s { storage = heap b; size = length bs + 1; capacity = new_cap }, true)
      ]

unfoldable pub string_assign : Alloc → StringT → Option Bytes → Option (StringT × Bool)
string_assign m s cstr = string_assign_view m s (string_view_from_cstr cstr)

unfoldable pub string_append_view : Alloc → StringT → StringView → Option (StringT × Bool)
string_append_view m s sv = do
  new_cap ← next_capacity (size_add (size_add (string_view_len sv) (string_len s)) 1)
  small ← use_sbuf s
  if small
      then (do
        (s1, done) ← cpy_smbuf2data m s new_cap
        if done
            then (cpy_sv2str s1 sv (string_len s) >>= λ s2.
                some (record s2 { capacity = new_cap }, true))
            else some (s1, false))
      else elim (realloc m (heap_block s) new_cap) [
        | none ↦ some (s, false)
        | some block ↦ do
          s2 ← cpy_sv2str (record s { storage = heap block }) sv (string_len s)
          some (record s2 { capacity = new_cap }, true)
      ]

-- `string_append_cstr` refuses a null pointer; `string_append` takes it as the empty view.
unfoldable pub string_append_cstr : Alloc → StringT → Option Bytes → Option (StringT × Bool)
string_append_cstr m s none = some (s, false)
string_append_cstr m s (some cstr) = string_append_view m s (view cstr)

unfoldable pub string_append : Alloc → StringT → Option Bytes → Option (StringT × Bool)
string_append m s cstr = string_append_view m s (string_view_from_cstr cstr)

unfoldable pub string_append_string : Alloc → StringT → StringT → Option (StringT × Bool)
string_append_string m s append_s = string_append_view m s (string_view_from_string append_s)

unfoldable pub string_append_parts : Alloc → StringT → Option Bytes → ℕ → Option (StringT × Bool)
string_append_parts m s none len =
    if ltb 0 len then some (s, false) else string_append_view m s null
string_append_parts m s (some mem) len =
    string_append_view m s (string_view_from_parts (some mem) len)

-- The verdict of the append is dropped: the result is always true.
unfoldable pub string_push_back : Alloc → StringT → ℕ → Option (StringT × Bool)
string_push_back m s ch = do (s', _) ← string_append_view m s (view (ch ∷ [])); some (s', true)
