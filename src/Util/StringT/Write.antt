-- ===== src/Util/StringT/Write.antt =====
-- The copies that the operations of src/util/string_t.c share.
use litehttp_c.Base.{
  ℕ, ◌+◌, ◌-◌, ◌≤◌, ◌<◌, ◌≡◌, refl, ◌∙◌, true, ◌++◌, some, Bytes, length, take, get_or, arith, ◌==◌,
  ◌^◌, lt→ltb, if◌then◌else◌, put_lem, length-take, memcpy_prefix, take-take, malloc_lem,
}
use litehttp_c.Util.StringView.{StringView, view_bytes, string_view_len}
use litehttp_c.Util.StringT.{
  Storage, small_buf, heap, StringT, buffer, cpy_sv2str, cpy_smbuf2data, with_buffer,
}
use litehttp_c.Util.StringT.Valid.{IsValid}

pub string_len_suc : (n : ℕ) → (if n + 1 == 0 then 0 else n + 1 - 1) ≡ n
string_len_suc n = ground arith

pub cpy_sv2str_lem :
    (s : StringT) (sv : StringView) (off end : ℕ)
    → off + string_view_len sv ≡ end
    → end < length (buffer s)
    → off < 2 ^ 31
    → (b : Bytes) × (cpy_sv2str s sv off ≡ some (record (with_buffer s b) { size = end + 1 }))
      × (length b ≡ length (buffer s))
      × (take end b ≡ take off (buffer s) ++ view_bytes sv)
      × (get_or b end 1 ≡ 0)
unfolding cpy_sv2str
cpy_sv2str_lem s sv off end e h small =
    let (b, eq, l, p, z) = put_lem (buffer s) off (view_bytes sv) end e h in
    (b, rw (lt→ltb off (2 ^ 31) small, eq, e) refl, l, p, z)

-- A heap string whose text ends at `end`.
pub heap_IsValid :
    (small b : Bytes) (end c : ℕ)
    → length small ≡ 16
    → length b ≡ c
    → end < c
    → get_or b end 1 ≡ 0
    → IsValid (record { small = small; storage = heap b; size = end + 1; capacity = c })
heap_IsValid small b end c h l k z = record {
  small_length = h;
  has_capacity = l;
  in_bounds = omega arith;
  terminated = λ _. let e' : end + 1 - 1 ≡ end = omega arith in rw e' z;
}

pub small_IsValid :
    (b : Bytes) (end c : ℕ)
    → length b ≡ 16
    → end < 16
    → get_or b end 1 ≡ 0
    → c ≡ 0
    → IsValid (record { small = b; storage = small_buf; size = end + 1; capacity = c })
small_IsValid b end c l k z e = record {
  small_length = l;
  has_capacity = e;
  in_bounds = omega arith;
  terminated = λ _. let e' : end + 1 - 1 ≡ end = omega arith in rw e' z;
}

-- The small buffer moved to the heap: its text is kept.
pub cpy_smbuf2data_lem :
    (junk : ℕ → ℕ) (small : Bytes) (size old c : ℕ)
    → size ≤ length small
    → size ≤ c
    → (b : Bytes) × (cpy_smbuf2data
          (some junk)
          (record { small = small; storage = small_buf; size = size; capacity = old })
          c
        ≡ some (record { small = small; storage = heap b; size = size; capacity = c }, true))
      × (length b ≡ c)
      × ((k : ℕ) → k ≤ size → take k b ≡ take k small)
unfolding cpy_smbuf2data
cpy_smbuf2data_lem junk small size old c h k =
    let (block, em, lm) = malloc_lem junk c in
    let n = length-take size small in
    let (b, e, l, keep) = memcpy_prefix block (take size small) (omega arith) in
    (
      b,
      rw (em, cpy_smbuf2data, e) refl,
      l ∙ lm,
      λ j le. keep j (omega arith) ∙ take-take j size small le,
    )

abbrev pub mk : Bytes → Storage → ℕ → ℕ → StringT
mk small st size capacity = record { small = small; storage = st; size = size; capacity = capacity }
