-- ===== src/Util/StringView/Buffer.antt =====
-- `string_view_to_buf` of src/util/string_t.c on every length of its buffer.
use litehttp_c.Base.{
  ◌-◌, ◌<◌, ◌≡◌, none, some, Bytes, length, take, get_or, arith, put_out, ◌⊎◌, inl, inr, ltb,
  ge→ltb, lt→ltb, length-take, put_lem, take_all,
}
use litehttp_c.Util.StringView.{view, string_view_to_buf}

-- The buffer holds the text `bs` and its terminator.
abbrev pub Holds : Bytes → Bytes → Type 0
Holds b bs = (take (length bs) b ≡ bs) × (get_or b (length bs) 1 ≡ 0)

-- A buffer longer than the view gets its bytes and a terminator; a buffer that is shorter, but not
-- empty, gets the prefix that leaves room for the terminator, and the result says false.
pub string_view_to_buf-Holds :
    (bs buf : Bytes)
    → (length bs < length buf) ⊎ ((length buf < length bs) × (0 < length buf))
    → (b : Bytes) × (string_view_to_buf (view bs) buf (length buf)
        ≡ some (b, ltb (length bs) (length buf)))
      × Holds b (take (length buf - 1) bs)
unfolding string_view_to_buf
string_view_to_buf-Holds bs buf (inl h) =
    let whole = take_all (length buf - 1) bs (omega arith) in
    let (b, e, n, p, z) = put_lem buf 0 bs (length bs) (omega arith) h in
    (b, rw (ge→ltb (length buf) (length bs) (omega arith), e, lt→ltb _ _ h), rw whole (p, z))
string_view_to_buf-Holds bs buf (inr h) =
    let cut = take (length buf - 1) bs in
    let (b, e, n, p, z) =
      put_lem buf 0 cut (length cut) (omega arith)
        (omega (arith, length-take (length buf - 1) bs)) in
    (
      b,
      rw (
        lt→ltb _ _ h.0,
        ge→ltb (length buf) 1 h.1,
        e,
        ge→ltb (length bs) (length buf) (omega arith),
      ),
      (p, z),
    )

-- A buffer of exactly the view's length is overrun by the terminator.
pub string_view_to_buf_overrun :
    (bs buf : Bytes) → length buf ≡ length bs → string_view_to_buf (view bs) buf (length buf) ≡ none
unfolding string_view_to_buf
string_view_to_buf_overrun bs buf h =
    rw (ge→ltb (length buf) (length bs) (omega arith), put_out buf bs h)
