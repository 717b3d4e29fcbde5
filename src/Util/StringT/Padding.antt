-- ===== src/Util/StringT/Padding.antt =====
-- The cuts and paddings of `string_resize` in src/util/string_t.c, on the bytes of a block.
use litehttp_c.Base.{
  ℕ, zero, suc, ◌+◌, ◌-◌, ◌<◌, ◌≡◌, refl, sym, ◌∙◌, ap, [], ◌∷◌, ◌++◌, append_assoc, some, Bytes,
  length, take, drop, get_or, replicate, arith, memcpy, memcpy_lem, length-take, length-append,
  length-replicate, take-append_self, get_or-append_self, take_all,
}
use litehttp_c.Util.StringT.{Storage, buffer, with_buffer}
use litehttp_c.Util.StringT.Change.{pad_to}
use litehttp_c.Util.StringT.Write.{mk}

take-suc :
    (k : ℕ) (xs : Bytes) (d : ℕ)
    → k < length xs
    → take (suc k) xs ≡ take k xs ++ (get_or xs k d ∷ [])
take-suc k [] d h = absurd (omega arith)
take-suc zero (x ∷ xs) d h = refl
take-suc (suc k) (x ∷ xs) d h = ap (λ t. x ∷ t) (take-suc k xs d (omega arith))

-- The text that a resize gives: cut, or padded with zeros.
abbrev pub resized : Bytes → ℕ → Bytes
resized text n = take n text ++ replicate (n - length text) 0

zeros_cons : (m : ℕ) (rest : Bytes) → (0 ∷ (replicate m 0 ++ rest)) ≡ replicate m 0 ++ (0 ∷ rest)
zeros_cons zero rest = refl
zeros_cons (suc m) rest = ap (λ t. 0 ∷ t) (zeros_cons m rest)

-- The padded text of a string whose text ends at `k`.
pub padded :
    (k n : ℕ) (block : Bytes)
    → k < length block
    → k < n
    → take k block ++ replicate (n - k) 0 ≡ resized (take k block) n
padded k n block room h =
    let len : length (take k block) ≡ k = omega (arith, length-take k block) in
    let all = take_all n (take k block) (omega arith) in rw (all, len) refl

-- The zeros from the terminator on.
pub pad_lem :
    (block : Bytes) (k n : ℕ)
    → k < n
    → n < length block
    → get_or block k 1 ≡ 0
    → (b : Bytes) × (memcpy block (k + 1) (replicate (n - k) 0) ≡ some b)
      × (length b ≡ length block)
      × (take n b ≡ take k block ++ replicate (n - k) 0)
      × (get_or b n 1 ≡ 0)
pad_lem block k n h room z =
    let zeros : Bytes = replicate (n - k) 0 in
    let r : length zeros ≡ n - k = length-replicate (n - k) 0 in
    let (b, e, l, q) = memcpy_lem block (k + 1) zeros (omega (arith, r)) in
    let rest = drop (k + 1 + length zeros) block in
    let next : k + 1 ≡ suc k = omega arith in
    let front : take (k + 1) block ≡ take k block ++ (0 ∷ []) =
      ap (λ i. take i block) next
      ∙ take-suc k block 1 (omega arith)
      ∙ ap (λ c. take k block ++ (c ∷ [])) z in
    let split : b ≡ (take k block ++ zeros) ++ (0 ∷ rest) =
      q
      ∙ ap (λ t. t ++ (zeros ++ rest)) front
      ∙ append_assoc (take k block) (0 ∷ []) (zeros ++ rest)
      ∙ ap (λ t. take k block ++ t) (zeros_cons (n - k) rest)
      ∙ sym (append_assoc (take k block) zeros (0 ∷ rest)) in
    let at_n : n ≡ length (take k block ++ zeros) =
      omega (arith, length-append (take k block) zeros, length-take k block, r) in
    (
      b,
      e,
      l,
      rw split (take-append_self n (take k block ++ zeros) (0 ∷ rest) at_n),
      rw split (get_or-append_self n (take k block ++ zeros) 0 rest 1 at_n),
    )

pub pad_to_lem :
    (small : Bytes) (st : Storage) (k n old : ℕ)
    → k < n
    → n < length (buffer (mk small st (k + 1) old))
    → get_or (buffer (mk small st (k + 1) old)) k 1 ≡ 0
    → (b : Bytes) × (pad_to (mk small st (k + 1) old) n
        ≡ some (record (with_buffer (mk small st (k + 1) old) b) { size = n + 1 }))
      × (length b ≡ length (buffer (mk small st (k + 1) old)))
      × (take n b ≡ resized (take k (buffer (mk small st (k + 1) old))) n)
      × (get_or b n 1 ≡ 0)
unfolding pad_to
pad_to_lem small st k n old h room z =
    let block = buffer (mk small st (k + 1) old) in
    let (b1, e1, l1, t1, z1) = pad_lem block k n h room z in
    let (b2, e2, l2, q2) = memcpy_lem b1 n (0 ∷ []) (omega arith) in
    let count : n - (k + 1) + 1 ≡ n - k = omega arith in
    let at_n : n ≡ length (take n b1) = omega (arith, length-take n b1) in
    (
      b2,
      rw (count, e1, e2) refl,
      l2 ∙ l1,
      rw q2 (take-append_self n (take n b1) _ at_n) ∙ t1 ∙ padded k n block (omega arith) h,
      rw q2 (get_or-append_self n (take n b1) 0 _ 1 at_n),
    )
