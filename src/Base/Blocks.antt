-- ===== src/Base/Blocks.antt =====
-- Blocks of memory, and what `malloc`, `realloc`, `memcpy` and `memset` of the C library do to them.
-- A write outside its block is a fault. The bytes that an allocation leaves indeterminate are those
-- of the environment's `Alloc`; `none` is an allocation that fails.
use Prim.Native.Nat.{ℕ, zero, suc, ◌+◌, ◌-◌, ◌≤◌, ◌<◌}
use mathlib.Core.Path.{◌≡◌, refl, ap, ◌∙◌, sym}
use mathlib.Core.List.{[], ◌∷◌, ◌++◌, append_assoc}
use mathlib.Core.Option.{Option, none, some}
use native.Mathlib.Omega.{arith}
use litehttp_c.Base.Lists.{
  Bytes, length, take, drop, get_or, length-append, length-take, length-drop, take-append_self,
  take-append_le, take-take, get_or-append_self,
}
use litehttp_c.Base.Flow.{◌>>=◌}
use litehttp_c.Base.Tests.{leb, le→leb, gt→leb, if◌then◌else◌}

abbrev pub Alloc : Type 0
Alloc = Option (ℕ → ℕ)

pub tabulate : (ℕ → ℕ) → ℕ → Bytes
tabulate f zero = []
tabulate f (suc n) = f n ∷ tabulate f n

unfoldable pub malloc : Alloc → ℕ → Option Bytes
unfolding tabulate
malloc none n = none
malloc (some junk) n = some (tabulate junk n)

unfoldable pub realloc : Alloc → Bytes → ℕ → Option Bytes
unfolding tabulate
realloc none b n = none
realloc (some junk) b n = some (take n b ++ tabulate junk (n - length b))

unfoldable pub memcpy : Bytes → ℕ → Bytes → Option Bytes
memcpy block off src =
    if leb (off + length src) (length block)
    then some (take off block ++ (src ++ drop (off + length src) block))
    else none

length-tabulate : (f : ℕ → ℕ) (n : ℕ) → length (tabulate f n) ≡ n
unfolding tabulate
length-tabulate f zero = refl
length-tabulate f (suc n) = ap suc (length-tabulate f n)

pub malloc_lem :
    (junk : ℕ → ℕ) (n : ℕ) → (b : Bytes) × (malloc (some junk) n ≡ some b) × (length b ≡ n)
unfolding malloc
malloc_lem junk n = (tabulate junk n, refl, length-tabulate junk n)

-- A block that grows keeps its bytes.
pub realloc_lem :
    (junk : ℕ → ℕ) (b : Bytes) (n : ℕ)
    → (b' : Bytes) × (realloc (some junk) b n ≡ some b')
      × (length b' ≡ n)
      × ((k : ℕ) → k ≤ n → k ≤ length b → take k b' ≡ take k b)
unfolding realloc
realloc_lem junk b n = (
  take n b ++ tabulate junk (n - length b),
  refl,
  omega (
    arith,
    length-append (take n b) (tabulate junk (n - length b)),
    length-take n b,
    length-tabulate junk (n - length b),
  ),
  λ k h h'. take-append_le k (take n b) _ (omega (arith, length-take n b)) ∙ take-take k n b h,
)

-- A write within bounds succeeds, keeps the length and what stands in front, and puts its bytes.
pub memcpy_lem :
    (block : Bytes) (off : ℕ) (src : Bytes)
    → off + length src ≤ length block
    → (b' : Bytes) × (memcpy block off src ≡ some b')
      × (length b' ≡ length block)
      × (b' ≡ take off block ++ (src ++ drop (off + length src) block))
unfolding memcpy
memcpy_lem block off src h = (
  take off block ++ (src ++ drop (off + length src) block),
  ground (arith, le→leb (off + length src) (length block) h),
  omega (
    arith,
    length-append (take off block) (src ++ drop (off + length src) block),
    length-append src (drop (off + length src) block),
    length-take off block,
    length-drop (off + length src) block,
  ),
  refl,
)

pub memcpy_out :
    (block : Bytes) (off : ℕ) (src : Bytes)
    → length block < off + length src
    → memcpy block off src ≡ none
unfolding memcpy
memcpy_out block off src h = ground (arith, gt→leb (off + length src) (length block) h)

-- A text and its terminator, written one behind the other.
unfoldable pub put : Bytes → ℕ → Bytes → Option Bytes
unfolding memcpy
put block off src = do b ← memcpy block off src; memcpy b (off + length src) (0 ∷ [])

pub put_lem :
    (block : Bytes) (off : ℕ) (src : Bytes) (end : ℕ)
    → off + length src ≡ end
    → end < length block
    → (b : Bytes) × (put block off src ≡ some b)
      × (length b ≡ length block)
      × (take end b ≡ take off block ++ src)
      × (get_or b end 1 ≡ 0)
unfolding put
put_lem block off src end at_end h =
    let (b1, e1, l1, q1) = memcpy_lem block off src (omega arith) in
    let (b2, e2, l2, q2) = memcpy_lem b1 end (0 ∷ []) (omega arith) in
    let whole = length-take end b1 in
    let front = length-append (take off block) src in
    (
      b2,
      rw (e1, at_end) e2,
      l2 ∙ l1,
      rw q2 (
          take-append_self end (take end b1) _ (omega arith)
          ∙ ap (take end) q1
          ∙ ap (take end) (sym (append_assoc (take off block) src _))
          ∙ take-append_self end (take off block ++ src) _ (omega (arith, length-take off block))),
      rw q2 (get_or-append_self end (take end b1) 0 _ 1 (omega arith)),
    )

-- One byte too many for the block.
pub put_out : (block : Bytes) (src : Bytes) → length block ≡ length src → put block 0 src ≡ none
unfolding put
put_out block src h =
    let (b1, e1, l1, q1) = memcpy_lem block 0 src (omega arith) in
    rw e1 (memcpy_out b1 (0 + length src) (0 ∷ []) (omega arith))

-- A block that starts with a copy of `src`.
pub memcpy_prefix :
    (block src : Bytes)
    → length src ≤ length block
    → (b : Bytes) × (memcpy block 0 src ≡ some b)
      × (length b ≡ length block)
      × ((k : ℕ) → k ≤ length src → take k b ≡ take k src)
memcpy_prefix block src h =
    let (b, e, l, q) = memcpy_lem block 0 src (omega arith) in
    (b, e, l, λ k le. ap (take k) q ∙ take-append_le k src _ le)
