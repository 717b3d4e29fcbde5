-- ===== src/Http/Feed/Append.antt =====
-- The strings that `http_parse_feed` of src/http/http_parse_dfa.c makes longer: when there is room for
-- a text.
use litehttp_c.Base.{
  ℕ, ◌+◌, ◌^◌, ◌≤◌, ◌<◌, ◌≡◌, ◌∙◌, ap, true, ◌++◌, none, some, Bytes, length, size_add, arith,
  length-append, lt→ltb,
}
use native.Mathlib.Decide.{dec_lt}
use litehttp_c.Util.StringT.Capacity.{next_capacity_bounds}
use litehttp_c.Util.StringT.{next_capacity}
use litehttp_c.Http.ParseCtx.{HttpParseCtx, Build, Mem}
use litehttp_c.Http.Feed.{enter, chain, http_parse_feed, room, extended}

-- A text that a string can hold.
abbrev pub Fits : Bytes → Type 0
Fits text = length text + 1 < 2 ^ 30

pub room_small : (n : ℕ) → n + 1 < 2 ^ 30 → (cap : ℕ) × (room n ≡ some cap)
room_small n h =
    let size : size_add n 1 ≡ n + 1 = omega arith in
    let (cap, e, _, _) = next_capacity_bounds (n + 1) (omega arith) h in
    (cap, ap next_capacity size ∙ e)

pub room_large : (n : ℕ) → room n ≡ none → 2 ^ 30 ≤ n + 1
room_large n h = elim (dec_lt (n + 1) (2 ^ 30)) [
  | yes p ↦ absurd (ground (arith, (room_small n p).1))
  | no q ↦ omega arith
]

-- With memory, and room for the whole text, a call reads the text that it has put together.
pub feed_appended :
    (build : Build) (mem : Mem) (c : HttpParseCtx) (post : Bytes)
    → Fits (c.post ++ post)
    → mem.append_ok ≡ true
    → http_parse_feed build mem c post
      ≡ chain build mem post 1 (enter build mem post c.wait_state (extended mem c post))
unfolding http_parse_feed
feed_appended build mem c post fits ok =
    let size : size_add (length post) (length c.post) ≡ length (c.post ++ post) =
      omega (arith, length-append c.post post) in
    let (cap, e) = room_small (length (c.post ++ post)) fits in
    let offset = lt→ltb (length c.post) (2 ^ 31) (omega (arith, length-append c.post post)) in
    simp (size, e, ok, offset)
