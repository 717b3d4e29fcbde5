-- ===== src/Util/StringT/Compare.antt =====
-- The comparisons and parts of strings in src/util/string_t.c.
use litehttp_c.Base.{
  ℕ, ◌+◌, ◌-◌, ◌^◌, ◌<◌, ◌≡◌, refl, sym, ap, ◌∙◌, Bool, [], Option, some, Bytes, length, take, drop,
  ltb, leb, ℤ, Alloc, ◌>>=◌, arith, inl, inr, Bool-cases, take_all, drop_past, length-take,
  length-drop, leb→le, ltb→ge,
}
use litehttp_c.Util.StringView.{
  StringView, view_bytes, string_view_from_cstr, string_view_compare, string_view_substr,
}
use litehttp_c.Util.StringT.{
  Storage, buffer_at, null_pointer, small_buf, heap, StringT, string_view_from_string,
  string_view_from_string_at, string_clear, string_init_from_string_view, string_len,
}
use litehttp_c.Util.StringT.Init.{string_clear_lem, string_init_from_string_view-Gives}
use litehttp_c.Util.StringT.Valid.{IsValid, contents, Gives}

unfoldable pub string_compare : StringT → StringT → ℤ
string_compare lhs rhs =
    string_view_compare (string_view_from_string lhs) (string_view_from_string rhs)

unfoldable pub string_compare_cstr : StringT → Option Bytes → ℤ
string_compare_cstr lhs rhs =
    string_view_compare (string_view_from_string lhs) (string_view_from_cstr rhs)

abbrev pub string_subview : StringT → ℕ → ℕ → StringView
string_subview str start len = string_view_substr (string_view_from_string str) start len

-- The view is taken before `substr` is cleared and made anew.
unfoldable pub string_substr : Alloc → StringT → StringT → ℕ → ℕ → Option (StringT × Bool)
string_substr m str substr start len = do
  let sv = string_subview str start len
  _ ← string_clear substr
  string_init_from_string_view m sv

text_at :
    (st : Storage) (s : StringT)
    → view_bytes (string_view_from_string_at st s) ≡ take (string_len s) (buffer_at st s.small)
text_at null_pointer s = sym (take_all (string_len s) [] (omega arith))
text_at small_buf s = refl
text_at (heap b) s = refl

-- A part of a view is cut off at its end.
substr_bytes :
    (sv : StringView) (start len : ℕ)
    → view_bytes (string_view_substr sv start len) ≡ take len (drop start (view_bytes sv))
unfolding string_view_substr
substr_bytes sv start len =
    let bs = view_bytes sv in
    let rest = length-drop start bs in
    elim (Bool-cases (leb (length bs) start)) [
      | inl past ↦ rw past (
          sym (
            ap (take len) (drop_past start bs (leb→le (length bs) start past))
            ∙ take_all len [] (omega arith)))
      | inr inside ↦ elim (Bool-cases (ltb len (length bs - start))) [
        | inl part ↦ rw (inside, part) refl
        | inr whole ↦
            let all = take_all (length bs - start) (drop start bs) (omega arith) in
            let more =
              take_all len (drop start bs) (omega (arith, ltb→ge len (length bs - start) whole)) in
            rw (inside, whole) (all ∙ sym more)
      ]
    ]

-- The part of a string that starts at `start` and has at most `len` bytes is put into any valid
-- string, which then stands for those of its bytes that the string has. Memory is there, and the string
-- is below the limit.
pub string_substr-Gives :
    (junk : ℕ → ℕ) (str target : StringT) (start len : ℕ)
    → IsValid target
    → length (contents str) + 1 < 2 ^ 30
    → Gives (string_substr (some junk) str target start len) (take len (drop start (contents str)))
unfolding string_substr
string_substr-Gives junk str target start len w h =
    let sv = string_subview str start len in
    let text =
      substr_bytes (string_view_from_string str) start len
      ∙ ap (λ t. take len (drop start t)) (text_at str.storage str) in
    let cleared = string_clear_lem target w in
    let (s, f, valid, held) = string_init_from_string_view-Gives junk sv (
      omega (
        arith,
        ap length text,
        length-take len (drop start (contents str)),
        length-drop start (contents str),
      )) in
    (s, rw cleared.1 f, valid, held ∙ text)
