-- ===== src/Tests/Strings.antt =====
-- Runs of the code of src/util.
use litehttp_c.Base.{
  ℕ, ◌+◌, ◌*◌, ◌^◌, ◌≤◌, ◌≡◌, ◌↔◌, refl, inl, true, false, [], ◌∷◌, ◌++◌, none, some, Bytes, codes,
  take, replicate, arith, negsuc,
}
use litehttp_c.Util.Message.{http_message_str}
use litehttp_c.Util.ErrorCode.{http_err_open, http_err_to_msg, http_err_str}
use litehttp_c.Util.ErrorCode.Messages.{http_err_to_msg_injective}
use litehttp_c.Util.StringView.{view, string_view_equal, string_view_to_buf}
use litehttp_c.Util.StringView.Compare.{string_view_equal_iff}
use litehttp_c.Util.StringView.Buffer.{Holds, string_view_to_buf-Holds, string_view_to_buf_overrun}
use litehttp_c.Util.StringT.{
  StringT, heap, next_capacity, string_init, string_len, string_init_from_string_view,
}
use litehttp_c.Util.StringT.Change.{
  string_reserve, string_resize, string_append_view, string_push_back, string_assign_view,
}
use litehttp_c.Util.StringT.Decimal.{int_to_string_t, decimal, digits_onto, int_to_string_t-Gives}
use litehttp_c.Util.StringT.Reserve.{Reserves, string_reserve-Reserves}
use litehttp_c.Util.StringT.Capacity.{next_capacity_bounds, next_capacity_undefined}
use litehttp_c.Util.StringT.Valid.{IsValid, contents, Gives, string_init-IsValid}
use litehttp_c.Util.StringT.Write.{mk}
use litehttp_c.Util.StringT.Append.{
  string_append_view-Gives, string_append_view_refused, string_push_back-Gives,
}
use litehttp_c.Util.StringT.Resize.{string_resize-Gives}
use litehttp_c.Util.StringT.Init.{string_init_from_string_view-Gives}
use litehttp_c.Util.StringT.Assign.{string_assign_view-Gives, string_assign_view_grow}

abbrev junk : ℕ → ℕ
junk i = 170

messages_test :
    (http_err_open ≡ http_err_open)
    × (http_err_str http_err_open ≡ http_message_str (http_err_to_msg http_err_open))
messages_test = http_err_to_msg_injective http_err_open http_err_open refl

string_view_equal_iff_example :
    (string_view_equal (view (codes "GET")) (view (codes "PUT")) ≡ true)
    ↔ (codes "GET" ≡ codes "PUT")
string_view_equal_iff_example =
    string_view_equal_iff (codes "GET") (codes "PUT") (ground arith) (omega arith) (omega arith)

string_view_to_buf-Holds_example :
    (b : Bytes) × (string_view_to_buf (view (codes "path")) (replicate 5 170) 5 ≡ some (b, true))
    × Holds b (codes "path")
string_view_to_buf-Holds_example =
    string_view_to_buf-Holds (codes "path") (replicate 5 170) (inl (omega arith))

overrun_test : string_view_to_buf (view (codes "path")) (replicate 4 170) 4 ≡ none
overrun_test = string_view_to_buf_overrun (codes "path") (replicate 4 170) refl

next_capacity_bounds_example : (c : ℕ) × (next_capacity 17 ≡ some c) × (17 ≤ c) × (c ≤ 2 * 17)
next_capacity_bounds_example = next_capacity_bounds 17 (omega arith) (omega arith)

next_capacity_undefined_test : next_capacity (2 ^ 30 + 1) ≡ none
next_capacity_undefined_test =
    next_capacity_undefined (2 ^ 30 + 1) (omega arith) (omega arith) (ground arith)

string_append_view-Gives_example :
    Gives
      (string_append_view (some junk) string_init (view (codes "a text beyond the small buffer")))
      (codes "a text beyond the small buffer")
string_append_view-Gives_example =
    string_append_view-Gives junk string_init (view (codes "a text beyond the small buffer"))
      string_init-IsValid (omega arith)

push_back_test : Gives (string_push_back (some junk) string_init b'/') (b'/' ∷ [])
push_back_test = string_push_back-Gives junk string_init b'/' string_init-IsValid (omega arith)

string_append_view_refused_example :
    (string_append_view none string_init (view (codes "text")) ≡ some (string_init, false))
    × (string_push_back none string_init b'/' ≡ some (string_init, true))
string_append_view_refused_example =
    string_append_view_refused string_init (view (codes "text")) b'/' string_init-IsValid
      (omega arith) (omega arith)

init_test :
    Gives
      (string_init_from_string_view (some junk) (view (codes "src/http/index.html")))
      (codes "src/http/index.html")
init_test =
    string_init_from_string_view-Gives junk (view (codes "src/http/index.html")) (omega arith)

string_assign_view-Gives_example :
    Gives (string_assign_view (some junk) string_init (view (codes "host"))) (codes "host")
string_assign_view-Gives_example =
    string_assign_view-Gives junk string_init (codes "host") string_init-IsValid (omega arith)
      (inl refl)

abbrev old_block : Bytes
old_block = codes "abc" ++ (0 ∷ [])

old-IsValid : IsValid (mk (replicate 16 0) (heap old_block) 4 4)
old-IsValid = ground arith

string_assign_view_grow_example :
    (s : StringT) × (string_assign_view
        (some junk)
        (mk (replicate 16 0) (heap old_block) 4 4)
        (view (codes "defgh"))
      ≡ some (s, true))
    × IsValid s
    × (string_len s ≡ 5)
    × (take 4 (contents s) ≡ take 4 old_block)
string_assign_view_grow_example =
    string_assign_view_grow junk (replicate 16 0) old_block 4 4 (codes "defgh") old-IsValid
      (omega arith) (omega arith)

string_resize-Gives_example :
    Gives
      (string_resize (some junk) (mk (replicate 16 0) (heap old_block) 4 4) 5)
      (codes "abc" ++ (0 ∷ 0 ∷ []))
string_resize-Gives_example =
    string_resize-Gives junk (mk (replicate 16 0) (heap old_block) 4 4) 5 old-IsValid (ground arith)
      (ground arith) (omega arith) (omega arith)

int_to_string_t-Gives_example : Gives (int_to_string_t (some junk) (negsuc 2233)) (codes "-2234")
unfolding decimal digits_onto
int_to_string_t-Gives_example = int_to_string_t-Gives junk (negsuc 2233) 2234 refl (omega arith)

string_reserve-Reserves_example :
    (s' : StringT) × (string_reserve (some junk) string_init 20 ≡ some (s', true))
    × Reserves string_init 20 s'
string_reserve-Reserves_example =
    string_reserve-Reserves junk string_init 20 string_init-IsValid refl (omega arith) (omega arith)
