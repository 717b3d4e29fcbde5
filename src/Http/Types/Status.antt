-- ===== src/Http/Types/Status.antt =====
-- The digits of a status code, as src/http/http_types.c writes them.
use litehttp_c.Base.{
  ℕ, ◌+◌, ◌-◌, ◌*◌, ◌/◌, ◌%◌, ◌≤◌, ◌≡◌, refl, true, ◌∷◌, Bytes, length, get_or, drop, length-drop,
  pos, arith, ge→ltb,
}
use litehttp_c.Http.Types.{http_get_status_sv}

-- The number that three decimal digits at the front of a buffer stand for.
abbrev pub three_digits_value : Bytes → ℕ
three_digits_value buf =
    (get_or buf 0 0 - b'0') * 100 + (get_or buf 1 0 - b'0') * 10 + (get_or buf 2 0 - b'0')

-- For a status code from 100 to 600 and a buffer of at least four bytes, `http_get_status_sv` succeeds
-- within the buffer: its first three bytes are decimal digits that stand for the code, and the fourth
-- ends the text.
pub http_get_status_sv_lem :
    (code : ℕ) (buf : Bytes)
    → 100 ≤ code
    → code ≤ 600
    → 4 ≤ length buf
    → (b : Bytes) × (http_get_status_sv (pos code) buf ≡ (b, true))
      × (length b ≡ length buf)
      × (three_digits_value b ≡ code)
      × (get_or b 3 1 ≡ 0)
unfolding http_get_status_sv
http_get_status_sv_lem code buf lo hi room = (
  (code / 100 + b'0') ∷ (code / 10 % 10 + b'0') ∷ (code % 10 + b'0') ∷ 0 ∷ drop 4 buf,
  rw (ge→ltb 600 code hi, ge→ltb code 100 lo) refl,
  omega (arith, length-drop 4 buf),
  omega arith,
  refl,
)
