-- ===== src/Http/ParseCtx/Scan.antt =====
-- `update_ctx_to_next_clrf` and `pos_next_token` of src/http/http_parse_dfa.c: where they stop.
use litehttp_c.Base.{
  ℕ, zero, suc, ◌+◌, ◌≤◌, ◌≡◌, ◌≢◌, refl, [], ◌∷◌, ◌++◌, some, Bytes, length, arith,
}
use litehttp_c.Http.ParseCtx.{find_clrf, find_char}

pub find_clrf-lt : (bs : Bytes) (i : ℕ) → find_clrf bs ≡ some i → i + 2 ≤ length bs
unfolding find_clrf
find_clrf-lt [] i e = absurd (ground arith)
find_clrf-lt (x ∷ []) i e = absurd (ground arith)
find_clrf-lt (x ∷ y ∷ r) zero e = omega arith
find_clrf-lt (x ∷ y ∷ r) (suc i) e = ground (arith, find_clrf-lt (y ∷ r) i)

-- No byte of the text is `c`.
abbrev pub Lacks : ℕ → Bytes → Type 0
Lacks c [] = Unit {0}
Lacks c (x ∷ xs) = (x ≢ c) × Lacks c xs

pub Lacks-append : (c : ℕ) (xs ys : Bytes) → Lacks c xs → Lacks c ys → Lacks c (xs ++ ys)
Lacks-append c [] ys h k = k
Lacks-append c (x ∷ xs) ys h k = (h.0, Lacks-append c xs ys h.1 k)

pub find_clrf_line :
    (line rest : Bytes)
    → Lacks b'\r' line
    → find_clrf (line ++ (b'\r' ∷ b'\n' ∷ rest)) ≡ some (length line)
unfolding find_clrf
find_clrf_line [] rest h = refl
find_clrf_line (x ∷ []) rest h = ground arith
find_clrf_line (x ∷ y ∷ r) rest h = ground (arith, find_clrf_line (y ∷ r) rest h.1)

pub find_char_token :
    (c : ℕ) (token rest : Bytes)
    → Lacks c token
    → find_char c (token ++ (c ∷ rest)) ≡ some (length token)
unfolding find_char
find_char_token c [] rest h = ground arith
find_char_token c (x ∷ xs) rest h = ground (arith, find_char_token c xs rest h.1)
