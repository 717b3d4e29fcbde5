-- ===== src/Http/ParseCtx/Tokens.antt =====
-- `parse_request_line` of src/http/http_parse_dfa.c on a line of three tokens.
use litehttp_c.Base.{
  ℕ, ◌+◌, ◌-◌, ◌^◌, ◌≤◌, ◌<◌, ◌≡◌, refl, ap, sym, ◌∙◌, Bool, true, [], ◌∷◌, ◌++◌, some, Bytes,
  length, drop, take, arith, ltb, leb, ◌==◌, ==_iff, size_sub, length-append, append_assoc,
  append-nil, take-append_self, drop-append_self, drop_past, le→leb, take_all, length-drop,
  Bool-cases, inl, inr, ltb→lt, ltb→ge, leb→le, length-take, if◌then◌else◌,
}
use litehttp_c.Util.ErrorCode.{http_success}
use litehttp_c.Util.StringView.{view, string_view_substr}
use litehttp_c.Http.Types.{http_match_method, http_match_version}
use litehttp_c.Http.Request.{HttpRequest}
use litehttp_c.Http.ParseCtx.{
  HttpParseCtx, Build, debug, release, check, Mem, substr, pos_next_token, parse_request_line,
  parse_path, set_request, parse_version,
}
use litehttp_c.Http.ParseCtx.Scan.{Lacks, find_char_token}

-- A part of a text that ends behind it is its last bytes.
pub substr_lem :
    (text : Bytes) (start len : ℕ)
    → start + len ≤ length text
    → substr text start len ≡ take len (drop start text)
unfolding string_view_substr
substr_lem text start len h = elim (Bool-cases (leb (length text) start)) [
  | inl past ↦
      let none_left : len ≡ 0 = omega (arith, leb→le (length text) start past) in
      rw (past, none_left) refl
  | inr inside ↦ elim (Bool-cases (ltb len (length text - start))) [
    | inl part ↦ rw (inside, part) refl
    | inr rest ↦
        let all : length text - start ≡ len =
          omega (arith, ltb→ge len (length text - start) rest) in
        rw (inside, rest) (ap (λ n. take n (drop start text)) all)
  ]
]

-- A part that would end behind its text is the rest of the text.
pub substr_rest :
    (text : Bytes) (start len : ℕ)
    → length text - start ≤ len
    → substr text start len ≡ drop start text
unfolding string_view_substr
substr_rest text start len h = elim (Bool-cases (leb (length text) start)) [
  | inl past ↦ rw past (sym (drop_past start text (leb→le (length text) start past)))
  | inr inside ↦
      let whole =
        take_all (length text - start) (drop start text) (omega (arith, length-drop start text)) in
      elim (Bool-cases (ltb len (length text - start))) [
        | inl part ↦ absurd (omega (arith, ltb→lt len (length text - start) part))
        | inr rest ↦ rw (inside, rest) whole
      ]
]

-- A part in the middle of a text.
-- A part is no longer than its text.
pub substr-le : (text : Bytes) (start len : ℕ) → length (substr text start len) ≤ length text
unfolding string_view_substr
substr-le text start len = elim (Bool-cases (leb (length text) start)) [
  | inl past ↦ rw past (omega arith)
  | inr inside ↦
      let n = if ltb len (length text - start) then len else length text - start in
      rw inside (ground (arith, length-take n (drop start text), length-drop start text))
]

pub substr_middle :
    (a b c : Bytes) (start len : ℕ)
    → start ≡ length a
    → len ≡ length b
    → substr (a ++ (b ++ c)) start len ≡ b
substr_middle a b c start len e f =
    substr_lem (a ++ (b ++ c)) start len
      (omega (arith, length-append a (b ++ c), length-append b c))
    ∙ ap (take len) (drop-append_self start a (b ++ c) e)
    ∙ take-append_self len b c f

-- A token behind `start`, with its separator.
pub pos_next_token_lem :
    (a token rest : Bytes) (c start : ℕ)
    → start ≡ length a
    → Lacks c token
    → pos_next_token (a ++ (token ++ (c ∷ rest))) c start
      ≡ some (length token, start + length token + 1)
unfolding pos_next_token
pos_next_token_lem a token rest c start e h =
    rw
      (
        pos_next_token,
        drop-append_self start a (token ++ (c ∷ rest)) e,
        pos_next_token,
        find_char_token c token rest h,
      )
      refl

-- The request that a request line with these three tokens makes of a new one.
abbrev pub line_of : Bytes → Bytes → Bytes → Bytes
line_of method path version = method ++ (b' ' ∷ (path ++ (b' ' ∷ version)))

pub check-true : (build : Build) (b : Bool) → b ≡ true → check build b ≡ some tt
check-true debug b h = rw h refl
check-true release b h = refl

-- The place behind the first space, and the place behind the second.
abbrev path_at : Bytes → ℕ
path_at method = 0 + length method + 1

abbrev version_at : Bytes → Bytes → ℕ
version_at method path = path_at method + length path + 1

module _ (method path version : Bytes) where
  abbrev front : Bytes
  front = method ++ (b' ' ∷ [])

  split_path : line_of method path version ≡ front ++ (path ++ (b' ' ∷ version))
  split_path = sym (append_assoc method (b' ' ∷ []) (path ++ (b' ' ∷ version)))

  split_version : line_of method path version ≡ (front ++ (path ++ (b' ' ∷ []))) ++ (version ++ [])
  split_version =
      split_path
      ∙ ap (λ t. front ++ t) (sym (append_assoc path (b' ' ∷ []) version))
      ∙ sym (append_assoc front (path ++ (b' ' ∷ [])) version)
      ∙ ap (λ t. (front ++ (path ++ (b' ' ∷ []))) ++ t) (sym (append-nil version))

  length-front : path_at method ≡ length front
  length-front = omega (arith, length-append method (b' ' ∷ []))

  length-line : length (line_of method path version) ≡ version_at method path + length version
  length-line = omega (
    arith,
    length-append method (b' ' ∷ (path ++ (b' ' ∷ version))),
    length-append path (b' ' ∷ version),
  )

  first_token :
      Lacks b' ' method
      → pos_next_token (line_of method path version) b' ' 0 ≡ some (length method, path_at method)
  first_token h = pos_next_token_lem [] method (path ++ (b' ' ∷ version)) b' ' 0 refl h

  second_token :
      Lacks b' ' path
      → pos_next_token (line_of method path version) b' ' (path_at method)
        ≡ some (length path, version_at method path)
  second_token h =
      ap (λ t. pos_next_token t b' ' (path_at method)) split_path
      ∙ pos_next_token_lem front path version b' ' (path_at method) length-front h

  method_part : substr (line_of method path version) 0 (length method) ≡ method
  method_part =
      substr_middle [] method (b' ' ∷ (path ++ (b' ' ∷ version))) 0 (length method) refl refl

  path_part : substr (line_of method path version) (path_at method) (length path) ≡ path
  path_part =
      ap (λ t. substr t (path_at method) (length path)) split_path
      ∙ substr_middle front path (b' ' ∷ version) (path_at method) (length path) length-front refl

  version_part :
      (n : ℕ)
      → n ≡ length version
      → substr (line_of method path version) (version_at method path) n ≡ version
  version_part n e =
      ap (λ t. substr t (version_at method path) n) split_version
      ∙ substr_middle (front ++ (path ++ (b' ' ∷ []))) version [] (version_at method path) n
          (omega (
            arith,
            length-append front (path ++ (b' ' ∷ [])),
            length-append path (b' ' ∷ []),
            length-front,
          ))
          e

module _ (mem : Mem) (c : HttpParseCtx) (method path version : Bytes)
    (line : c.request_line ≡ line_of method path version) (at_start : c.cur ≡ 0)
    (placed : c.next_line ≡ length (line_of method path version) + 2) (fits : c.next_line < 2 ^ 64)
    (memory : mem.path_ok ≡ true) where
  parse_version_lem :
      (req : HttpRequest)
      → parse_version c req (version_at method path)
        ≡ (set_request c (record req { version = http_match_version (view version) }), http_success)
  parse_version_lem req =
      let n = size_sub (c.next_line - 2) (version_at method path) in
      let e : n ≡ length version = omega (arith, length-line method path version) in
      let part =
        ap (λ t. substr t (version_at method path) n) line ∙ version_part method path version n e in
      ap (λ v. (set_request c (record req { version = http_match_version (view v) }), http_success))
        part

  parse_path_lem :
      (build : Build) (req : HttpRequest)
      → Lacks b' ' path
      → parse_path build mem c req (path_at method)
        ≡ some (
          set_request c (record req { path = path; version = http_match_version (view version) }),
          http_success,
        )
  unfolding parse_path
  parse_path_lem build req h =
      let token =
        ap (λ t. pos_next_token t b' ' (path_at method)) line
        ∙ second_token method path version h in
      let part =
        ap (λ t. substr t (path_at method) (length path)) line ∙ path_part method path version in
      let before_end =
        check-true build (leb (version_at method path) c.next_line)
          (le→leb _ _ (omega (arith, length-line method path version))) in
      let behind_cur =
        check-true build (leb c.cur (version_at method path)) (le→leb _ _ (omega arith)) in
      rw (token, parse_path, before_end, behind_cur, part)
        (simp memory (rw (parse_version_lem (record req { path = path })) refl))

  -- What `parse_request_line` makes of the node.
  pub parse_request_line_lem :
      (build : Build)
      → Lacks b' ' method
      → Lacks b' ' path
      → parse_request_line build mem c
        ≡ some (
          set_request c (record c.http_request {
            method = http_match_method (view method);
            path = path;
            version = http_match_version (view version);
          }),
          http_success,
        )
  unfolding parse_request_line
  parse_request_line_lem build h k =
      let token = ap (λ t. pos_next_token t b' ' 0) line ∙ first_token method path version h in
      let part = ap (λ t. substr t 0 (length method)) line ∙ method_part method path version in
      let before_end =
        check-true build (leb (path_at method) c.next_line)
          (le→leb _ _ (omega (arith, length-line method path version))) in
      let behind_cur = check-true build (leb c.cur (path_at method)) (le→leb _ _ (omega arith)) in
      let whole = check-true build (length method == length method) ((==_iff _ _).1 refl) in
      rw (token, parse_request_line, before_end, behind_cur, part, whole)
        (parse_path_lem build (record c.http_request { method = http_match_method (view method) })
          k)
