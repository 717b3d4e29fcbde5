-- ===== src/Http/Feed/Pieces/Split.antt =====
-- Where a text that arrives in pieces for `http_parse_feed` of src/http/http_parse_dfa.c can be cut.
use litehttp_c.Base.{
  ℕ, get_or, drop, ◌≡◌, refl, ap, ◌∙◌, ◌⊎◌, inl, inr, List, [], ◌∷◌, ◌++◌, none, Bytes, arith,
}
use litehttp_c.Http.ParseCtx.{find_clrf}
use litehttp_c.Http.ParseCtx.HeaderLine.{header_line}
use litehttp_c.Http.ParseCtx.Scan.{Lacks, Lacks-append}
use litehttp_c.Http.Feed.Fields.{AreFields, fields_text}

-- A line that has arrived whole, with what has arrived behind it.
pub record Line (line t y rest : Bytes) : Type 0 where
  pub behind : Bytes
  pub front_is : t ≡ line ++ (b'\r' ∷ b'\n' ∷ behind)
  pub rest_is : behind ++ y ≡ rest

cons_Line : (l : ℕ) (line t y rest : Bytes) → Line line t y rest → Line (l ∷ line) (l ∷ t) y rest
cons_Line l line t y rest w = record {
  behind = w.behind;
  front_is = ap (◌∷◌ l) w.front_is;
  rest_is = w.rest_is;
}

pub cut_front :
    (line t y rest : Bytes)
    → Lacks b'\r' line
    → t ++ y ≡ line ++ (b'\r' ∷ b'\n' ∷ rest)
    → (find_clrf t ≡ none) ⊎ Line line t y rest
unfolding find_clrf
cut_front line [] y rest h e = inl refl
cut_front line (a ∷ []) y rest h e = inl refl
cut_front [] (a ∷ b ∷ r) y rest h e =
    let cr : a ≡ b'\r' = ap (λ t. get_or t 0 0) e in
    let lf : b ≡ b'\n' = ap (λ t. get_or t 1 0) e in
    inr (record { behind = r; front_is = rw (cr, lf) refl; rest_is = ap (drop 2) e })
cut_front (l ∷ ls) (a ∷ b ∷ r) y rest h e =
    let same : a ≡ l = ap (λ t. get_or t 0 0) e in
    elim (cut_front ls (b ∷ r) y rest h.1 (ap (drop 1) e)) [
      | inl n ↦ inl (ground (arith, n, same, h.0))
      | inr w ↦ inr (rw same (cons_Line l ls (b ∷ r) y rest w))
    ]

-- Fields and part of a line have arrived.
pub record Partway (fields : List (Bytes × Bytes)) (t y body : Bytes) : Type 0 where
  pub read : List (Bytes × Bytes)
  pub awaited : List (Bytes × Bytes)
  pub part : Bytes
  pub fields_are : fields ≡ read ++ awaited
  pub front_is : t ≡ fields_text read part
  pub no_line : find_clrf part ≡ none
  pub rest_is : part ++ y ≡ fields_text awaited (b'\r' ∷ b'\n' ∷ body)

-- All the fields, the blank line and part of the body have arrived.
pub record Through (fields : List (Bytes × Bytes)) (t y body : Bytes) : Type 0 where
  pub part : Bytes
  pub front_is : t ≡ fields_text fields (b'\r' ∷ b'\n' ∷ part)
  pub rest_is : part ++ y ≡ body

header_line-Lacks :
    (field : Bytes × Bytes)
    → Lacks b'\r' field.0
    → Lacks b'\r' field.1
    → Lacks b'\r' (header_line field)
header_line-Lacks (name, value) n v = Lacks-append b'\r' name _ n ((λ e. cc), ((λ e. cc), v))

add_field :
    (field : Bytes × Bytes) (fields : List (Bytes × Bytes)) (t y body u : Bytes)
    → t ≡ header_line field ++ (b'\r' ∷ b'\n' ∷ u)
    → Partway fields u y body ⊎ Through fields u y body
    → Partway (field ∷ fields) t y body ⊎ Through (field ∷ fields) t y body
add_field field fields t y body u e (inl w) = inl (record {
  read = field ∷ w.read;
  awaited = w.awaited;
  part = w.part;
  fields_are = ap (◌∷◌ field) w.fields_are;
  front_is = e ∙ ap (λ v. header_line field ++ (b'\r' ∷ b'\n' ∷ v)) w.front_is;
  no_line = w.no_line;
  rest_is = w.rest_is;
})
add_field field fields t y body u e (inr w) = inr (record {
  part = w.part;
  front_is = e ∙ ap (λ v. header_line field ++ (b'\r' ∷ b'\n' ∷ v)) w.front_is;
  rest_is = w.rest_is;
})

-- Wherever a text of fields and a body is cut, its front is one of the two.
pub fields_split :
    (fields : List (Bytes × Bytes)) (t y body : Bytes)
    → AreFields fields
    → t ++ y ≡ fields_text fields (b'\r' ∷ b'\n' ∷ body)
    → Partway fields t y body ⊎ Through fields t y body
fields_split [] t y body a e = elim (cut_front [] t y body tt e) [
  | inl n ↦ inl (record {
    read = [];
    awaited = [];
    part = t;
    fields_are = refl;
    front_is = refl;
    no_line = n;
    rest_is = e;
  })
  | inr w ↦ inr (record { part = w.behind; front_is = w.front_is; rest_is = w.rest_is })
]
fields_split (field ∷ fields) t y body a e =
    elim (cut_front (header_line field) t y _ (header_line-Lacks field a.0.1 a.0.2) e) [
      | inl n ↦ inl (record {
        read = [];
        awaited = field ∷ fields;
        part = t;
        fields_are = refl;
        front_is = refl;
        no_line = n;
        rest_is = e;
      })
      | inr w ↦
          add_field field fields t y body w.behind w.front_is
            (fields_split fields w.behind y body a.1 w.rest_is)
    ]
