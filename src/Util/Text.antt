-- ===== src/Util/Text.antt =====
-- What the clients of src/util/string_t.c rely on: a string is made from a text, and a text is put
-- behind it. `string_text` fills the interface from the functions of the component and their theorems.
use litehttp_c.Base.{
  ℕ, ◌+◌, ◌^◌, ◌≤◌, ◌<◌, ◌≡◌, refl, sym, ◌∙◌, ap, List, [], ◌∷◌, ◌++◌, Option, some, Bytes, length,
  arith, ◌>>=◌, append-nil, append_assoc, length-append, length-take,
}
use litehttp_c.Util.StringView.{view}
use litehttp_c.Util.StringT.{StringT, string_init, string_init_from_string_view, string_len, buffer}
use litehttp_c.Util.StringT.Change.{string_append_view}
use litehttp_c.Util.StringT.Valid.{IsValid, contents, string_init-IsValid}
use litehttp_c.Util.StringT.Append.{string_append_view-Gives}
use litehttp_c.Util.StringT.Init.{string_init_from_string_view-Gives}

-- The callers drop the verdicts of the appends; memory is granted. `none` is a fault.
pub record Text : Type 1 where
  pub Str : Type 0
  pub Valid : Str → Type 0
  pub text : Str → Bytes
  pub init : Str
  pub init_Valid : Valid init
  pub init_text : text init ≡ []
  pub of_cstr : Bytes → Option Str
  pub of_cstr_lem :
      (bs : Bytes)
      → length bs + 1 < 2 ^ 30
      → (s : Str) × (of_cstr bs ≡ some s) × Valid s × (text s ≡ bs)
  pub append : Str → Bytes → Option Str
  pub append_lem :
      (s : Str) (bs : Bytes)
      → Valid s
      → length bs + length (text s) + 1 < 2 ^ 30
      → (s' : Str) × (append s bs ≡ some s') × Valid s' × (text s' ≡ text s ++ bs)

abbrev pub concat : List Bytes → Bytes
concat [] = []
concat (piece ∷ pieces) = piece ++ concat pieces

-- The appends of one function, one after the other.
module _ (T : Text) where
  abbrev pub append_each : T.Str → List Bytes → Option T.Str
  append_each s [] = some s
  append_each s (piece ∷ pieces) = T.append s piece >>= λ s'. append_each s' pieces

  pub append_each_lem :
      (pieces : List Bytes) (s : T.Str)
      → T.Valid s
      → length (concat pieces) + length (T.text s) + 1 < 2 ^ 30
      → (s' : T.Str) × (append_each s pieces ≡ some s')
        × T.Valid s'
        × (T.text s' ≡ T.text s ++ concat pieces)
  append_each_lem [] s v h = (s, refl, v, sym (append-nil (T.text s)))
  append_each_lem (p ∷ ps) s v h =
      let n = length-append p (concat ps) in
      let (s1, e1, v1, t1) = T.append_lem s p v (omega arith) in
      let (s2, e2, v2, t2) =
        append_each_lem ps s1 v1
          (omega (arith, ap (λ (t : Bytes). length t) t1, length-append (T.text s) p)) in
      (s2, rw e1 e2, v2, t2 ∙ ap (λ t. t ++ concat ps) t1 ∙ append_assoc (T.text s) p (concat ps))

pub string_len-contents : (s : StringT) → IsValid s → string_len s ≤ length (contents s)
string_len-contents s v = ground (arith, length-take (string_len s) (buffer s), v.in_bounds)

abbrev pub string_text : (ℕ → ℕ) → Text
string_text junk = record {
  Str = StringT;
  Valid = IsValid;
  text = contents;
  init = string_init;
  init_Valid = string_init-IsValid;
  init_text = refl;
  of_cstr = λ bs. string_init_from_string_view (some junk) (view bs) >>= λ r. some r.0;
  of_cstr_lem = λ bs h.
      let (s, e, v, t) = string_init_from_string_view-Gives junk (view bs) h in
      (s, rw e refl, v, t);
  append = λ s bs. string_append_view (some junk) s (view bs) >>= λ r. some r.0;
  append_lem = λ s bs v h.
      let (s', e, v', t) =
        string_append_view-Gives junk s (view bs) v (omega (arith, string_len-contents s v)) in
      (s', rw e refl, v', t);
}
