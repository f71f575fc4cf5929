-- ===== src/Api/Sql/Literals.antt =====
-- How SQL reads the literals of a text: from a quote to the next one.
use text.Mathlib.TextLemmas.{cons-append, nil-append, append_assoc}
use teehr_cloud_core.Base.{
  ℕ, Char, code, String, ◌≡◌, refl, ap, ◌∙◌, Bool, true, false, List, [], ◌∷◌, arith, eqb,
  if◌then◌else◌, ◌<>◌, has_char,
}
use teehr_cloud_core.Api.Sql.{quoted}

abbrev pub quote : ℕ
quote = 39

-- in a literal, its first character is `c`
abbrev pub prepend : Char → List String → List String
prepend c [] = String.◌∷◌ c "" ∷ []
prepend c (s ∷ ss) = String.◌∷◌ c s ∷ ss

-- The flag says whether the text starts within a literal.
unfoldable pub literals_from : Bool → String → List String
literals_from inside String.[] = if inside then "" ∷ [] else []
literals_from inside (String.◌∷◌ c s) =
    let ended = literals_from false s in
    let inner = literals_from true s in
    if inside
    then (if eqb (code c) quote then "" ∷ ended else prepend c inner)
    else if eqb (code c) quote
    then inner
    else ended

abbrev pub literals : String → List String
literals s = literals_from false s

pub literals-skip : (s t : String) → has_char quote s ≡ false → literals (s <> t) ≡ literals t
unfolding literals_from has_char
literals-skip String.[] t h = rw nil-append refl
literals-skip (String.◌∷◌ c s) t h =
    let apart : eqb (code c) quote ≡ false = ground (arith, h) in
    let rest : has_char quote s ≡ false = ground (arith, h) in
    rw (cons-append c s t, literals_from, apart) (literals-skip s t rest)

literals_from-inside :
    (s t : String)
    → has_char quote s ≡ false
    → literals_from true (s <> (String.◌∷◌ "'" t)) ≡ s ∷ literals t
unfolding literals_from has_char
literals_from-inside String.[] t h = rw nil-append refl
literals_from-inside (String.◌∷◌ c s) t h =
    let apart : eqb (code c) quote ≡ false = ground (arith, h) in
    let rest : has_char quote s ≡ false = ground (arith, h) in
    rw (cons-append c s (String.◌∷◌ "'" t), literals_from, apart, literals_from-inside s t rest)
      refl

quote-append : (t : String) → "'" <> t ≡ String.◌∷◌ "'" t
quote-append t = cons-append "'" "" t ∙ ap (λ s. String.◌∷◌ "'" s) (nil-append t)

-- A quoted text without a quote is read as one literal.
pub literals-quoted :
    (s t : String) → has_char quote s ≡ false → literals (quoted s <> t) ≡ s ∷ literals t
unfolding literals_from
literals-quoted s t h =
    ap literals (
      append_assoc "'" (s <> "'") t
      ∙ ap (λ u. "'" <> u) (append_assoc s "'" t)
      ∙ quote-append (s <> ("'" <> t))
      ∙ ap (λ u. String.◌∷◌ "'" (s <> u)) (quote-append t))
    ∙ literals_from-inside s t h
