-- ===== src/Api/Sql/Conditions.antt =====
-- What SQL reads in the conditions: the values of the request as literals, and nothing more.
use mathlib.Core.Path.{subst}
use mathlib.Core.Option.{some-injective}
use text.Mathlib.TextLemmas.{append_assoc, append-nil}
use teehr_cloud_core.Base.{
  String, ◌≡◌, refl, sym, ap, ◌∙◌, inl, inr, false, Option, none, some, List, [], ◌∷◌, ◌++◌, map,
  All, ◌<>◌, has_char, ok, Result-cases, >>=-passed, ok-injective,
}
use teehr_cloud_core.Api.Database.{sanitize_string}
use teehr_cloud_core.Api.Database.Sanitized.{sanitize_string-has_char}
use teehr_cloud_core.Api.Sql.{sanitized, sanitize_all, join, quoted, in_list, given, in_condition}
use teehr_cloud_core.Api.Sql.Literals.{
  quote, literals, literals-skip, literals-quoted, literals_from,
}

abbrev pub HasNoQuote : String → Type 0
HasNoQuote s = has_char quote s ≡ false

sanitized-safe :
    (value safe : String) → sanitized value ≡ ok safe → (value ≡ safe) × HasNoQuote safe
unfolding sanitized
sanitized-safe value safe e = elim (Result-cases (sanitize_string (some value))) [
  | inr (fault, f) ↦ cc (rw (sanitized, f) at e)
  | inl (s, f) ↦
      let same : s ≡ safe = ok-injective _ _ (rw (sanitized, f) at e) in
      let (whole, plain) = sanitize_string-has_char (some value) s quote f (refl, refl) in
      (some-injective _ _ whole ∙ same, rw (← same) plain)
]

sanitize_all-safe :
    (values safe : List String)
    → sanitize_all values ≡ ok safe
    → (values ≡ safe) × All HasNoQuote safe
unfolding sanitize_all
sanitize_all-safe [] safe e = let same = ok-injective _ _ e in (same, rw (← same) tt)
sanitize_all-safe (value ∷ values) safe e =
    let (first, f, e1) = >>=-passed (sanitized value) _ e in
    let (rest, r, e2) = >>=-passed (sanitize_all values) _ e1 in
    let (same, plain) = sanitized-safe value first f in
    let (sames, plains) = sanitize_all-safe values rest r in
    let whole : first ∷ rest ≡ safe = ok-injective _ _ e2 in
    (rw (same, sames) whole, subst (All HasNoQuote) whole (plain, plains))

-- the texts between the literals of a joined list
literals-join :
    (values : List String) (t : String)
    → All HasNoQuote values
    → literals (join ", " (map quoted values) <> t) ≡ values ++ literals t
unfolding join has_char
literals-join [] t plain = literals-skip "" t refl
literals-join (v ∷ []) t (plain, _) = literals-quoted v t plain
literals-join (v ∷ w ∷ values) t (plain, plains) =
    let rest = literals-join (w ∷ values) t plains in
    rw (join, append_assoc (quoted v) (", " <> join ", " (map quoted (w ∷ values))) t)
      (literals-quoted v _ plain
        ∙ ap (λ l. v ∷ l)
            (ap literals (append_assoc ", " (join ", " (map quoted (w ∷ values))) t)
              ∙ literals-skip ", " _ refl
              ∙ rest))

pub literals-in_list :
    (column : String) (values : List String) (t : String)
    → HasNoQuote column
    → All HasNoQuote values
    → literals (in_list column values <> t) ≡ values ++ literals t
unfolding has_char
literals-in_list column values t plain plains =
    ap literals (append_assoc column (" IN (" <> (join ", " (map quoted values) <> ")")) t)
    ∙ literals-skip column _ plain
    ∙ ap literals (append_assoc " IN (" (join ", " (map quoted values) <> ")") t)
    ∙ literals-skip " IN (" _ refl
    ∙ ap literals (append_assoc (join ", " (map quoted values)) ")" t)
    ∙ literals-join values (")" <> t) plains
    ∙ ap (λ l. values ++ l) (literals-skip ")" t refl)

++_nil : (xs : List String) → xs ++ [] ≡ xs
++_nil [] = refl
++_nil (x ∷ xs) = ap (λ l. x ∷ l) (++_nil xs)

whole_literals :
    (column : String) (values : List String)
    → HasNoQuote column
    → All HasNoQuote values
    → literals (in_list column values) ≡ values
unfolding literals_from
whole_literals column values plain plains =
    ap literals (sym (append-nil (in_list column values)))
    ∙ literals-in_list column values "" plain plains
    ∙ ++_nil values

-- The conditions of a parameter, one after the other.
abbrev pub literals_of : List String → List String
literals_of [] = []
literals_of (c ∷ cs) = literals c ++ literals_of cs

-- If the values of a parameter pass the sanitiser, and the column has no quote, then the literals that
-- SQL reads in the condition are those values, in their order.
pub in_condition-literals :
    (column : String) (values : Option (List String)) (conditions : List String)
    → HasNoQuote column
    → in_condition column values ≡ ok conditions
    → literals_of conditions ≡ given values
unfolding in_condition
in_condition-literals column none conditions plain e = ap literals_of (sym (ok-injective _ _ e))
in_condition-literals column (some []) conditions plain e =
    ap literals_of (sym (ok-injective _ _ e))
in_condition-literals column (some (v ∷ vs)) conditions plain e =
    let (safe, f, e1) = >>=-passed (sanitize_all (v ∷ vs)) _ e in
    let (same, plains) = sanitize_all-safe (v ∷ vs) safe f in
    let shape : in_list column safe ∷ [] ≡ conditions = ok-injective _ _ e1 in
    ap literals_of (sym shape)
    ∙ ap (λ l. l ++ []) (whole_literals column safe plain plains)
    ∙ ++_nil safe
    ∙ sym same
