-- ===== src/Api/Records/Filters.antt =====
-- What is read of a name in the query of a link, as api/src/routes encode it.
use mathlib.Core.List.{append-nil, append_assoc}
use teehr_cloud_core.Base.{
  ℕ, String, ◌≡◌, refl, sym, ap, ◌∙◌, inl, inr, true, false, not, ◌&&◌, List, [], ◌∷◌, ◌++◌, map,
  arith, eq_iff, if◌then◌else◌, Bool-cases, contains, or_default, ◌==◌, is_some,
}
use teehr_cloud_core.Base.Decimal.{decimal, decimal_filled}
use teehr_cloud_core.Base.Dict.{
  Dict, lookup, insert, keys, has_key-contains, lookup-insert, lookup_of_absent,
}
use teehr_cloud_core.Api.Links.{Query, group_values, parse_qs, first_values, set_page}
use teehr_cloud_core.Api.Records.Pages.{take}
use teehr_cloud_core.Api.Records.{all_values}

-- The values of a name that are not empty, in order.
unfoldable pub given_values : String → Query → List String
given_values name [] = []
given_values name ((n, value) ∷ query) =
    let rest = given_values name query in
    if n == name && not (value == "") then value ∷ rest else rest

abbrev pub AreFilled : List String → Type 0
AreFilled [] = Unit
AreFilled (value ∷ values) = ((value == "") ≡ false) × AreFilled values

-- No name is listed twice, and no value is empty.
abbrev pub AreParams : Dict (List String) → Type 0
AreParams [] = Unit
AreParams ((name, values) ∷ params) =
    (contains name (keys params) ≡ false) × AreFilled values × AreParams params

-- What a page sets in a query, and what it leaves.
abbrev pub paged_values : ℕ → ℕ → String → Query → List String
paged_values offset limit name query =
    if "limit" == name
    then decimal limit ∷ []
    else if "offset" == name
    then decimal offset ∷ []
    else given_values name query

given_values-append :
    (name : String) (xs ys : Query)
    → given_values name (xs ++ ys) ≡ given_values name xs ++ given_values name ys
unfolding given_values
given_values-append name [] ys = refl
given_values-append name ((n, value) ∷ xs) ys =
    let rest = given_values-append name xs ys in
    elim (Bool-cases (n == name && not (value == ""))) [
      | inl e ↦ rw e (ap (◌∷◌ value) rest)
      | inr e ↦ rw e rest
    ]

given_values-map :
    (name n : String) (values : List String)
    → AreFilled values
    → given_values name (map (λ value. (n, value)) values) ≡ (if n == name then values else [])
unfolding given_values
given_values-map name n [] h = elim (Bool-cases (n == name)) [
  | inl e ↦ rw e refl
  | inr e ↦ rw e refl
]
given_values-map name n (value ∷ values) (filled, h) =
    let rest = given_values-map name n values h in
    elim (Bool-cases (n == name)) [
      | inl e ↦ rw (e, filled) (ap (◌∷◌ value) (rest ∙ rw e refl))
      | inr e ↦ rw e (rest ∙ rw e refl)
    ]

pub given_values-all_values :
    (name : String) (params : Dict (List String))
    → AreParams params
    → given_values name (all_values params) ≡ or_default (lookup name params) []
unfolding given_values all_values lookup
given_values-all_values name [] h = refl
given_values-all_values name ((n, values) ∷ params) (fresh, filled, h) =
    let rest = given_values-all_values name params h in
    given_values-append name (map (λ value. (n, value)) values) (all_values params)
    ∙ ap (λ l. l ++ given_values name (all_values params)) (given_values-map name n values filled)
    ∙ elim (Bool-cases (n == name)) [
      | inl e ↦
          let same : n ≡ name = (eq_iff n name).0 e in
          let gone = lookup_of_absent name params (rw same at fresh) in
          rw (e, rest, gone) (append-nil values)
      | inr e ↦ rw e rest
    ]

contains-insert :
    (n name : String) (values : List String) (params : Dict (List String))
    → (name == n) ≡ false
    → contains n (keys params) ≡ false
    → contains n (keys (insert name values params)) ≡ false
contains-insert n name values params e h =
    sym (has_key-contains n (insert name values params))
    ∙ ap is_some (lookup-insert name n values params ∙ rw e refl)
    ∙ has_key-contains n params
    ∙ h

insert-AreParams :
    (name : String) (values : List String) (params : Dict (List String))
    → AreFilled values
    → AreParams params
    → AreParams (insert name values params)
unfolding insert
insert-AreParams name values [] filled h = (refl, filled, tt)
insert-AreParams name values ((n, vs) ∷ params) filled (fresh, g, h) =
    elim (Bool-cases (n == name)) [
      | inl e ↦ rw e (rw (← (eq_iff n name).0 e) fresh, filled, h)
      | inr e ↦ rw e (
        contains-insert n name values params (ground (arith, eq_iff name n, eq_iff n name)) fresh,
        g,
        insert-AreParams name values params filled h,
      )
    ]

append-AreFilled :
    (values : List String) (value : String)
    → AreFilled values
    → (value == "") ≡ false
    → AreFilled (values ++ value ∷ [])
append-AreFilled [] value h e = (e, tt)
append-AreFilled (v ∷ values) value (g, h) e = (g, append-AreFilled values value h e)

lookup-AreFilled :
    (name : String) (params : Dict (List String))
    → AreParams params
    → AreFilled (or_default (lookup name params) [])
unfolding lookup
lookup-AreFilled name [] h = tt
lookup-AreFilled name ((n, values) ∷ params) (fresh, filled, h) = elim (Bool-cases (n == name)) [
  | inl e ↦ rw e filled
  | inr e ↦ rw e (lookup-AreFilled name params h)
]

-- a value that is added, as the dict and the query show it
added-values :
    (name n value : String) (params : Dict (List String)) (later : List String)
    → or_default (lookup name (insert n (or_default (lookup n params) [] ++ value ∷ []) params)) []
        ++ later
      ≡ or_default (lookup name params) [] ++ (if n == name && true then value ∷ later else later)
added-values name n value params later =
    rw (lookup-insert n name _ params) (elim (Bool-cases (n == name)) [
      | inl e ↦
          let same : n ≡ name = (eq_iff n name).0 e in
          rw (e, same) (append_assoc _ (value ∷ []) later)
      | inr e ↦ rw e refl
    ])

group_values-values :
    (name : String) (params : Dict (List String)) (query : Query)
    → AreParams params
    → AreParams (group_values params query)
      × (or_default (lookup name (group_values params query)) []
          ≡ or_default (lookup name params) [] ++ given_values name query)
unfolding group_values given_values
group_values-values name params [] h = (h, sym (append-nil _))
group_values-values name params ((n, value) ∷ query) h = elim (Bool-cases (value == "")) [
  | inl e ↦
      let (sound, rest) = group_values-values name params query h in
      (
        rw e sound,
        rw e (rest ∙ elim (Bool-cases (n == name)) [ inl f ↦ rw f refl | inr f ↦ rw f refl ]),
      )
  | inr e ↦
      let values = or_default (lookup n params) [] ++ value ∷ [] in
      let kept =
        insert-AreParams n values params (append-AreFilled _ value (lookup-AreFilled n params h) e)
          h in
      let (sound, rest) = group_values-values name (insert n values params) query kept in
      (rw e sound, rw e (rest ∙ added-values name n value params (given_values name query)))
]

pub given_values-first_values :
    (name : String) (params : Dict (List String))
    → AreParams params
    → given_values name (first_values params) ≡ take 1 (or_default (lookup name params) [])
unfolding given_values first_values lookup
given_values-first_values name [] h = refl
given_values-first_values name ((n, []) ∷ params) (fresh, filled, h) =
    let rest = given_values-first_values name params h in
    elim (Bool-cases (n == name)) [
      | inl e ↦
          let same : n ≡ name = (eq_iff n name).0 e in
          let gone = lookup_of_absent name params (rw same at fresh) in rw (e, rest, gone) refl
      | inr e ↦ rw e rest
    ]
given_values-first_values name ((n, value ∷ values) ∷ params) (fresh, (full, filled), h) =
    let rest = given_values-first_values name params h in
    elim (Bool-cases (n == name)) [
      | inl e ↦
          let same : n ≡ name = (eq_iff n name).0 e in
          let gone = lookup_of_absent name params (rw same at fresh) in
          rw (e, full, rest, gone) refl
      | inr e ↦ rw e rest
    ]

-- The parameters of a page, and what they hold of a name.
pub set_page-AreParams :
    (offset limit : ℕ) (query : Query) (name : String)
    → AreParams (set_page offset limit (parse_qs query))
      × (or_default (lookup name (set_page offset limit (parse_qs query))) []
          ≡ paged_values offset limit name query)
unfolding set_page parse_qs lookup
set_page-AreParams offset limit query name =
    let (sound, kept) = group_values-values name [] query tt in
    let one = insert-AreParams "offset" (decimal offset ∷ []) _ (decimal_filled offset, tt) sound in
    let two = insert-AreParams "limit" (decimal limit ∷ []) _ (decimal_filled limit, tt) one in
    (
      two,
      rw
          (
            lookup-insert "limit" name _ (insert "offset" (decimal offset ∷ []) (parse_qs query)),
            lookup-insert "offset" name _ (parse_qs query),
          )
          (elim (Bool-cases ("limit" == name)) [
            | inl e ↦ rw e refl
            | inr e ↦ elim (Bool-cases ("offset" == name)) [
              | inl f ↦ rw (e, f) refl
              | inr f ↦ rw (e, f) kept
            ]
          ]),
    )
