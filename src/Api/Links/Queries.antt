-- ===== src/Api/Links/Queries.antt =====
-- What the query of a page link holds.
use teehr_cloud_core.Base.{
  ℕ, String, ◌≡◌, refl, ap, ◌∙◌, inl, inr, Bool, true, false, not, ◌&&◌, Option, none, some, List,
  [], ◌∷◌, ◌++◌, arith, eq_iff, if◌then◌else◌, Bool-cases, or_default, ◌==◌,
}
use teehr_cloud_core.Base.Decimal.{decimal, decimal_filled}
use teehr_cloud_core.Base.Dict.{Dict, lookup, insert, lookup-insert}
use teehr_cloud_core.Api.Links.{Query, group_values, parse_qs, first_values, set_page}

-- The first value of a name that is not empty.
abbrev pub first_value : String → Query → Option String
first_value name [] = none
first_value name ((n, value) ∷ query) =
    if n == name && not (value == "") then some value else first_value name query

abbrev pub first_of : Option (List String) → Option String
first_of none = none
first_of (some []) = none
first_of (some (value ∷ values)) = some value

abbrev Filled : List String → Type 0
Filled [] = ⊥
Filled (value ∷ values) = (value == "") ≡ false

-- Every name has a first value, and it is not empty.
abbrev pub HasValues : Dict (List String) → Type 0
HasValues [] = Unit
HasValues ((name, values) ∷ params) = Filled values × HasValues params

pub first_value-first_values :
    (name : String) (params : Dict (List String))
    → HasValues params
    → first_value name (first_values params) ≡ first_of (lookup name params)
unfolding first_values lookup
first_value-first_values name [] h = refl
first_value-first_values name ((n, []) ∷ params) (filled, h) = absurd filled
first_value-first_values name ((n, value ∷ values) ∷ params) (filled, h) =
    ground (arith, first_value-first_values name params h, filled)

insert-HasValues :
    (name : String) (values : List String) (params : Dict (List String))
    → Filled values
    → HasValues params
    → HasValues (insert name values params)
unfolding insert
insert-HasValues name values [] filled h = (filled, tt)
insert-HasValues name values ((n, vs) ∷ params) filled (g, h) = elim (Bool-cases (n == name)) [
  | inl e ↦ rw e (filled, h)
  | inr e ↦ rw e (g, insert-HasValues name values params filled h)
]

lookup-Filled :
    (name value : String) (params : Dict (List String))
    → (value == "") ≡ false
    → HasValues params
    → Filled (or_default (lookup name params) [] ++ value ∷ [])
unfolding lookup
lookup-Filled name value [] filled h = filled
lookup-Filled name value ((n, []) ∷ params) filled (g, h) = absurd g
lookup-Filled name value ((n, v ∷ vs) ∷ params) filled (g, h) = elim (Bool-cases (n == name)) [
  | inl e ↦ rw e g
  | inr e ↦ rw e (lookup-Filled name value params filled h)
]

-- the first of the values that a dict has, or else of a query
abbrev before : Option String → Option String → Option String
before (some value) later = some value
before none later = later

first_of-append :
    (held : Option (List String)) (value : String) (later : Option String)
    → before (first_of (some (or_default held [] ++ value ∷ []))) later
      ≡ before (first_of held) (some value)
first_of-append none value later = refl
first_of-append (some []) value later = refl
first_of-append (some (v ∷ vs)) value later = refl

before-none : (o : Option String) → o ≡ before o none
before-none none = refl
before-none (some value) = refl

and_false : (b : Bool) → (b && false) ≡ false
and_false true = refl
and_false false = refl

-- a value that is added, as the dict and the query show it
added-first :
    (name n value : String) (params : Dict (List String)) (later : Option String)
    → before
        (first_of (lookup name (insert n (or_default (lookup n params) [] ++ value ∷ []) params)))
        later
      ≡ before (first_of (lookup name params)) (if n == name && true then some value else later)
added-first name n value params later =
    rw (lookup-insert n name _ params) (elim (Bool-cases (n == name)) [
      | inl e ↦
          let same : n ≡ name = (eq_iff n name).0 e in
          rw e (
            ap
              (λ (k : String).
                before (first_of (some (or_default (lookup k params) [] ++ value ∷ []))) later)
              same
            ∙ first_of-append (lookup name params) value later)
      | inr e ↦ rw e refl
    ])

group_values-first :
    (name : String) (params : Dict (List String)) (query : Query)
    → HasValues params
    → HasValues (group_values params query)
      × (first_of (lookup name (group_values params query))
          ≡ before (first_of (lookup name params)) (first_value name query))
unfolding group_values
group_values-first name params [] h = (h, before-none _)
group_values-first name params ((n, value) ∷ query) h = elim (Bool-cases (value == "")) [
  | inl e ↦ rw (e, and_false (n == name)) (group_values-first name params query h)
  | inr e ↦
      let added = insert n (or_default (lookup n params) [] ++ value ∷ []) params in
      let kept = insert-HasValues n _ params (lookup-Filled n value params e h) h in
      let (sound, first) = group_values-first name added query kept in
      rw e (sound, first ∙ added-first name n value params (first_value name query))
]

pub parse_qs-first :
    (name : String) (query : Query)
    → HasValues (parse_qs query)
      × (first_of (lookup name (parse_qs query)) ≡ first_value name query)
unfolding parse_qs lookup
parse_qs-first name query = group_values-first name [] query tt

-- What a page sets, and what it leaves.
abbrev pub paged : ℕ → ℕ → String → Option String → Option String
paged offset limit name kept =
    if "limit" == name
    then some (decimal limit)
    else if "offset" == name
    then some (decimal offset)
    else kept

pub set_page-first :
    (offset limit : ℕ) (params : Dict (List String)) (name : String)
    → HasValues params
    → HasValues (set_page offset limit params)
      × (first_value name (first_values (set_page offset limit params))
          ≡ paged offset limit name (first_of (lookup name params)))
unfolding set_page
set_page-first offset limit params name h =
    let one = insert-HasValues "offset" (decimal offset ∷ []) params (decimal_filled offset) h in
    let two = insert-HasValues "limit" (decimal limit ∷ []) _ (decimal_filled limit) one in
    (
      two,
      first_value-first_values name _ two
          ∙ rw
              (
                lookup-insert "limit" name _ (insert "offset" (decimal offset ∷ []) params),
                lookup-insert "offset" name _ params,
              )
              (elim (Bool-cases ("limit" == name)) [
                | inl e ↦ rw e refl
                | inr e ↦ elim (Bool-cases ("offset" == name)) [
                  | inl f ↦ rw (e, f) refl
                  | inr f ↦ rw (e, f) refl
                ]
              ]),
    )
