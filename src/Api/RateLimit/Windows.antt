-- ===== src/Api/RateLimit/Windows.antt =====
-- How many requests the limiter of api/src/rate_limit.py accepts within a minute.
use teehr_cloud_core.Base.{
  ℕ, suc, ◌-◌, min, String, ◌≡◌, refl, ap, inl, inr, Bool, true, false, ◌&&◌, some, List, [], ◌∷◌,
  arith, eq_iff, eq_refl, ltb, if◌then◌else◌, Bool-cases, Option-cases, length, All, ◌==◌,
  starts_with, strip_prefix-append, Result, ok, err, raise_if, HttpError,
}
use teehr_cloud_core.Base.Dict.{lookup, insert, lookup-insert}
use teehr_cloud_core.Api.Identity.{AuthIdentity, Limits}
use teehr_cloud_core.Api.RateLimit.{
  Counts, count_of, minute_prefix, key_of, limit_for, keep_prefix, cleaned, enforce, check,
  max_counts, too_many,
}

count_of-insert :
    (k j : String) (n : ℕ) (counts : Counts)
    → count_of j (insert k n counts) ≡ (if k == j then n else count_of j counts)
unfolding count_of
count_of-insert k j n counts = rw (lookup-insert k j n counts) (ground arith)

lookup-keep_prefix :
    (p key : String) (counts : Counts)
    → starts_with key p ≡ true
    → lookup key (keep_prefix p counts) ≡ lookup key counts
unfolding lookup keep_prefix
lookup-keep_prefix p key [] h = refl
lookup-keep_prefix p key ((k, v) ∷ counts) h =
    let rest = lookup-keep_prefix p key counts h in
    elim (Bool-cases (starts_with k p)) [
      | inl e ↦ rw (e, lookup, rest)
      | inr e ↦ elim (Bool-cases (k == key)) [
        | inl same ↦ absurd (other ((eq_iff k key).0 same) e)
        | inr different ↦ rw (e, different, lookup) rest
      ]
    ]
  where
    other : k ≡ key → starts_with k p ≡ false → ⊥
    other same e = cc

count_of-cleaned :
    (m : ℕ) (key : String) (counts : Counts)
    → starts_with key (minute_prefix m) ≡ true
    → count_of key (cleaned m counts) ≡ count_of key counts
unfolding cleaned count_of
count_of-cleaned m key counts h = elim (Bool-cases (ltb max_counts (length counts))) [
  | inl e ↦ rw (e, count_of, lookup-keep_prefix (minute_prefix m) key counts h)
  | inr e ↦ rw (e, count_of)
]

-- The cleanup drops no count of the current minute.
count_of-enforce :
    (k key : String) (limit m : ℕ) (counts : Counts)
    → starts_with key (minute_prefix m) ≡ true
    → count_of key (enforce k limit m counts).0
      ≡ (if k == key then suc (count_of key counts) else count_of key counts)
unfolding enforce
count_of-enforce k key limit m counts h =
    rw
      (
        enforce,
        count_of-cleaned m key (insert k (suc (count_of k counts)) counts) h,
        count_of-insert k key (suc (count_of k counts)) counts,
      )
      (elim (Bool-cases (k == key)) [
        | inl e ↦ rw e (ap (λ j. suc (count_of j counts)) ((eq_iff k key).0 e))
        | inr e ↦ rw e
      ])

abbrev is_ok : Result HttpError (Unit {0}) → Bool
is_ok (ok u) = true
is_ok (err e) = false

within_limit : (limit n c : ℕ) → n ≡ suc c → is_ok (raise_if (ltb limit n) too_many) ≡ ltb c limit
within_limit limit n c e = elim (Bool-cases (ltb limit n)) [
  | inl t ↦ rw t (ground arith)
  | inr t ↦ rw t (ground arith)
]

enforce-accepts :
    (key : String) (limit m : ℕ) (counts : Counts)
    → starts_with key (minute_prefix m) ≡ true
    → is_ok (enforce key limit m counts).1 ≡ ltb (count_of key counts) limit
unfolding enforce
enforce-accepts key limit m counts h =
    within_limit limit _ (count_of key counts)
      (rw (count_of-enforce key key limit m counts h, eq_refl key))

-- A request, by its caller and its route.
abbrev pub Visit : Type 0
Visit = AuthIdentity × String

module _ (limits : Limits) (m : ℕ) (key : String) where
  abbrev pub has_key_of : Visit → Bool
  has_key_of (identity, route_key) = key_of identity route_key m == key

  abbrev pub visits_for : List Visit → ℕ
  visits_for [] = 0
  visits_for (visit ∷ visits) =
      let rest = visits_for visits in if has_key_of visit then suc rest else rest

  -- The visits of the key that pass `check`, one visit after the other.
  unfoldable pub accepted : List Visit → Counts → ℕ
  accepted [] counts = 0
  accepted (visit ∷ visits) counts =
      let step = check limits visit.0 visit.1 m counts in
      let rest = accepted visits step.0 in
      if has_key_of visit && is_ok step.1 then suc rest else rest

  -- Every visit of the key has this limit.
  abbrev pub HasLimit : ℕ → Visit → Type 0
  HasLimit limit (identity, route_key) =
      key_of identity route_key m ≡ key → limit_for limits identity ≡ some limit

  module _ (h : starts_with key (minute_prefix m) ≡ true) where
    count_of-check :
        (identity : AuthIdentity) (route_key : String) (counts : Counts)
        → (key_of identity route_key m == key) ≡ false
        → count_of key (check limits identity route_key m counts).0 ≡ count_of key counts
    unfolding check
    count_of-check identity route_key counts e = elim (Option-cases (limit_for limits identity)) [
      | inl f ↦ rw (f, check)
      | inr (limit, f) ↦
          rw (f, check, count_of-enforce (key_of identity route_key m) key limit m counts h, e)
    ]

    check-own :
        (identity : AuthIdentity) (route_key : String) (limit : ℕ) (counts : Counts)
        → key_of identity route_key m ≡ key
        → limit_for limits identity ≡ some limit
        → (count_of key (check limits identity route_key m counts).0 ≡ suc (count_of key counts))
          × (is_ok (check limits identity route_key m counts).1 ≡ ltb (count_of key counts) limit)
    unfolding check
    check-own identity route_key limit counts same f = (
      rw (f, check, same, count_of-enforce key key limit m counts h, eq_refl key),
      rw (f, check, same) (enforce-accepts key limit m counts h),
    )

    accepted_count :
        (limit : ℕ) (visits : List Visit) (counts : Counts)
        → All (HasLimit limit) visits
        → accepted visits counts ≡ min (visits_for visits) (limit - count_of key counts)
    unfolding accepted
    accepted_count limit [] counts hs = ground arith
    accepted_count limit ((identity, route_key) ∷ visits) counts (own, hs) =
        let step = check limits identity route_key m counts in
        let rest = accepted_count limit visits step.0 hs in
        elim (Bool-cases (key_of identity route_key m == key)) [
          | inr e ↦ rw (e, accepted, rest, count_of-check identity route_key counts e)
          | inl e ↦
              let same = (eq_iff (key_of identity route_key m) key).0 e in
              let (counted, passed) = check-own identity route_key limit counts same (own same) in
              rw (e, accepted, rest, counted, passed) (ground arith)
        ]

-- For requests within one minute, from any counts: if every request with the key of a caller and a
-- route has the caller's limit, then the limiter accepts of them as many as are left of the limit, and
-- all of them if they are fewer. Requests with other keys, and a cleanup between them, change nothing.
pub accepted_within_limit :
    (limits : Limits) (m : ℕ) (identity : AuthIdentity) (route_key : String) (limit : ℕ)
    (visits : List Visit) (counts : Counts)
    → All (HasLimit limits m (key_of identity route_key m) limit) visits
    → accepted limits m (key_of identity route_key m) visits counts
      ≡ min
          (visits_for limits m (key_of identity route_key m) visits)
          (limit - count_of (key_of identity route_key m) counts)
unfolding key_of
accepted_within_limit limits m identity route_key limit visits counts hs =
    accepted_count limits m (key_of identity route_key m)
      (rw (key_of, strip_prefix-append (minute_prefix m))) limit visits counts hs
