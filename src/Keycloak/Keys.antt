-- ===== src/Keycloak/Keys.antt =====
-- The signing keys that the validator of a token finds, and when the provider published them.
use teehr_cloud_core.Base.{
  ℕ, ◌+◌, ◌-◌, ◌≤◌, ◌<◌, String, ◌≡◌, refl, sym, ap, ◌∙◌, inl, inr, Option, none, some, List, arith,
  ltb, Bool-cases, Option-cases, Result, ok, >>=-passed, ok-injective, Result-cases,
}
use mathlib.Core.Option.{some-injective}
use teehr_cloud_core.Keycloak.{
  Failure, KeySet, blank, key_set, keys_of, jwks_cache_ttl, Validator, Reading, KeycloakConfig,
  get_jwks_url, kept_keys, cached_keys, fetch_jwks, refresh_jwks, get_jwks, find_key, find_anew,
  signing_key,
}

module _ {Key : Type 0} (config : KeycloakConfig) (Published : ℕ → List Key → Type 0) where
  -- The cached keys are a set that was published when they were kept.
  abbrev pub HasSource : Validator Key → Type 0
  HasSource v =
      (set : KeySet Key) → v.jwks_cache ≡ some set → Published v.jwks_cache_time (keys_of set)

  -- A reading answers with what is published under the lock, which is taken after the first test.
  pub record Sees (seen : Reading Key) : Type 0 where
    pub in_order : seen.first_at ≤ seen.locked_at
    pub answers :
        (url : String) (set : KeySet Key)
        → seen.keys_answer url ≡ ok set
        → Published seen.locked_at (keys_of set)

  -- Keys that were published less than the lifetime of the cache before a time, or later.
  abbrev pub Recent : ℕ → List Key → Type 0
  Recent now keys = (at : ℕ) × (now < at + jwks_cache_ttl) × Published at keys

  kept_keys-Recent :
      (now at : ℕ) (cache : Option (KeySet Key)) (keys : List Key)
      → ((set : KeySet Key) → cache ≡ some set → Published at (keys_of set))
      → kept_keys config now at cache ≡ some keys
      → Recent now keys
  unfolding kept_keys
  kept_keys-Recent now at none keys source e = cc
  kept_keys-Recent now at (some blank) keys source e = cc
  kept_keys-Recent now at (some (key_set ks)) keys source e =
      elim (Bool-cases (ltb (now - at) jwks_cache_ttl)) [
        | inl f ↦
            let same : ks ≡ keys = some-injective _ _ (rw (kept_keys, f) at e) in
            (at, ground arith, rw (← same) (source (key_set ks) refl))
        | inr f ↦ absurd (ground (arith, rw (kept_keys, f) at e))
      ]

  -- What a step leaves: cached keys with their source and, where it succeeds, recent keys.
  abbrev pub Sound : ℕ → Validator Key × Result Failure (List Key) → Type 0
  Sound now (v, result) = HasSource v × ((keys : List Key) → result ≡ ok keys → Recent now keys)

  get_jwks_url-cache :
      (v : Validator Key) (seen : Reading Key)
      → ((get_jwks_url config v seen).0.jwks_cache ≡ v.jwks_cache)
        × ((get_jwks_url config v seen).0.jwks_cache_time ≡ v.jwks_cache_time)
  unfolding get_jwks_url
  get_jwks_url-cache v seen = ground arith

  fetch_jwks-Sound :
      (v : Validator Key) (seen : Reading Key) (url : String)
      → HasSource v
      → Sees seen
      → Sound seen.first_at (fetch_jwks config v seen url)
  unfolding fetch_jwks
  fetch_jwks-Sound v seen url source sees = elim (Result-cases (seen.keys_answer url)) [
    | inl (set, e) ↦
        let shown = sees.answers url set e in
        rw (fetch_jwks, e)
          (
            λ s f. rw (← some-injective _ _ f) shown,
            λ keys f. (
              seen.locked_at,
              (let order = sees.in_order in omega arith),
              rw (← ok-injective _ _ f) shown,
            ),
          )
    | inr (fault, e) ↦ rw (fetch_jwks, e) (source, λ keys f. cc)
  ]

  refresh_jwks-Sound :
      (v : Validator Key) (seen : Reading Key)
      → HasSource v
      → Sees seen
      → Sound seen.first_at (refresh_jwks config v seen)
  unfolding refresh_jwks
  refresh_jwks-Sound v seen source sees =
      let located = get_jwks_url config v seen in
      let (same, time) = get_jwks_url-cache v seen in
      let kept : HasSource located.0 = λ set e. rw time (source set (sym same ∙ e)) in
      elim (Result-cases located.1) [
        | inl (url, e) ↦ rw (refresh_jwks, e) (fetch_jwks-Sound located.0 seen url kept sees)
        | inr (fault, e) ↦ rw (refresh_jwks, e) (kept, λ keys f. cc)
      ]

  get_jwks-Sound :
      (v : Validator Key) (seen : Reading Key)
      → HasSource v
      → Sees seen
      → Sound seen.first_at (get_jwks config v seen)
  unfolding get_jwks
  get_jwks-Sound v seen source sees = elim (Option-cases (cached_keys config v seen.first_at)) [
    | inr (keys, e) ↦
        rw (get_jwks, e)
          (
            source,
            λ ks f. rw (← ok-injective _ _ f) (kept_keys-Recent _ _ v.jwks_cache keys source e),
          )
    | inl e ↦ elim (Option-cases (cached_keys config v seen.locked_at)) [
      | inr (keys, f) ↦
          let (at, soon, shown) = kept_keys-Recent _ _ v.jwks_cache keys source f in
          let order = sees.in_order in
          rw (get_jwks, e, f) (source, λ ks g. (at, omega arith, rw (← ok-injective _ _ g) shown))
      | inl f ↦ rw (get_jwks, e, f) (refresh_jwks-Sound v seen source sees)
    ]
  ]

  module _ (kid_of : Key → Option String) where
    -- A key that is found is the key of a recent set.
    abbrev pub Found : ℕ → String → Validator Key × Result Failure Key → Type 0
    Found now kid (v, result) =
        HasSource v
        × ((key : Key)
            → result ≡ ok key
            → (keys : List Key) × Recent now keys × (find_key config kid_of kid keys ≡ some key))

    find_anew-Found :
        (kid : String) (now : ℕ) (v : Validator Key) (again : Reading Key)
        → now ≤ again.first_at
        → Sees again
        → Found now kid (find_anew config kid_of kid v again)
    unfolding find_anew
    find_anew-Found kid now v again later sees =
        let emptied : Validator Key = record v { jwks_cache = none } in
        let (source, sound) = get_jwks-Sound emptied again (λ set e. cc) sees in
        (
          source,
          λ key e.
              let (keys, got, found) = >>=-passed (get_jwks config emptied again).1 _ e in
              let (at, soon, shown) = sound keys got in
              (
                keys,
                (at, omega arith, shown),
                elim (Option-cases (find_key config kid_of kid keys)) [
                  | inl f ↦ absurd (ground (arith, rw f at found))
                  | inr (k, f) ↦ f ∙ ap some (ok-injective _ _ (rw f at found))
                ],
              ),
        )

    pub signing_key-Found :
        (kid : String) (v : Validator Key) (seen again : Reading Key)
        → HasSource v
        → Sees seen
        → Sees again
        → seen.first_at ≤ again.first_at
        → Found seen.first_at kid (signing_key config kid_of kid v seen again)
    unfolding signing_key
    signing_key-Found kid v seen again source sees sees_again later =
        let first = get_jwks config v seen in
        let (kept, sound) = get_jwks-Sound v seen source sees in
        elim (Result-cases first.1) [
          | inr (fault, e) ↦ rw (signing_key, e) (kept, λ key f. cc)
          | inl (keys, e) ↦ elim (Option-cases (find_key config kid_of kid keys)) [
            | inr (k, f) ↦
                rw (signing_key, e, f)
                  (kept, λ key g. (keys, sound keys e, f ∙ ap some (ok-injective _ _ g)))
            | inl f ↦
                rw (signing_key, e, f)
                  (find_anew-Found kid seen.first_at first.0 again later sees_again)
          ]
        ]
