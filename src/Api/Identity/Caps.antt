-- ===== src/Api/Identity/Caps.antt =====
-- What the guards and the record limit of api/src/auth.py guarantee.
use teehr_cloud_core.Base.{
  ℕ, ◌≤◌, min, max, ◌≡◌, refl, sym, ◌∙◌, ◌↔◌, inl, inr, true, false, Option, some, arith, eq_iff,
  Bool-cases, Option-cases, contains, ◌==◌, ok,
}
use teehr_cloud_core.Api.Identity.{
  AuthIdentity, Limits, get_authenticated_identity, get_admin_identity, record_limit_for_identity,
  apply_role_record_limit, effective_limit_for_request,
}
use mathlib.Core.Option.{some-injective}

module _ (limits : Limits) where
  -- The largest limit of a user without the admin role.
  abbrev pub largest_limit : ℕ
  largest_limit =
      max (max limits.row_limit_basic_user limits.row_limit_api_key)
        (max limits.row_limit_auth limits.row_limit_anon)

  record_limit_bound :
      (identity : AuthIdentity)
      → contains "admin" identity.roles ≡ false
      → (cap : ℕ) × (record_limit_for_identity limits identity ≡ some cap) × (cap ≤ largest_limit)
  unfolding record_limit_for_identity
  record_limit_bound identity plain = elim (Bool-cases (contains "basic-user" identity.roles)) [
    | inl e ↦ rw (plain, e) (_, refl, omega arith)
    | inr e ↦ elim (Bool-cases (identity.auth_type == "api_key")) [
      | inl f ↦ rw (plain, e, f) (_, refl, omega arith)
      | inr f ↦ elim (Bool-cases (identity.auth_type == "jwt")) [
        | inl g ↦ rw (plain, e, f, g) (_, refl, omega arith)
        | inr g ↦ rw (plain, e, f, g) (_, refl, omega arith)
      ]
    ]
  ]

  -- Without the admin role a request has a record limit. It is at most the limit that the request asks
  -- for, if it asks for one, and at most the largest limit of a role.
  pub effective_limit_bound :
      (identity : AuthIdentity) (requested : Option ℕ)
      → contains "admin" identity.roles ≡ false
      → (n : ℕ) × (effective_limit_for_request limits (some identity) requested ≡ some n)
        × (n ≤ largest_limit)
        × ((m : ℕ) → requested ≡ some m → n ≤ m)
  unfolding effective_limit_for_request apply_role_record_limit
  effective_limit_bound identity requested plain =
      let (cap, found, bound) = record_limit_bound identity plain in
      elim (Option-cases requested) [
        | inl e ↦ (
          cap,
          rw (effective_limit_for_request, apply_role_record_limit, found, e) refl,
          bound,
          λ m h. cc,
        )
        | inr (asked, e) ↦ (
          min asked cap,
          rw (effective_limit_for_request, apply_role_record_limit, found, e) refl,
          omega arith,
          λ m h. let same : asked ≡ m = some-injective _ _ (sym e ∙ h) in omega arith,
        )
      ]

-- The guard of the admin routes passes exactly the identities of a JWT with the admin role, unchanged.
pub get_admin_identity_iff :
    (request_identity identity : AuthIdentity)
    → (get_admin_identity request_identity ≡ ok identity) ↔ (
        (identity ≡ request_identity)
        × (request_identity.auth_type ≡ "jwt")
        × (contains "admin" request_identity.roles ≡ true))
unfolding get_admin_identity get_authenticated_identity
get_admin_identity_iff request_identity identity = (sound, complete)
  where
    sound :
        get_admin_identity request_identity ≡ ok identity
        → (identity ≡ request_identity)
          × (request_identity.auth_type ≡ "jwt")
          × (contains "admin" request_identity.roles ≡ true)
    sound h = ground (arith, eq_iff request_identity.auth_type "jwt", h)

    complete :
        (identity ≡ request_identity)
          × (request_identity.auth_type ≡ "jwt")
          × (contains "admin" request_identity.roles ≡ true)
        → get_admin_identity request_identity ≡ ok identity
    complete (same, jwt, admin) = ground (arith, eq_iff request_identity.auth_type "jwt")
