-- ===== src/Api/KeyRoutes/Revocation.antt =====
-- What a revocation by the route of api/src/routes/auth.py does.
use mathlib.Core.Option.{some-injective}
use teehr_cloud_core.Base.{
  ℕ, String, ◌≡◌, refl, sym, ap, ◌∙◌, inl, inr, true, false, not, ◌&&◌, Option, none, some, is_some,
  [], ◌∷◌, map, arith, if◌then◌else◌, Bool-cases, Option-cases, any, contains, eq_iff, ◌==◌, Result,
  ok, err, HttpError, http,
}
use teehr_cloud_core.Api.Identity.{AuthIdentity, get_authenticated_identity, get_admin_identity}
use teehr_cloud_core.Api.ApiKeys.{ApiKeyRow, Table, row_by_id, is_revocable, revoke_key}
use teehr_cloud_core.Api.ApiKeys.Revoking.{
  HasUniqueIds, revoked_row, none_revocable, revoke_key_lem,
}
use teehr_cloud_core.Api.KeyRoutes.{
  RouteError, http_error, stored, kept_or_changed, found_or_404, revoke_api_key,
}

-- The table in which the key of this id is revoked, whoever owns it.
abbrev pub stamped : ℕ → String → Table → Table
stamped now key_id rows =
    map (λ row. if row.id == key_id then record row { revoked_at = some now } else row) rows

-- What the route answers an admin, with the key that has the id, and the table that it leaves.
abbrev pub for_admin :
    ℕ → String → String → Table → Option ApiKeyRow → Option Table × Result RouteError (Unit {0})
for_admin now subject key_id rows none =
    (some rows, err (http_error (http 404 "API key not found")))
for_admin now subject key_id rows (some row) =
    if row.owner_sub == subject && not (is_some row.revoked_at)
    then (some (stamped now key_id rows), ok tt)
    else (some rows, err (http_error (http 404 "API key not found")))

-- What it answers a caller who is no admin.
abbrev pub refusal : String → HttpError
refusal auth_type =
    if auth_type == "jwt"
    then http 403 "Admin role required"
    else if auth_type == "api_key"
    then http 403 "Admin JWT required"
    else http 401 "Authentication required"

abbrev pub answer_of :
    ℕ → AuthIdentity → String → Table → Option Table × Result RouteError (Unit {0})
answer_of now identity key_id rows =
    if identity.auth_type == "jwt" && contains "admin" identity.roles
    then for_admin now identity.subject key_id rows (row_by_id key_id rows)
    else (some rows, err (http_error (refusal identity.auth_type)))

unchanged :
    (now : ℕ) (owner_sub key_id : String) (rows : Table)
    → any (is_revocable owner_sub key_id) rows ≡ false
    → map (revoked_row now owner_sub key_id) rows ≡ rows
unchanged now owner_sub key_id [] e = refl
unchanged now owner_sub key_id (row ∷ rows) e =
    elim (Bool-cases (is_revocable owner_sub key_id row)) [
      | inl f ↦ absurd (ground (arith, rw f at e))
      | inr f ↦ rw f (ap (λ r. row ∷ r) (unchanged now owner_sub key_id rows (rw f at e)))
    ]

stamped-absent :
    (now : ℕ) (key_id : String) (rows : Table)
    → row_by_id key_id rows ≡ none
    → stamped now key_id rows ≡ rows
unfolding row_by_id
stamped-absent now key_id [] e = refl
stamped-absent now key_id (row ∷ rows) e = elim (Bool-cases (row.id == key_id)) [
  | inl f ↦ cc (rw (row_by_id, f) at e)
  | inr f ↦ rw f (ap (λ r. row ∷ r) (stamped-absent now key_id rows (rw (row_by_id, f) at e)))
]

module _ (now : ℕ) (owner_sub key_id : String) where
  -- The key with the id decides whether one is revoked.
  any-row_by_id :
      (rows : Table) (row : ApiKeyRow)
      → HasUniqueIds rows
      → row_by_id key_id rows ≡ some row
      → any (is_revocable owner_sub key_id) rows
        ≡ (row.owner_sub == owner_sub && not (is_some row.revoked_at))
  unfolding row_by_id
  any-row_by_id [] row unique e = cc
  any-row_by_id (r ∷ rows) row (fresh, unique) e = elim (Bool-cases (r.id == key_id)) [
    | inl f ↦
        let same : r ≡ row = some-injective _ _ (rw (row_by_id, f) at e) in
        let others =
          none_revocable owner_sub key_id rows (rw ((eq_iff r.id key_id).0 f) at fresh) in
        rw (← same, f, others) (ground arith)
    | inr f ↦ rw f (any-row_by_id rows row unique (rw (row_by_id, f) at e))
  ]

  map-stamped :
      (rows : Table) (row : ApiKeyRow)
      → HasUniqueIds rows
      → row_by_id key_id rows ≡ some row
      → (row.owner_sub == owner_sub && not (is_some row.revoked_at)) ≡ true
      → map (revoked_row now owner_sub key_id) rows ≡ stamped now key_id rows
  unfolding row_by_id
  map-stamped [] row unique e mine = cc
  map-stamped (r ∷ rows) row (fresh, unique) e mine = elim (Bool-cases (r.id == key_id)) [
    | inl f ↦
        let same : r ≡ row = some-injective _ _ (rw (row_by_id, f) at e) in
        let gone : row_by_id key_id rows ≡ none = rw ((eq_iff r.id key_id).0 f) at fresh in
        let others = none_revocable owner_sub key_id rows gone in
        let its : (r.owner_sub == owner_sub && not (is_some r.revoked_at)) ≡ true = rw same mine in
        rw (f, its)
          (ap (λ rest. record r { revoked_at = some now } ∷ rest)
            (unchanged now owner_sub key_id rows others
              ∙ sym (stamped-absent now key_id rows gone)))
    | inr f ↦
        rw f (ap (λ rest. r ∷ rest) (map-stamped rows row unique (rw (row_by_id, f) at e) mine))
  ]

-- The route after its guard.
admin_answered :
    (now : ℕ) (subject key_id : String) (rows : Table)
    → HasUniqueIds rows
    → found_or_404
        (kept_or_changed (some rows) (stored (revoke_key now subject key_id (some rows))))
      ≡ for_admin now subject key_id rows (row_by_id key_id rows)
admin_answered now subject key_id rows unique =
    rw (revoke_key_lem now subject key_id rows unique)
      (elim (Option-cases (row_by_id key_id rows)) [
        | inl e ↦
            let no_key = none_revocable subject key_id rows e in
            rw (e, no_key, unchanged now subject key_id rows no_key) refl
        | inr (row, e) ↦
            let found = any-row_by_id now subject key_id rows row unique e in
            elim (Bool-cases (row.owner_sub == subject && not (is_some row.revoked_at))) [
              | inl f ↦ rw (e, found, f, map-stamped now subject key_id rows row unique e f) refl
              | inr f ↦ rw (e, found, f, unchanged now subject key_id rows (found ∙ f)) refl
            ]
      ])

-- In a table whose ids are unique, the route that revokes a key refuses a caller whose identity is not
-- of a JWT with the role "admin", with 403, or 401 if it is of no JWT or API key; for another it
-- stamps the key that has the id if the caller owns it and it is not revoked, and answers 404 if there
-- is no such key; it changes nothing else.
pub revoke_api_key_lem :
    (now : ℕ) (identity : AuthIdentity) (key_id : String) (rows : Table)
    → HasUniqueIds rows
    → revoke_api_key now identity key_id (some rows) ≡ answer_of now identity key_id rows
unfolding revoke_api_key get_admin_identity get_authenticated_identity
revoke_api_key_lem now identity key_id rows unique =
    elim (Bool-cases (identity.auth_type == "jwt")) [
      | inl e ↦ elim (Bool-cases (contains "admin" identity.roles)) [
        | inl f ↦ rw (e, f, e) (admin_answered now identity.subject key_id rows unique)
        | inr f ↦ rw (e, f, e) refl
      ]
      | inr e ↦ elim (Bool-cases (identity.auth_type == "api_key")) [
        | inl f ↦ rw (e, f, e) refl
        | inr f ↦ rw (e, f) refl
      ]
    ]
