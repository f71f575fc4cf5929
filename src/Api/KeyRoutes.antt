-- ===== src/Api/KeyRoutes.antt =====
-- api/src/routes/auth.py: the routes of the caller and of the API keys, with payloads that the
-- framework has accepted. `none` is a store whose `startup` has not run.
pub mod Revocation
mod Tests
use teehr_cloud_core.Base.{
  ℕ, String, Bool, true, false, Option, none, some, List, Result, ok, err, ◌>>=◌, HttpError, http,
}
use teehr_cloud_core.Api.Identity.{AuthIdentity, is_authenticated, get_admin_identity}
use teehr_cloud_core.Api.ApiKeys.{
  Table, StoreError, CreatedKey, ListedKey, create_key, revoke_key, list_keys,
}

pub record Me : Type 0 where
  pub subject : String
  pub auth_type : String
  pub roles : List String
  pub scopes : List String
  pub authenticated : Bool

unfoldable pub me : AuthIdentity → Me
me identity = record {
  subject = identity.subject;
  auth_type = identity.auth_type;
  roles = identity.roles;
  scopes = identity.scopes;
  authenticated = is_authenticated identity;
}

-- An HTTP error, or an exception of the store, which the route does not catch.
pub data RouteError : Type 0 where
  http_error : HttpError → RouteError
  store_error : StoreError → RouteError

abbrev pub guarded {ℓ} : {A : Type ℓ} → Result HttpError A → Result RouteError A
guarded (ok a) = ok a
guarded (err e) = err (http_error e)

abbrev pub stored {ℓ} : {A : Type ℓ} → Result StoreError A → Result RouteError A
stored (ok a) = ok a
stored (err e) = err (store_error e)

unfoldable pub list_api_keys : AuthIdentity → Option Table → Result RouteError (List ListedKey)
list_api_keys request_identity pool = do
  identity ← guarded (get_admin_identity request_identity)
  stored (list_keys pool)

abbrev pub kept_or_changed :
    {A : Type 0} → Option Table → Result RouteError (Table × A) → Option Table × Result RouteError A
kept_or_changed pool (ok (rows, a)) = (some rows, ok a)
kept_or_changed pool (err e) = (pool, err e)

unfoldable pub create_api_key :
    (String → String)
    → String
    → String
    → ℕ
    → AuthIdentity
    → String
    → List String
    → Option Table
    → Option Table × Result RouteError CreatedKey
create_api_key hash_key key_id plaintext now request_identity name scopes pool =
    kept_or_changed pool (do
      identity ← guarded (get_admin_identity request_identity)
      stored (create_key hash_key key_id plaintext now identity.subject name scopes pool))

-- The table is updated before the outcome is looked at.
abbrev pub found_or_404 :
    Option Table × Result RouteError Bool → Option Table × Result RouteError (Unit {0})
found_or_404 (pool, err e) = (pool, err e)
found_or_404 (pool, ok true) = (pool, ok tt)
found_or_404 (pool, ok false) = (pool, err (http_error (http 404 "API key not found")))

unfoldable pub revoke_api_key :
    ℕ → AuthIdentity → String → Option Table → Option Table × Result RouteError (Unit {0})
revoke_api_key now request_identity key_id pool = found_or_404 (
    kept_or_changed pool (do
      identity ← guarded (get_admin_identity request_identity)
      stored (revoke_key now identity.subject key_id pool)))
