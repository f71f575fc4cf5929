-- ===== src/Api/Identity.antt =====
-- api/src/auth.py: identities, the guards of the routes, and the record limit of a role.
pub mod Caps
mod Tests
use teehr_cloud_core.Base.{
  ℕ, ◌+◌, ◌-◌, ◌*◌, ◌/◌, ◌%◌, ◌^◌, ◌≤◌, ◌<◌, min, max, code, String, ◌≡◌, refl, sym, ◌∙◌, ◌≢◌, ◌↔◌,
  ◌⊎◌, inl, inr, Bool, true, false, not, ◌&&◌, ◌||◌, Option, none, some, List, [], ◌∷◌, ◌++◌, map,
  arith, eq_iff, leb, eqb, if◌then◌else◌, Bool-cases, Option-cases, or_default, contains, ◌==◌,
  ◌<>◌, Result, ok, err, ◌>>=◌, ◌>>◌, raise_if, or_raise, HttpError, http, strip, >>=-passed,
}
use mathlib.Core.Option
use teehr_cloud_core.Keycloak.{Claims, scopes_of}

pub record AuthIdentity : Type 0 where
  pub subject : String
  pub auth_type : String
  pub roles : List String
  pub scopes : List String
  pub preferred_username : Option String
  pub groups : List String

-- `self.auth_type in {"jwt", "api_key"}`
abbrev pub is_authenticated : AuthIdentity → Bool
is_authenticated identity = contains identity.auth_type ("jwt" ∷ "api_key" ∷ [])

abbrev pub anonymous : AuthIdentity
anonymous = record {
  subject = "anonymous";
  auth_type = "anonymous";
  roles = "anonymous" ∷ [];
  scopes = [];
  preferred_username = none;
  groups = [];
}

-- what `validate` returns for the subject and the claims of a token that it accepts
unfoldable pub token_identity : String × Claims → AuthIdentity
token_identity (subject, claims) = record {
  subject = subject;
  auth_type = "jwt";
  roles = claims.realm_roles;
  scopes = scopes_of claims;
  preferred_username = claims.preferred_username;
  groups = or_default claims.groups [];
}

-- The limits that api/src/config.py reads from the environment.
pub record Limits : Type 0 where
  pub row_limit_anon : ℕ
  pub row_limit_api_key : ℕ
  pub row_limit_basic_user : ℕ
  pub row_limit_auth : ℕ
  pub anon_rate_limit_rpm : ℕ
  pub auth_rate_limit_rpm : ℕ

-- with an empty environment
abbrev pub default_limits : Limits
default_limits = record {
  row_limit_anon = 200;
  row_limit_api_key = 50000;
  row_limit_basic_user = 50000;
  row_limit_auth = 10000;
  anon_rate_limit_rpm = 20;
  auth_rate_limit_rpm = 120;
}

unfoldable pub get_authenticated_identity : AuthIdentity → Result HttpError AuthIdentity
get_authenticated_identity identity =
    if not (is_authenticated identity)
    then err (http 401 "Authentication required")
    else ok identity

-- The dependency on `get_authenticated_identity` comes first.
unfoldable pub get_admin_identity : AuthIdentity → Result HttpError AuthIdentity
unfolding get_authenticated_identity
get_admin_identity request_identity = do
  identity ← get_authenticated_identity request_identity
  raise_if (not (identity.auth_type == "jwt")) (http 403 "Admin JWT required")
  raise_if (not (contains "admin" identity.roles)) (http 403 "Admin role required")
  ok identity

module _ (limits : Limits) where
  unfoldable pub record_limit_for_identity : AuthIdentity → Option ℕ
  record_limit_for_identity identity =
      if contains "admin" identity.roles
      then none
      else if contains "basic-user" identity.roles
      then some limits.row_limit_basic_user
      else if identity.auth_type == "api_key"
      then some limits.row_limit_api_key
      else if is_authenticated identity
      then some limits.row_limit_auth
      else some limits.row_limit_anon

  unfoldable pub apply_role_record_limit : AuthIdentity → Option ℕ → Option ℕ
  apply_role_record_limit identity requested_limit = elim (record_limit_for_identity identity) [
    | none ↦ requested_limit
    | some role_cap ↦ elim requested_limit [
      | none ↦ some role_cap
      | some requested ↦ some (min requested role_cap)
    ]
  ]

  -- `none` is a request whose state has no identity
  unfoldable pub effective_limit_for_request : Option AuthIdentity → Option ℕ → Option ℕ
  effective_limit_for_request identity requested_limit =
      apply_role_record_limit (or_default identity anonymous) requested_limit

-- `auth_header.lower().startswith("bearer ")`, on the ASCII letters of the word
abbrev pub lower_ascii : ℕ → ℕ
lower_ascii c = if leb b'A' c && leb c b'Z' then c + 32 else c

unfoldable pub strip_bearer : String → String → Option String
strip_bearer String.[] s = some s
strip_bearer (String.◌∷◌ c p) String.[] = none
strip_bearer (String.◌∷◌ c p) (String.◌∷◌ d s) =
    if eqb (code c) (lower_ascii (code d)) then strip_bearer p s else none

-- the part after the scheme, stripped; `none` where the header has no bearer scheme
unfoldable pub bearer_token : Option String → Option String
unfolding strip_bearer
bearer_token header = Option.map strip (strip_bearer "bearer " (or_default header ""))

unfoldable pub extract_bearer_token : Option String → Result HttpError String
unfolding bearer_token
extract_bearer_token header = elim (bearer_token header) [
  | none ↦ err (http 401 "Bearer token required")
  | some token ↦ if token == "" then err (http 401 "Bearer token required") else ok token
]

-- The headers that `resolve_identity` reads, with the validators of the app's state.
module _ (validate : String → Result HttpError AuthIdentity)
    (validate_key : String → Result HttpError (Option AuthIdentity)) where
  unfoldable pub resolve_identity : Option String → Option String → Result HttpError AuthIdentity
  unfolding bearer_token
  resolve_identity authorization x_api_key = elim (bearer_token authorization) [
    | some token ↦ validate token
    | none ↦ if or_default x_api_key "" == "" then ok anonymous else do
      identity ← validate_key (or_default x_api_key "")
      or_raise identity (http 401 "Invalid API key")
  ]
