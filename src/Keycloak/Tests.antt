-- ===== src/Keycloak/Tests.antt =====
-- The token validator at a provider that replaces its key.
use teehr_cloud_core.Base.{
  ℕ, String, ◌≡◌, refl, Option, none, some, [], ◌∷◌, eqb, if◌then◌else◌, Result, ok, err,
}
use teehr_cloud_core.Keycloak.{
  Failure, invalid_jwt, key_set, Validator, Reading, many, Claims, KeycloakConfig, check_claims,
  validate, token_kid, get_jwks, get_jwks_url, find_key, kept_keys, refresh_jwks, fetch_jwks,
  has_allowed_audience, allowed_audiences,
}
use teehr_cloud_core.Keycloak.Accepted.{validate-rotated}

abbrev config : KeycloakConfig
config = record { jwks_url = "https://auth/certs"; audiences = "teehr-api, teehr-web" }

abbrev kid_of : ℕ → Option String
kid_of key = some (if eqb key 7 then "old" else "new")

abbrev header_kid : String → Result Failure (Option String)
header_kid token = ok (some "new")

abbrev claims : Claims
claims = record {
  aud = many ("teehr-web" ∷ []);
  azp = none;
  realm_roles = "basic-user" ∷ [];
  scope = some "openid email";
  sub = some "u1";
  preferred_username = some "ann";
  groups = none;
}

-- Key 8 signs what is decoded here.
abbrev decode : String → ℕ → Result Failure Claims
decode token key = if eqb key 8 then ok claims else err invalid_jwt

abbrev v : Validator ℕ
v = record {
  jwks_cache = some (key_set (7 ∷ []));
  jwks_cache_time = 0;
  jwks_url_cache = none;
  jwks_url_cache_time = 0;
}

abbrev reading : ℕ → Reading ℕ
reading at = record {
  first_at = at;
  locked_at = at;
  url_at = at;
  openid_answer = err invalid_jwt;
  keys_answer = λ url. ok (key_set (8 ∷ []));
}

validate-rotated_example :
    (validate config kid_of header_kid decode v (reading 100) (reading 101) "t").1
    ≡ ok ("u1", claims)
unfolding token_kid get_jwks get_jwks_url find_key kept_keys refresh_jwks fetch_jwks check_claims
    has_allowed_audience allowed_audiences
validate-rotated_example =
    validate-rotated config kid_of header_kid decode v (reading 100) (reading 101) "t" "new"
      "https://auth/certs" "u1" (7 ∷ []) (key_set (8 ∷ [])) 8 claims refl refl refl refl refl refl
      refl refl
