-- ===== src/Xpublish/Login/Tests.antt =====
-- Two requests at one provider: one with a token, one without.
use teehr_cloud_core.Base.{
  ℕ, String, ◌≡◌, sym, ap, Option, none, some, List, [], ◌∷◌, arith, All, Result, ok, err,
  ok-injective,
}
use teehr_cloud_core.Keycloak.{
  Failure, invalid_jwt, key_set, keys_of, new_validator, Reading, many, Claims, KeycloakConfig,
}
use teehr_cloud_core.Keycloak.Keys.{Sees}
use teehr_cloud_core.Xpublish.Authz.{AccessRules}
use teehr_cloud_core.Xpublish.Login.{Request, serve}
use teehr_cloud_core.Xpublish.Login.Admitted.{IsServed, IsAdmitted, serve-IsAdmitted}

abbrev config : KeycloakConfig
config = record { jwks_url = "https://auth/certs"; audiences = "teehr-frontend" }

abbrev kid_of : ℕ → Option String
kid_of key = some "new"

abbrev header_kid : String → Result Failure (Option String)
header_kid token = ok (some "new")

abbrev claims : Claims
claims = record {
  aud = many ("teehr-frontend" ∷ []);
  azp = none;
  realm_roles = "analyst" ∷ [];
  scope = none;
  sub = some "u1";
  preferred_username = some "ann";
  groups = none;
}

abbrev decode : String → ℕ → Result Failure Claims
decode token key = ok claims

abbrev Published : ℕ → List ℕ → Type 0
Published at keys = keys ≡ 8 ∷ []

abbrev rules : AccessRules
rules = record { default = none; repo_items = ("restricted", "admin" ∷ []) ∷ []; layer_items = [] }

abbrev reading : ℕ → Reading ℕ
reading at = record {
  first_at = at;
  locked_at = at;
  url_at = at;
  openid_answer = err invalid_jwt;
  keys_answer = λ url. ok (key_set (8 ∷ []));
}

abbrev request : ℕ → Option String → Request ℕ
request at authorization = record {
  method = "GET";
  path = "/api/dataset-variables/gridded";
  authorization = authorization;
  seen = reading at;
  again = reading at;
}

sees : (at : ℕ) → Sees config Published (reading at)
sees at = record {
  in_order = omega arith;
  answers = λ url set e. ap keys_of (sym (ok-injective (key_set (8 ∷ [])) set e));
}

served :
    (at : ℕ) (authorization : Option String)
    → IsServed config kid_of header_kid decode Published rules (request at authorization)
served at authorization = record { sees = sees at; sees_again = sees at; later = omega arith }

serve-IsAdmitted_example : All (IsAdmitted config kid_of header_kid decode Published rules) (
    serve config kid_of header_kid decode rules new_validator
      (request 100 (some "Bearer t") ∷ request 101 none ∷ []))
serve-IsAdmitted_example =
    serve-IsAdmitted config kid_of header_kid decode Published rules new_validator
      (request 100 (some "Bearer t") ∷ request 101 none ∷ []) (λ set e. cc)
      (served 100 (some "Bearer t"), (served 101 none, tt))
