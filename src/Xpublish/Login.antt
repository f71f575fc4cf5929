-- ===== src/Xpublish/Login.antt =====
-- The identity of a request in xpublish-api: resolve_identity of xpublish-api/src/auth.py, whose validator
-- repeats that of api/src/auth.py (Keycloak), and the middleware of xpublish-api/src/main.py around it.
-- Requests are served one after another; a request has what its readings of the keys see.
pub mod Admitted
mod Tests
use teehr_cloud_core.Base.{
  ℕ, String, ◌||◌, Option, none, some, List, [], ◌∷◌, ◌==◌, if◌then◌else◌, Result, ok, err,
}
use teehr_cloud_core.Keycloak.{
  Failure, answered, Validator, Reading, Claims, KeycloakConfig, validate,
}
use teehr_cloud_core.Api.Identity.{bearer_token}
use teehr_cloud_core.Xpublish.Identity.{AuthIdentity, anonymous, token_identity}
use teehr_cloud_core.Xpublish.Authz.{AccessRules}
use teehr_cloud_core.Xpublish.App.{Handled, auth_middleware}

-- A request, with the two looks at the signing keys that its token may need.
pub record Request (Key : Type 0) : Type 0 where
  pub method : String
  pub path : String
  pub authorization : Option String
  pub seen : Reading Key
  pub again : Reading Key

-- What the middleware does, or an exception that it does not catch.
pub data Outcome : Type 0 where
  handled : Handled → Outcome
  raised : Failure → Outcome

-- the identity that `validate` returns
abbrev pub identity_of : Result Failure (String × Claims) → Result Failure AuthIdentity
identity_of (err e) = err e
identity_of (ok accepted) = ok (token_identity accepted)

-- only an HTTPException is caught
abbrev pub gate : {Key : Type 0} → AccessRules → Request Key → Result Failure AuthIdentity → Outcome
gate rules request (ok identity) =
    handled (auth_middleware rules request.method request.path (ok identity))
gate rules request (err (answered e)) =
    handled (auth_middleware rules request.method request.path (err e))
gate rules request (err e) = raised e

module _ {Key : Type 0} (config : KeycloakConfig) (kid_of : Key → Option String)
    (header_kid : String → Result Failure (Option String))
    (decode : String → Key → Result Failure Claims) where
  unfoldable pub validate_token :
      Validator Key
      → Reading Key
      → Reading Key
      → String
      → Validator Key × Result Failure AuthIdentity
  validate_token v seen again token =
      let validated = validate config kid_of header_kid decode v seen again token in
      (validated.0, identity_of validated.1)

  unfoldable pub resolve_identity :
      Validator Key → Request Key → Validator Key × Result Failure AuthIdentity
  resolve_identity v request = elim (bearer_token request.authorization) [
    | none ↦ (v, ok anonymous)
    | some token ↦ validate_token v request.seen request.again token
  ]

  -- a request that needs no identity is passed on before `resolve_identity`
  unfoldable pub handle_request :
      AccessRules → Validator Key → Request Key → Validator Key × Outcome
  handle_request rules v request =
      if request.method == "OPTIONS" || request.path == "/health"
      then (v, gate rules request (ok anonymous))
      else let resolved = resolve_identity v request in (resolved.0, gate rules request resolved.1)

  -- the requests in the order in which they come, each with its outcome
  unfoldable pub serve :
      AccessRules → Validator Key → List (Request Key) → List (Request Key × Outcome)
  serve rules v [] = []
  serve rules v (request ∷ requests) =
      let done = handle_request rules v request in (request, done.1) ∷ serve rules done.0 requests
