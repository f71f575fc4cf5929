-- ===== src/Xpublish/Login/Admitted.antt =====
-- Which requests of xpublish-api reach a handler, from the token in their header.
use teehr_cloud_core.Base.{
  ℕ, ◌≤◌, String, ◌≡◌, refl, sym, ap, ◌∙◌, ◌||◌, ◌⊎◌, inl, inr, true, false, Option, some, List, [],
  ◌∷◌, All, Bool-cases, Option-cases, ◌==◌, Result, ok, err, ok-injective, eq_iff,
}
use teehr_cloud_core.Keycloak.{Failure, answered, Validator, Claims, KeycloakConfig}
use teehr_cloud_core.Keycloak.Keys.{HasSource, Sees}
use teehr_cloud_core.Keycloak.Accepted.{Accepted, validate-Accepted}
use teehr_cloud_core.Api.Identity.{bearer_token}
use teehr_cloud_core.Xpublish.Identity.{AuthIdentity, anonymous, token_identity}
use teehr_cloud_core.Xpublish.Authz.{AccessRules, is_request_permitted}
use teehr_cloud_core.Xpublish.App.{Handled, passed_on}
use teehr_cloud_core.Xpublish.App.Gate.{passed_on-permitted}
use teehr_cloud_core.Xpublish.Login.{
  Request, Outcome, handled, identity_of, validate_token, resolve_identity, gate, handle_request,
  serve,
}

handled_injective : (a b : Handled) → handled a ≡ handled b → a ≡ b
handled_injective a b e = cc

-- The gate lets an identity through.
gate-ok :
    {Key : Type 0} (rules : AccessRules) (request : Request Key)
    (resolved : Result Failure AuthIdentity) (attached : Option AuthIdentity)
    → (request.method == "OPTIONS" || request.path == "/health") ≡ false
    → gate rules request resolved ≡ handled (passed_on attached)
    → (identity : AuthIdentity) × (resolved ≡ ok identity)
      × (attached ≡ some identity)
      × (identity.auth_type ≡ "jwt")
      × (is_request_permitted rules identity request.path ≡ true)
gate-ok rules request (ok identity) attached inner e =
    let (admitted, known, same, jwt, permitted) =
      passed_on-permitted rules request.method request.path (ok identity) attached inner
        (handled_injective _ _ e) in
    (admitted, ap ok (ok-injective _ _ same), known, jwt, permitted)
gate-ok rules request (err (answered fault)) attached inner e =
    let (admitted, known, same, jwt, permitted) =
      passed_on-permitted rules request.method request.path (err fault) attached inner
        (handled_injective _ _ e) in
    cc same
gate-ok rules request (err f) attached inner e = cc

identity_of-ok :
    (result : Result Failure (String × Claims)) (identity : AuthIdentity)
    → identity_of result ≡ ok identity
    → (accepted : String × Claims) × (result ≡ ok accepted) × (token_identity accepted ≡ identity)
identity_of-ok (ok accepted) identity e = (accepted, refl, ok-injective _ _ e)
identity_of-ok (err fault) identity e = cc

anonymous_has_no_jwt : anonymous.auth_type ≡ "jwt" → ⊥
anonymous_has_no_jwt e = cc ((eq_iff "anonymous" "jwt").1 e)

module _ {Key : Type 0} (config : KeycloakConfig) (kid_of : Key → Option String)
    (header_kid : String → Result Failure (Option String))
    (decode : String → Key → Result Failure Claims) (Published : ℕ → List Key → Type 0)
    (rules : AccessRules) where
  -- A request whose readings see what the provider publishes, the second after the first.
  pub record IsServed (request : Request Key) : Type 0 where
    pub sees : Sees config Published request.seen
    pub sees_again : Sees config Published request.again
    pub later : request.seen.first_at ≤ request.again.first_at

  -- What a request that is passed on was admitted for.
  pub record Admitted (request : Request Key) (attached : Option AuthIdentity) : Type 0 where
    pub token : String
    pub subject : String
    pub claims : Claims
    pub presented : bearer_token request.authorization ≡ some token
    pub accepted :
        Accepted config kid_of header_kid decode Published request.seen.first_at token subject
          claims
    pub known : attached ≡ some (token_identity (subject, claims))
    pub permitted :
        is_request_permitted rules (token_identity (subject, claims)) request.path ≡ true

  -- A request that is passed on is an OPTIONS request, or for the health check, or admitted.
  abbrev pub IsAdmitted : Request Key × Outcome → Type 0
  IsAdmitted (request, Outcome.raised f) = Unit {0}
  IsAdmitted (request, handled (Handled.answered e)) = Unit {0}
  IsAdmitted (request, handled (Handled.passed_on attached)) =
      ((request.method == "OPTIONS" || request.path == "/health") ≡ true)
      ⊎ Admitted request attached

  IsAdmitted-intro :
      (request : Request Key) (outcome : Outcome)
      → ((attached : Option AuthIdentity)
          → (request.method == "OPTIONS" || request.path == "/health") ≡ false
          → outcome ≡ handled (passed_on attached)
          → Admitted request attached)
      → IsAdmitted (request, outcome)
  IsAdmitted-intro request (Outcome.raised f) admit = tt
  IsAdmitted-intro request (handled (Handled.answered e)) admit = tt
  IsAdmitted-intro request (handled (Handled.passed_on attached)) admit =
      elim (Bool-cases (request.method == "OPTIONS" || request.path == "/health")) [
        | inl free ↦ inl free
        | inr inner ↦ inr (admit attached inner refl)
      ]

  -- A step of the server: the cached keys keep their source, and a request that is passed on is admitted.
  handle_request-Admitted :
      (v : Validator Key) (request : Request Key)
      → HasSource config Published v
      → IsServed request
      → HasSource config Published
          (handle_request config kid_of header_kid decode rules v request).0
        × ((attached : Option AuthIdentity)
            → (request.method == "OPTIONS" || request.path == "/health") ≡ false
            → (handle_request config kid_of header_kid decode rules v request).1
              ≡ handled (passed_on attached)
            → Admitted request attached)
  unfolding handle_request resolve_identity validate_token
  handle_request-Admitted v request source served =
      elim (Bool-cases (request.method == "OPTIONS" || request.path == "/health")) [
        | inl free ↦ rw (handle_request, free) (source, λ attached inner e. cc)
        | inr inner ↦ elim (Option-cases (bearer_token request.authorization)) [
          | inl absent ↦
              rw (handle_request, inner, resolve_identity, absent)
                (
                  source,
                  λ attached same e.
                      let (identity, resolved, known, jwt, permitted) =
                        gate-ok rules request (ok anonymous) attached inner e in
                      absurd (
                        anonymous_has_no_jwt
                          (ap (λ i. i.auth_type) (ok-injective _ _ resolved) ∙ jwt)),
                )
          | inr (token, presented) ↦
              let (kept, accepts) =
                validate-Accepted config kid_of header_kid decode Published v request.seen
                  request.again token source served.sees served.sees_again served.later in
              rw (handle_request, inner, resolve_identity, presented, validate_token)
                (
                  kept,
                  λ attached same e.
                      let (identity, resolved, known, jwt, permitted) =
                        gate-ok rules request _ attached inner e in
                      let ((subject, claims), validated, is) = identity_of-ok _ identity resolved in
                      record {
                        token = token;
                        subject = subject;
                        claims = claims;
                        presented = presented;
                        accepted = accepts subject claims validated;
                        known = known ∙ ap some (sym is);
                        permitted = rw is permitted;
                      },
                )
        ]
      ]

  -- From a validator whose cached keys are a set that was published when they were kept, as a new one's are:
  -- if every look at the provider sees what it publishes, then in a sequence of requests, of which some may
  -- fail, every request that reaches a handler, and is neither an OPTIONS request nor for the health check,
  -- carries the identity of its own bearer token, which is accepted under a key published less than 300
  -- seconds before the request or during it, and whose user the access rules permit the path.
  pub serve-IsAdmitted :
      (v : Validator Key) (requests : List (Request Key))
      → HasSource config Published v
      → All IsServed requests
      → All IsAdmitted (serve config kid_of header_kid decode rules v requests)
  unfolding serve
  serve-IsAdmitted v [] source served = tt
  serve-IsAdmitted v (request ∷ requests) source (now, later) =
      let (kept, admitted) = handle_request-Admitted v request source now in
      (
        IsAdmitted-intro request _ admitted,
        serve-IsAdmitted (handle_request config kid_of header_kid decode rules v request).0 requests
            kept later,
      )
