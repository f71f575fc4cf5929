-- ===== src/Keycloak/Accepted.antt =====
-- What a validated token was checked against.
use teehr_cloud_core.Base.{
  ℕ, ◌≤◌, String, ◌≡◌, refl, ap, ◌∙◌, inl, inr, true, false, Option, none, some, List, arith,
  Bool-cases, or_default, ◌==◌, Result, ok, err, >>=-passed, ok-injective, Result-cases,
}
use teehr_cloud_core.Keycloak.{
  Failure, answered, unreachable, invalid_jwt, uncaught, KeySet, keys_of, Validator, Reading,
  Claims, KeycloakConfig, check_claims, has_allowed_audience, allowed_audiences, translated,
  get_jwks_url, kept_keys, fetch_jwks, refresh_jwks, get_jwks, find_key, find_anew, signing_key,
  token_kid, checked, validate,
}
use teehr_cloud_core.Keycloak.Keys.{HasSource, Sees, Recent, signing_key-Found}

module _ {Key : Type 0} (config : KeycloakConfig) (kid_of : Key → Option String)
    (header_kid : String → Result Failure (Option String))
    (decode : String → Key → Result Failure Claims) where
  translated_ok {ℓ} : {A : Type ℓ} (r : Result Failure A) (a : A) → translated r ≡ ok a → r ≡ ok a
  translated_ok (ok b) a e = e
  translated_ok (err (answered h)) a e = cc
  translated_ok (err unreachable) a e = cc
  translated_ok (err invalid_jwt) a e = cc
  translated_ok (err uncaught) a e = cc

  check_claims-passed :
      (claims : Claims) (subject : String)
      → check_claims config claims ≡ ok subject
      → (has_allowed_audience (allowed_audiences config) claims ≡ true)
        × (or_default claims.sub "" ≡ subject)
        × ((subject == "") ≡ false)
  unfolding check_claims
  check_claims-passed claims subject e =
      elim (Bool-cases (has_allowed_audience (allowed_audiences config) claims)) [
        | inr f ↦ absurd (ground (arith, rw (check_claims, f) at e))
        | inl f ↦ elim (Bool-cases (or_default claims.sub "" == "")) [
          | inl g ↦ absurd (ground (arith, rw (check_claims, f, g) at e))
          | inr g ↦
              let same : or_default claims.sub "" ≡ subject =
                ok-injective _ _ (rw (check_claims, f, g) at e) in
              (f, same, rw (← same) g)
        ]
      ]

  -- A token whose key id is not in the keys at hand is accepted if the provider, asked anew, answers
  -- with a set that has a key of that id under which the token decodes to acceptable claims.
  pub validate-rotated :
      (v : Validator Key) (seen again : Reading Key) (token kid url subject : String)
      (old : List Key) (set : KeySet Key) (key : Key) (claims : Claims)
      → token_kid config kid_of header_kid decode token ≡ ok kid
      → (get_jwks config v seen).1 ≡ ok old
      → find_key config kid_of kid old ≡ none
      → (get_jwks_url config (record (get_jwks config v seen).0 { jwks_cache = none }) again).1
        ≡ ok url
      → again.keys_answer url ≡ ok set
      → find_key config kid_of kid (keys_of set) ≡ some key
      → decode token key ≡ ok claims
      → check_claims config claims ≡ ok subject
      → (validate config kid_of header_kid decode v seen again token).1 ≡ ok (subject, claims)
  unfolding validate signing_key find_anew get_jwks refresh_jwks fetch_jwks kept_keys
  validate-rotated v seen again token kid url subject old set key claims a b c d e f g h =
      rw
        (
          validate, a, signing_key, b, c, find_anew, get_jwks, kept_keys, refresh_jwks, d,
          fetch_jwks, e, f, g, h,
        )
        refl

  module _ (Published : ℕ → List Key → Type 0) where
    -- What a token was accepted on.
    pub record Accepted (now : ℕ) (token subject : String) (claims : Claims) : Type 0 where
      pub kid : String
      pub key : Key
      pub keys : List Key
      pub named : token_kid config kid_of header_kid decode token ≡ ok kid
      pub recent : Recent config Published now keys
      pub listed : find_key config kid_of kid keys ≡ some key
      pub signed : decode token key ≡ ok claims
      pub meant : has_allowed_audience (allowed_audiences config) claims ≡ true
      pub about : (or_default claims.sub "" ≡ subject) × ((subject == "") ≡ false)

    -- If the provider answers with the keys that it publishes at the time, a token is accepted only
    -- under a key with the token's key id, from a set that was published less than 300 seconds before
    -- the call or during it, with an allowed audience and a subject; and the cached keys remain a set
    -- that was published when it was kept, whatever the outcome.
    pub validate-Accepted :
        (v : Validator Key) (seen again : Reading Key) (token : String)
        → HasSource config Published v
        → Sees config Published seen
        → Sees config Published again
        → seen.first_at ≤ again.first_at
        → HasSource config Published (validate config kid_of header_kid decode v seen again token).0
          × ((subject : String) (claims : Claims)
              → (validate config kid_of header_kid decode v seen again token).1
                ≡ ok (subject, claims)
              → Accepted seen.first_at token subject claims)
    unfolding validate
    validate-Accepted v seen again token source sees sees_again later =
        elim (Result-cases (token_kid config kid_of header_kid decode token)) [
          | inr (fault, e) ↦
              rw (validate, e)
                (
                  source,
                  λ subject claims f. cc (translated_ok {A = String × Claims} (err fault) _ f),
                )
          | inl (kid, e) ↦
              let (kept, found) =
                signing_key-Found config Published kid_of kid v seen again source sees sees_again
                  later in
              rw (validate, e)
                (
                  kept,
                  λ subject claims f.
                      let (key, got, rest) =
                        >>=-passed (signing_key config kid_of kid v seen again).1
                          (checked config kid_of header_kid decode token) (translated_ok _ _ f) in
                      let (keys, recent, listed) = found key got in
                      let (cs, signed, checks) = >>=-passed (decode token key) _ rest in
                      let (s, passed, same) = >>=-passed (check_claims config cs) _ checks in
                      let pair = ok-injective _ _ same in
                      let signed' = signed ∙ ap (λ p. ok p.1) pair in
                      let passed' = rw (ap (λ p. p.1) pair) at (passed ∙ ap (λ p. ok p.0) pair) in
                      let (meant, same_sub, known) = check_claims-passed claims subject passed' in
                      record {
                        kid = kid;
                        key = key;
                        keys = keys;
                        named = e;
                        recent = recent;
                        listed = listed;
                        signed = signed';
                        meant = meant;
                        about = (same_sub, known);
                      },
                )
        ]
