-- ===== src/Keycloak.antt =====
-- The validation of Keycloak tokens, api/src/auth.py: KeycloakJWTValidator, whose text
-- xpublish-api/src/auth.py repeats. PyJWT and the HTTP client are parameters; a reading is what one call
-- of `_get_jwks` sees of the clock and of the provider.
pub mod Keys
pub mod Accepted
mod Tests
use teehr_cloud_core.Base.{
  ℕ, ◌-◌, String, Bool, true, false, not, ◌&&◌, ◌||◌, Option, none, some, List, [], ◌∷◌, ltb,
  if◌then◌else◌, any, contains, or_default, ◌==◌, Result, ok, err, ◌>>=◌, ◌>>◌, raise_if, or_raise,
  HttpError, http,
}
use teehr_cloud_core.Base.Split.{stripped_parts, words}

-- An HTTPException, an httpx.HTTPError, a jwt.PyJWTError, and any other exception.
pub data Failure : Type 0 where
  answered : HttpError → Failure
  unreachable invalid_jwt uncaught : Failure

-- The document of the signing keys. An empty object counts as absent where the cache is tested.
pub data KeySet (Key : Type 0) : Type 0 where
  blank : KeySet Key
  key_set : List Key → KeySet Key

-- `jwks.get("keys", [])`
abbrev pub keys_of : {Key : Type 0} → KeySet Key → List Key
keys_of blank = []
keys_of (key_set keys) = keys

abbrev pub jwks_cache_ttl : ℕ
jwks_cache_ttl = 300

abbrev pub jwks_url_cache_ttl : ℕ
jwks_url_cache_ttl = 3600

pub record Validator (Key : Type 0) : Type 0 where
  pub jwks_cache : Option (KeySet Key)
  pub jwks_cache_time : ℕ
  pub jwks_url_cache : Option String
  pub jwks_url_cache_time : ℕ

-- `__init__`
abbrev pub new_validator : {Key : Type 0} → Validator Key
new_validator = record {
  jwks_cache = none;
  jwks_cache_time = 0;
  jwks_url_cache = none;
  jwks_url_cache_time = 0;
}

-- The clock before and under the lock and where the URL is tested, the "jwks_uri" of the provider's
-- configuration, and the key set at a URL.
pub record Reading (Key : Type 0) : Type 0 where
  pub first_at : ℕ
  pub locked_at : ℕ
  pub url_at : ℕ
  pub openid_answer : Result Failure String
  pub keys_answer : String → Result Failure (KeySet Key)

-- "aud" is missing, one name, or a list.
pub data Audience : Type 0 where
  absent : Audience
  one : String → Audience
  many : List String → Audience

-- `_to_list`
abbrev pub to_list : Audience → List String
to_list absent = []
to_list (one value) = value ∷ []
to_list (many values) = values

-- The claims that are read. `groups` is `none` where the claim is no list.
pub record Claims : Type 0 where
  pub aud : Audience
  pub azp : Option String
  pub realm_roles : List String
  pub scope : Option String
  pub sub : Option String
  pub preferred_username : Option String
  pub groups : Option (List String)

-- KEYCLOAK_JWKS_URL and KEYCLOAK_ALLOWED_AUDIENCES
pub record KeycloakConfig : Type 0 where
  pub jwks_url : String
  pub audiences : String

unfoldable pub allowed_audiences : KeycloakConfig → List String
unfolding stripped_parts
allowed_audiences config = stripped_parts config.audiences

abbrev pub is_allowed_azp : Option String → List String → Bool
is_allowed_azp none allowed = false
is_allowed_azp (some azp) allowed = contains azp allowed

-- the audience tests
unfoldable pub has_allowed_audience : List String → Claims → Bool
has_allowed_audience [] claims = true
has_allowed_audience (a ∷ allowed) claims =
    any (λ aud. contains aud (a ∷ allowed)) (to_list claims.aud)
    || is_allowed_azp claims.azp (a ∷ allowed)

-- the claims with their subject, after `jwt.decode`
unfoldable pub check_claims : KeycloakConfig → Claims → Result Failure String
check_claims config claims = do
  raise_if (not (has_allowed_audience (allowed_audiences config) claims))
      (answered (http 401 "Invalid access token"))
  raise_if (or_default claims.sub "" == "") (answered (http 401 "JWT missing subject"))
  ok (or_default claims.sub "")

-- `claims.get("scope", "").split() if claims.get("scope") else []`
unfoldable pub scopes_of : Claims → List String
scopes_of claims = words (or_default claims.scope "")

-- the `except` clauses of `validate`
abbrev pub translated {ℓ} : {A : Type ℓ} → Result Failure A → Result Failure A
translated (ok a) = ok a
translated (err (answered e)) = err (answered e)
translated (err unreachable) =
    err (answered (http 503 "Authentication provider temporarily unavailable"))
translated (err invalid_jwt) = err (answered (http 401 "Invalid access token"))
translated (err uncaught) = err uncaught

module _ {Key : Type 0} (config : KeycloakConfig) where
  unfoldable pub cached_url : Validator Key → ℕ → Option String
  cached_url v now = elim v.jwks_url_cache [
    | none ↦ none
    | some url ↦
        if not (url == "") && ltb (now - v.jwks_url_cache_time) jwks_url_cache_ttl
        then some url
        else none
  ]

  unfoldable pub get_jwks_url : Validator Key → Reading Key → Validator Key × Result Failure String
  get_jwks_url v seen =
      if not (config.jwks_url == "")
      then (v, ok config.jwks_url)
      else elim (cached_url v seen.url_at) [
        | some url ↦ (v, ok url)
        | none ↦ elim seen.openid_answer [
          | err e ↦ (v, err e)
          | ok url ↦
              (record v { jwks_url_cache = some url; jwks_url_cache_time = seen.url_at }, ok url)
        ]
      ]

  -- the set that was kept at a time, if it is not blank and not too old
  unfoldable pub kept_keys : ℕ → ℕ → Option (KeySet Key) → Option (List Key)
  kept_keys now at none = none
  kept_keys now at (some blank) = none
  kept_keys now at (some (key_set keys)) = if ltb (now - at) jwks_cache_ttl then some keys else none

  abbrev pub cached_keys : Validator Key → ℕ → Option (List Key)
  cached_keys v now = kept_keys now v.jwks_cache_time v.jwks_cache

  -- the key set is kept with the time read under the lock
  unfoldable pub fetch_jwks :
      Validator Key → Reading Key → String → Validator Key × Result Failure (List Key)
  fetch_jwks v seen url = elim (seen.keys_answer url) [
    | err e ↦ (v, err e)
    | ok set ↦
        (record v { jwks_cache = some set; jwks_cache_time = seen.locked_at }, ok (keys_of set))
  ]

  unfoldable pub refresh_jwks :
      Validator Key → Reading Key → Validator Key × Result Failure (List Key)
  refresh_jwks v seen =
      let located = get_jwks_url v seen in
      elim located.1 [ err e ↦ (located.0, err e) | ok url ↦ fetch_jwks located.0 seen url ]

  unfoldable pub get_jwks : Validator Key → Reading Key → Validator Key × Result Failure (List Key)
  get_jwks v seen = elim (cached_keys v seen.first_at) [
    | some keys ↦ (v, ok keys)
    | none ↦ elim (cached_keys v seen.locked_at) [
      | some keys ↦ (v, ok keys)
      | none ↦ refresh_jwks v seen
    ]
  ]

  module _ (kid_of : Key → Option String) where
    -- `next((k for k in keys if k.get("kid") == kid), None)`
    unfoldable pub find_key : String → List Key → Option Key
    find_key kid [] = none
    find_key kid (key ∷ keys) =
        let later = find_key kid keys in
        elim (kid_of key) [ none ↦ later | some k ↦ if k == kid then some key else later ]

    -- the second look, after the cache is emptied
    unfoldable pub find_anew :
        String → Validator Key → Reading Key → Validator Key × Result Failure Key
    find_anew kid v again =
        let fetched = get_jwks (record v { jwks_cache = none }) again in
        (
          fetched.0,
          (do
            keys ← fetched.1
            or_raise (find_key kid keys) (answered (http 401 "Unable to find signing key"))),
        )

    unfoldable pub signing_key :
        String → Validator Key → Reading Key → Reading Key → Validator Key × Result Failure Key
    signing_key kid v seen again =
        let first = get_jwks v seen in
        elim first.1 [
          | err e ↦ (first.0, err e)
          | ok keys ↦ elim (find_key kid keys) [
            | some key ↦ (first.0, ok key)
            | none ↦ find_anew kid first.0 again
          ]
        ]

    -- `header_kid` is the "kid" of `jwt.get_unverified_header`, `decode` is `jwt.decode` under a key.
    module _ (header_kid : String → Result Failure (Option String))
        (decode : String → Key → Result Failure Claims) where
      -- the "kid" of the header, not empty
      unfoldable pub token_kid : String → Result Failure String
      token_kid token = do
        kid ← header_kid token
        raise_if (or_default kid "" == "") (answered (http 401 "JWT missing key id"))
        ok (or_default kid "")

      abbrev pub checked : String → Key → Result Failure (String × Claims)
      checked token key = do
        claims ← decode token key
        subject ← check_claims config claims
        ok (subject, claims)

      -- `validate` up to the identity: the validator, and the subject with the claims
      unfoldable pub validate :
          Validator Key
          → Reading Key
          → Reading Key
          → String
          → Validator Key × Result Failure (String × Claims)
      validate v seen again token = elim (token_kid token) [
        | err e ↦ (v, translated (err e))
        | ok kid ↦
            let found = signing_key kid v seen again in
            (found.0, translated (found.1 >>= checked token))
      ]
