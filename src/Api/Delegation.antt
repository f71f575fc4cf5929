-- ===== src/Api/Delegation.antt =====
-- api/src/broker.py's delegated sessions and the token routes of api/src/routes/auth.py. PyJWT, Fernet,
-- fresh ids and the clock are parameters.
pub mod Exchange
pub mod Created
mod Codec
mod Tests
use mathlib.Core.Option
use teehr_cloud_core.Base.{
  ℕ, zero, suc, ◌+◌, ◌-◌, ◌*◌, ◌/◌, ◌%◌, ◌^◌, ◌≤◌, ◌<◌, max, Char, code, String, ◌≡◌, refl, sym, ap,
  ◌∙◌, ◌≢◌, ◌↔◌, ◌⊎◌, inl, inr, Bool, true, false, not, ◌&&◌, ◌||◌, Option, none, some, [], ◌∷◌,
  ◌++◌, arith, eq_iff, eq_refl, ltb, leb, eqb, if◌then◌else◌, Bool-cases, Option-cases, ◌==◌, ◌<>◌,
  strip_prefix, strip_prefix-append, Result, ok, err, ◌>>=◌, ◌>>◌, raise_if, or_raise, HttpError,
  http, Result-cases, >>=-passed, ok-injective,
}
use teehr_cloud_core.Base.Dict.{
  Dict, lookup, insert, erase, keys, has_key, lookup-insert, lookup-erase, has_key-contains,
  HasDistinctKeys, lookup_of_absent,
}
use teehr_cloud_core.Api.Identity.{AuthIdentity, get_authenticated_identity, extract_bearer_token}
use teehr_cloud_core.Api.Sessions.{
  Store, unset, unstarted, started, Table, Session, put_session, get_session, update_refresh_token,
  delete_session,
}
use teehr_cloud_core.Api.Broker.{
  BrokerConfig, BrokerError, plain, uncaught, Reply, Issued, clamp_requested_ttl, given_text, issue,
  exchange_token_for_polaris, refresh_subject_access_token,
}

-- The claims of a broker session token.
pub record Claims : Type 0 where
  pub sid : String
  pub sub : String
  pub uid : String
  pub exp : ℕ
  pub iat : ℕ
  pub typ : String

-- PyJWT under the signing secret: `decode now token` refuses a bad signature and an expired token.
pub record SessionJwt : Type 0 where
  pub encode : Claims → String
  pub encode_nonempty : (claims : Claims) → (encode claims == "") ≡ false
  pub decode : ℕ → String → Option Claims
  pub decode-encode :
      (now : ℕ) (claims : Claims) → now < claims.exp → decode now (encode claims) ≡ some claims
  pub decode-expired :
      (now : ℕ) (claims : Claims) → claims.exp ≤ now → decode now (encode claims) ≡ none

-- `none` is HTTP 503, and a store that has not been started raises
abbrev pub store_rows : Store → Result BrokerError Table
store_rows unset = err (plain (http 503 "Delegated session store unavailable"))
store_rows unstarted = err uncaught
store_rows (started rows) = ok rows

pub record SessionRequest : Type 0 where
  pub user_id : String
  pub session_id : String
  pub realm : String
  pub catalog : String
  pub audience : String
  pub refresh_token : String

pub record CreatedSession : Type 0 where
  pub broker_session_token : String
  pub expires_at_epoch_seconds : ℕ

abbrev pub session_of : String → String → ℕ → SessionRequest → Session
session_of sid subject expires_at request = record {
  sid = sid;
  subject = subject;
  user_id = request.user_id;
  session_id = request.session_id;
  realm = request.realm;
  catalog = request.catalog;
  audience = request.audience;
  refresh_token = request.refresh_token;
  expires_at = expires_at;
}

-- What identifies the session in a token request.
pub record TokenRequest : Type 0 where
  pub user_id : String
  pub session_id : String
  pub realm : String
  pub requested_ttl_seconds : Option ℕ
  pub audience : String

abbrev pub is_mismatch : Session → TokenRequest → Bool
is_mismatch session request =
    not (session.user_id == request.user_id)
    || not (session.session_id == request.session_id)
    || not (session.realm == request.realm)

module _ (config : BrokerConfig) (jwt : SessionJwt) (encrypt : String → String) where
  unfoldable pub session_expiry : ℕ → ℕ
  session_expiry now = now + max config.delegated_session_ttl_seconds 300

  -- `sid` is `uuid.uuid4().hex`, `now` the clock
  abbrev pub session_claims : String → ℕ → String → String → Claims
  session_claims sid now subject user_id = record {
    sid = sid;
    sub = subject;
    uid = user_id;
    exp = session_expiry now;
    iat = now;
    typ = "teehr-broker-session";
  }

  unfoldable pub create_delegated_broker_session :
      String → ℕ → String → SessionRequest → Store → Result BrokerError (Store × CreatedSession)
  create_delegated_broker_session sid now subject request store = do
    raise_if (request.refresh_token == "") (plain (http 400 "refresh_token is required"))
    let expires_at = session_expiry now
    let token = jwt.encode (session_claims sid now subject request.user_id)
    rows ← store_rows store
    ok (
      started (put_session encrypt now (session_of sid subject expires_at request) rows),
      record { broker_session_token = token; expires_at_epoch_seconds = expires_at },
    )

  module _ (decrypt : String → Option String) (post : Dict String → Reply)
      (token_exp : String → Option ℕ) where
    -- the new refresh token is kept if there is one
    abbrev pub rotated : ℕ → String → Option String → Table → Table
    rotated now sid refresh_token rows = elim (given_text refresh_token) [
      | none ↦ rows
      | some token ↦ update_refresh_token encrypt now sid token rows
    ]

    -- after the session is found and matches
    unfoldable pub refresh_and_issue :
        String → ℕ → String → Session → TokenRequest → Table → Table × Result BrokerError Issued
    refresh_and_issue trace_id now sid session request rows =
        elim (refresh_subject_access_token config post token_exp session.refresh_token) [
          | err e ↦ (rows, err e)
          | ok (access_token, refresh_token) ↦ (
            rotated now sid refresh_token rows,
            ok (
                issue config post token_exp access_token "Bearer"
                  (now + clamp_requested_ttl config request.requested_ttl_seconds) now trace_id),
          )
        ]

    -- the session that the table has for the token's "sid"
    unfoldable pub use_session :
        String → ℕ → String → TokenRequest → Table → Table × Result BrokerError Issued
    use_session trace_id now sid request rows = elim (get_session decrypt sid rows) [
      | none ↦ (rows, err uncaught)
      | some none ↦ (rows, err (plain (http 401 "Delegated broker session not found")))
      | some (some session) ↦
          if leb session.expires_at now
          then (delete_session sid rows, err (plain (http 401 "Delegated broker session expired")))
          else if is_mismatch session request
          then (rows, err (plain (http 403 "Session identity mismatch")))
          else refresh_and_issue trace_id now sid session request rows
    ]

    -- the "sid" of the token
    unfoldable pub session_id_of : ℕ → String → Result BrokerError String
    session_id_of now token =
        if token == "" then err (plain (http 401 "broker session token required")) else do
          claims ← or_raise (jwt.decode now token) (plain (http 401 "Invalid broker session token"))
          raise_if (claims.sid == "") (plain (http 401 "Invalid broker session token"))
          ok claims.sid

    -- the clock is read once for the call
    unfoldable pub exchange_via_broker_session :
        String → ℕ → String → TokenRequest → Store → Store × Result BrokerError Issued
    exchange_via_broker_session trace_id now token request store = elim (session_id_of now token) [
      | err e ↦ (store, err e)
      | ok sid ↦ elim (store_rows store) [
        | err e ↦ (store, err e)
        | ok rows ↦
            let result = use_session trace_id now sid request rows in (started result.0, result.1)
      ]
    ]

abbrev pub lift_http {ℓ} : {A : Type ℓ} → Result HttpError A → Result BrokerError A
lift_http (ok a) = ok a
lift_http (err e) = err (plain e)

-- `payload.user_id in allowed_user_ids`
abbrev pub is_own_user_id : AuthIdentity → String → Bool
is_own_user_id identity user_id =
    user_id == identity.subject
    || elim (given_text identity.preferred_username) [ none ↦ false | some name ↦ user_id == name ]

unfoldable pub jwt_user : AuthIdentity → String → Result BrokerError AuthIdentity
jwt_user request_identity user_id = do
  identity ← lift_http (get_authenticated_identity request_identity)
  raise_if (not (identity.auth_type == "jwt")) (plain (http 403 "JWT identity required"))
  raise_if (not (is_own_user_id identity user_id))
      (plain (http 403 "Requested user_id does not match authenticated identity"))
  ok identity

unfoldable pub polaris_token :
    BrokerConfig
    → (Dict String → Reply)
    → (String → Option ℕ)
    → String
    → ℕ
    → ℕ
    → Option String
    → AuthIdentity
    → TokenRequest
    → Result BrokerError Issued
polaris_token config post token_exp trace_id now later authorization request_identity request = do
  identity ← jwt_user request_identity request.user_id
  bearer_token ← lift_http (extract_bearer_token authorization)
  exchange_token_for_polaris config post token_exp trace_id now later bearer_token request.audience
      request.requested_ttl_seconds

unfoldable pub polaris_session :
    BrokerConfig
    → SessionJwt
    → (String → String)
    → String
    → ℕ
    → AuthIdentity
    → SessionRequest
    → Store
    → Result BrokerError (Store × CreatedSession)
polaris_session config jwt encrypt sid now request_identity request store = do
  identity ← jwt_user request_identity request.user_id
  create_delegated_broker_session config jwt encrypt sid now identity.subject request store
