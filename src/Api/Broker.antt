-- ===== src/Api/Broker.antt =====
-- api/src/broker.py and the token routes of api/src/routes/auth.py: subject tokens are exchanged at the
-- identity provider, directly or through a delegated session. The HTTP client, PyJWT, Fernet, fresh ids
-- and the clock are parameters.
use teehr_cloud_core.Base.{
  ℕ, zero, suc, ◌+◌, ◌-◌, min, max, String, Bool, not, Option, none, some, [], ◌∷◌, ◌++◌, leb, eqb,
  if◌then◌else◌, or_default, ◌==◌, Result, ok, err, HttpError, http,
}
use teehr_cloud_core.Base.Dict.{Dict}

pub record BrokerConfig : Type 0 where
  pub exchange_enabled : Bool
  pub min_ttl_seconds : ℕ
  pub max_ttl_seconds : ℕ
  pub delegated_session_ttl_seconds : ℕ
  pub oauth_client_id : String
  pub oauth_client_secret : String
  pub subject_client_id : String
  pub subject_client_secret : String
  pub default_scope : String

-- The "detail" of an error: a text, or a dict with the error's name and what the provider answered.
pub record UpstreamDetail : Type 0 where
  pub error : String
  pub message : String
  pub trace_id : Option String
  pub upstream_status : Option ℕ
  pub upstream_error : Option String
  pub upstream_description : Option String

pub data BrokerError : Type 0 where
  plain : HttpError → BrokerError
  upstream : ℕ → UpstreamDetail → BrokerError
  uncaught : BrokerError

-- The fields that are read of a JSON answer; an answer that is not JSON is a text.
pub record TokenBody : Type 0 where
  pub access_token : Option String
  pub token_type : Option String
  pub refresh_token : Option String
  pub expires_in : Option ℕ
  pub error : Option String
  pub error_description : Option String

pub data Reply : Type 0 where
  unreachable : Reply
  json_reply : ℕ → TokenBody → Reply
  text_reply : ℕ → String → Reply

-- `requested_ttl_seconds or config.BROKER_MAX_TTL_SECONDS`, clamped
unfoldable pub clamp_requested_ttl : BrokerConfig → Option ℕ → ℕ
clamp_requested_ttl config requested_ttl_seconds =
    let given = or_default requested_ttl_seconds 0 in
    let requested = if eqb given 0 then config.max_ttl_seconds else given in
    max config.min_ttl_seconds (min requested config.max_ttl_seconds)

abbrev pub with_secret : String → Dict String → Dict String
with_secret secret payload =
    if secret == "" then payload else payload ++ (("client_secret", secret) ∷ [])

abbrev pub access_token_type : String
access_token_type = "urn:ietf:params:oauth:token-type:access_token"

unfoldable pub exchange_payload : BrokerConfig → String → String → Dict String
exchange_payload config subject_token audience = with_secret config.oauth_client_secret (
    ("grant_type", "urn:ietf:params:oauth:grant-type:token-exchange")
    ∷ ("client_id", config.oauth_client_id)
    ∷ ("subject_token", subject_token)
    ∷ ("subject_token_type", access_token_type)
    ∷ ("requested_token_type", access_token_type)
    ∷ ("audience", audience)
    ∷ ("scope", config.default_scope)
    ∷ [])

unfoldable pub refresh_payload : BrokerConfig → String → Dict String
refresh_payload config refresh_token = with_secret config.subject_client_secret (
    ("grant_type", "refresh_token")
    ∷ ("client_id", config.subject_client_id)
    ∷ ("refresh_token", refresh_token)
    ∷ [])

pub record Issued : Type 0 where
  pub access_token : String
  pub token_type : String
  pub expires_in_seconds : ℕ
  pub expires_at_epoch_seconds : ℕ
  pub trace_id : String

abbrev pub given_text : Option String → Option String
given_text none = none
given_text (some s) = if s == "" then none else some s

abbrev pub missing_token : Option String → String → BrokerError
missing_token trace_id message = upstream 502 (record {
  error = "invalid_upstream_response";
  message = message;
  trace_id = trace_id;
  upstream_status = none;
  upstream_error = none;
  upstream_description = none;
})

abbrev pub exchange_failed : String → ℕ → Option String → Option String → BrokerError
exchange_failed trace_id status error description = upstream 502 (record {
  error = "token_exchange_failed";
  message = "Broker failed to exchange token with identity provider";
  trace_id = some trace_id;
  upstream_status = some status;
  upstream_error = error;
  upstream_description = description;
})

abbrev pub connectivity_error : String → BrokerError
connectivity_error trace_id = upstream 503 (record {
  error = "broker_connectivity_error";
  message = "Unable to contact identity provider for token exchange";
  trace_id = some trace_id;
  upstream_status = none;
  upstream_error = none;
  upstream_description = none;
})

abbrev pub refresh_failed : ℕ → Option String → BrokerError
refresh_failed status description = upstream 401 (record {
  error = "subject_refresh_failed";
  message = "Unable to refresh delegated subject token";
  trace_id = none;
  upstream_status = some status;
  upstream_error = none;
  upstream_description = description;
})

-- `s[:500]`
unfoldable pub first_chars : ℕ → String → String
first_chars zero s = ""
first_chars (suc n) String.[] = ""
first_chars (suc n) (String.◌∷◌ c s) = String.◌∷◌ c (first_chars n s)

-- `token_exp` is the "exp" claim of an access token, read without verification; `none` where reading
-- it raises or it is not positive. Each reading of the clock is its own argument.
module _ (config : BrokerConfig) (post : Dict String → Reply) (token_exp : String → Option ℕ) where
  unfoldable pub issue : String → String → ℕ → ℕ → String → Issued
  issue access_token token_type fallback now trace_id =
      let expires_at = or_default (token_exp access_token) fallback in
      record {
        access_token = access_token;
        token_type = token_type;
        expires_in_seconds = max (expires_at - now) 1;
        expires_at_epoch_seconds = expires_at;
        trace_id = trace_id;
      }

  unfoldable pub exchange_token_for_polaris :
      String → ℕ → ℕ → String → String → Option ℕ → Result BrokerError Issued
  exchange_token_for_polaris trace_id now later subject_token audience requested_ttl_seconds =
      if not config.exchange_enabled
      then err (plain (http 503 "Token broker is disabled"))
      else elim (post (exchange_payload config subject_token audience)) [
        | unreachable ↦ err (connectivity_error trace_id)
        | text_reply status text ↦
            if leb 400 status
            then err (exchange_failed trace_id status none (some (first_chars 500 text)))
            else err uncaught
        | json_reply status body ↦
            if leb 400 status
            then err (exchange_failed trace_id status body.error body.error_description)
            else elim (given_text body.access_token) [
              | none ↦
                  err
                    (missing_token (some trace_id) "Identity provider did not return access_token")
              | some access_token ↦
                  let expires_in =
                    or_default body.expires_in (clamp_requested_ttl config requested_ttl_seconds) in
                  ok (
                    issue access_token (or_default body.token_type "Bearer")
                      (now + max expires_in 1) later trace_id)
            ]
      ]

  -- A failed connection is not caught here.
  unfoldable pub refresh_subject_access_token : String → Result BrokerError (String × Option String)
  refresh_subject_access_token refresh_token = elim (post (refresh_payload config refresh_token)) [
    | unreachable ↦ err uncaught
    | text_reply status text ↦
        if leb 400 status
        then err (refresh_failed status (some (first_chars 500 text)))
        else err uncaught
    | json_reply status body ↦
        if leb 400 status
        then err (
            refresh_failed status (elim (given_text body.error_description) [
              | none ↦ body.error
              | some description ↦ some description
            ]))
        else elim (given_text body.access_token) [
          | none ↦
              err (missing_token none "Identity provider did not return refreshed access_token")
          | some access_token ↦ ok (access_token, body.refresh_token)
        ]
  ]
