-- ===== src/Api/TokenRoutes.antt =====
-- api/src/routes/auth.py: the route of a delegated session, and the body of the answers with a token.
use teehr_cloud_core.Base.{ℕ, String, Option, Result, ok, err, or_default, strip}
use teehr_cloud_core.Base.Dict.{Dict}
use teehr_cloud_core.Api.Sessions.{Store}
use teehr_cloud_core.Api.Broker.{BrokerConfig, BrokerError, Reply, Issued}
use teehr_cloud_core.Api.Delegation.{SessionJwt, TokenRequest, exchange_via_broker_session}

pub record PolarisTokenIssuedFor : Type 0 where
  pub user_id : String
  pub session_id : String
  pub realm : String

pub record PolarisTokenResponse : Type 0 where
  pub access_token : String
  pub token_type : String
  pub expires_at_epoch_seconds : ℕ
  pub expires_in_seconds : ℕ
  pub issued_for : PolarisTokenIssuedFor
  pub trace_id : String

unfoldable pub token_response : TokenRequest → Issued → PolarisTokenResponse
token_response payload exchanged = record {
  access_token = exchanged.access_token;
  token_type = exchanged.token_type;
  expires_at_epoch_seconds = exchanged.expires_at_epoch_seconds;
  expires_in_seconds = exchanged.expires_in_seconds;
  issued_for = record {
    user_id = payload.user_id;
    session_id = payload.session_id;
    realm = payload.realm;
  };
  trace_id = exchanged.trace_id;
}

-- the answer of a token route
abbrev pub responded :
    TokenRequest → Result BrokerError Issued → Result BrokerError PolarisTokenResponse
responded payload (ok exchanged) = ok (token_response payload exchanged)
responded payload (err e) = err e

-- `header` is "x-broker-session-token"
unfoldable pub polaris_token_via_session :
    BrokerConfig
    → SessionJwt
    → (String → String)
    → (String → Option String)
    → (Dict String → Reply)
    → (String → Option ℕ)
    → String
    → ℕ
    → Option String
    → TokenRequest
    → Store
    → Store × Result BrokerError PolarisTokenResponse
unfolding token_response
polaris_token_via_session config jwt encrypt decrypt post token_exp trace_id now header payload
      store =
    let (changed, exchanged) =
      exchange_via_broker_session config jwt encrypt decrypt post token_exp trace_id now
        (strip (or_default header "")) payload store in
    (changed, responded payload exchanged)
