-- ===== src/Api/Delegation/Tests.antt =====
-- A delegated session of api/src/broker.py, with the JWT of Delegation/Codec.antt.
use teehr_cloud_core.Base.{
  ◌-◌, max, ℕ, ◌+◌, String, ◌≡◌, refl, ap, ◌≢◌, true, Option, none, some, [], ◌∷◌, arith, eq_iff,
  ◌<>◌, strip_prefix, strip_prefix-append, ok, err, http,
}
use teehr_cloud_core.Base.Dict.{Dict}
use teehr_cloud_core.Api.Sessions.{SessionRow, started, Table, upsert, put_session, get_session}
use teehr_cloud_core.Api.Broker.{
  BrokerConfig, Issued, plain, Reply, json_reply, clamp_requested_ttl, issue,
  refresh_subject_access_token,
}
use teehr_cloud_core.Api.Delegation.{
  SessionRequest, TokenRequest, session_expiry, session_claims, create_delegated_broker_session,
  session_of, exchange_via_broker_session,
}
use teehr_cloud_core.Api.Delegation.Codec.{jwt}
use teehr_cloud_core.Api.Delegation.Exchange.{Served, exchange-Served}
use teehr_cloud_core.Api.Delegation.Created.{
  create-exchange, create-exchange_result, exchange-expired,
}

abbrev config : BrokerConfig
config = record {
  exchange_enabled = true;
  min_ttl_seconds = 60;
  max_ttl_seconds = 900;
  delegated_session_ttl_seconds = 3600;
  oauth_client_id = "teehr-api";
  oauth_client_secret = "";
  subject_client_id = "jupyterhub";
  subject_client_secret = "";
  default_scope = "openid";
}

s1_nonempty : ◌≢◌ {A = String} "s1" ""
s1_nonempty e = absurd (ground (arith, (eq_iff "s1" "").1 e))

abbrev encrypt : String → String
encrypt token = "enc:" <> token

abbrev decrypt : String → Option String
decrypt stored = strip_prefix "enc:" stored

round_trip : (token : String) → decrypt (encrypt token) ≡ some token
round_trip token = strip_prefix-append "enc:" token

-- The provider answers every request with a token and a new refresh token.
abbrev post : Dict String → Reply
post payload = json_reply 200 (record {
  access_token = some "a1";
  token_type = none;
  refresh_token = some "r2";
  expires_in = none;
  error = none;
  error_description = none;
})

abbrev token_exp : String → Option ℕ
token_exp token = some 1300

abbrev session : SessionRequest
session = record {
  user_id = "ann";
  session_id = "jupyter-1";
  realm = "teehr";
  catalog = "iceberg";
  audience = "polaris";
  refresh_token = "r1";
}

abbrev request : TokenRequest
request = record {
  user_id = "ann";
  session_id = "jupyter-1";
  realm = "teehr";
  requested_ttl_seconds = some 600;
  audience = "polaris";
}

abbrev row : SessionRow
row = record {
  sid = "s1";
  subject = "u1";
  user_id = "ann";
  session_id = "jupyter-1";
  realm = "teehr";
  catalog = "iceberg";
  audience = "polaris";
  refresh_token = "enc:r1";
  expires_at = 4000;
  updated_at = 400;
}

abbrev token : String
token = jwt.encode (session_claims config jwt encrypt "s1" 400 "u1" "ann")

create-exchange_example :
    (after : Table) × (issued : Issued) × (exchange_via_broker_session config jwt encrypt decrypt
        post token_exp "t1" 1000 token request
        (started (row ∷ []))
      ≡ (started after, ok issued))
    × (issued.access_token ≡ "a1")
    × (issued.token_type ≡ "Bearer")
    × (issued.expires_at_epoch_seconds ≡ 1300)
    × (issued.expires_in_seconds ≡ max (issued.expires_at_epoch_seconds - 1000) 1)
    × (issued.trace_id ≡ "t1")
    × (get_session decrypt "s1" after
        ≡ some (some (record (session_of "s1" "u1" 4000 session) { refresh_token = "r2" })))
unfolding create_delegated_broker_session session_expiry put_session upsert
    refresh_subject_access_token
create-exchange_example =
    create-exchange config jwt encrypt decrypt post token_exp round_trip "s1" "t1" "u1" 400 1000
      session request (started []) (started (row ∷ []))
      (record { broker_session_token = token; expires_at_epoch_seconds = 4000 }) "a1" (some "r2")
      s1_nonempty refl (omega arith) (refl, refl, refl) refl

exchange-expired_example :
    exchange_via_broker_session config jwt encrypt decrypt post token_exp "t1" 4000 token request
      (started (row ∷ []))
    ≡ (started (row ∷ []), err (plain (http 401 "Invalid broker session token")))
unfolding create_delegated_broker_session session_expiry put_session upsert
exchange-expired_example =
    exchange-expired config jwt encrypt decrypt post token_exp "s1" "t1" "u1" 400 4000 session
      request (started []) (started (row ∷ []))
      (record { broker_session_token = token; expires_at_epoch_seconds = 4000 }) refl (omega arith)

is_served :
    (exchange_via_broker_session config jwt encrypt decrypt post token_exp "t1" 1000 token request
      (started (row ∷ []))).1
    ≡ ok (
        issue config post token_exp "a1" "Bearer"
          (1000 + clamp_requested_ttl config request.requested_ttl_seconds)
          1000
          "t1")
unfolding create_delegated_broker_session session_expiry put_session upsert
    refresh_subject_access_token
is_served =
    let (_, _, e) =
      create-exchange_result config jwt encrypt decrypt post token_exp round_trip "s1" "t1" "u1" 400
        1000 session request (started []) (started (row ∷ []))
        (record { broker_session_token = token; expires_at_epoch_seconds = 4000 }) "a1" (some "r2")
        s1_nonempty refl (omega arith) (refl, refl, refl) refl in
    ap (λ p. p.1) e

exchange-Served_example :
    Served config jwt encrypt decrypt post token_exp 1000 token request (started (row ∷ []))
exchange-Served_example =
    exchange-Served config jwt encrypt decrypt post token_exp "t1" 1000 token request
      (started (row ∷ []))
      (issue config post token_exp "a1" "Bearer"
        (1000 + clamp_requested_ttl config request.requested_ttl_seconds) 1000 "t1")
      is_served
