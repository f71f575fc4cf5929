-- ===== src/Api/Sessions/Tests.antt =====
-- The delegated sessions of api/src/delegated_session_store.py under a cipher that marks its texts.
use teehr_cloud_core.Base.{String, ◌≡◌, Option, some, [], ◌<>◌, strip_prefix, strip_prefix-append}
use teehr_cloud_core.Api.Sessions.{SessionRow, Session, put_session, get_session}
use teehr_cloud_core.Api.Sessions.Rows.{get_session-put_session}

abbrev encrypt : String → String
encrypt token = "enc:" <> token

abbrev decrypt : String → Option String
decrypt stored = strip_prefix "enc:" stored

round_trip : (token : String) → decrypt (encrypt token) ≡ some token
round_trip token = strip_prefix-append "enc:" token

abbrev session : Session
session = record {
  sid = "s1";
  subject = "u1";
  user_id = "ann";
  session_id = "jupyter-1";
  realm = "teehr";
  catalog = "iceberg";
  audience = "polaris";
  refresh_token = "r1";
  expires_at = 4000;
}

abbrev row : SessionRow
row = record {
  sid = "s1";
  subject = "u1";
  user_id = "ann";
  session_id = "jupyter-1";
  realm = "teehr";
  catalog = "iceberg";
  audience = "polaris";
  refresh_token = "enc:r1";
  expires_at = 4000;
  updated_at = 400;
}

read_back : get_session decrypt "s1" (put_session encrypt 400 session []) ≡ some (some session)
read_back = get_session-put_session encrypt decrypt round_trip 400 session "s1" []
