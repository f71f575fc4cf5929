-- ===== src/Xpublish/App.antt =====
-- xpublish-api/src/main.py: the authentication middleware, the route that lends S3 credentials, and the
-- lists of what a user may read. STS and the clock are parameters.
pub mod Gate
pub mod Lending
pub mod Lent
use mathlib.Core.Option
use teehr_cloud_core.Base.{
  ℕ, ◌+◌, ◌-◌, ◌*◌, ◌/◌, ◌%◌, ◌^◌, ◌≤◌, ◌<◌, String, ◌≡◌, refl, sym, ap, ◌∙◌, ◌≢◌, ◌↔◌, ◌⊎◌, inl,
  inr, Bool, true, false, not, ◌&&◌, ◌||◌, Option, none, some, List, [], ◌∷◌, ◌++◌, eq_iff,
  if◌then◌else◌, Bool-cases, keep, contains, contains-keep, ◌==◌, ◌<>◌, strip_prefix, strip_suffix,
  has_char, Result, ok, err, ◌>>=◌, ◌>>◌, HttpError, http, Result-cases, >>=-passed, ok-injective,
}
use teehr_cloud_core.Base.Decimal.{decimal}
use teehr_cloud_core.Xpublish.Identity.{AuthIdentity, is_authenticated}
use teehr_cloud_core.Xpublish.Authz.{AccessRules, Kind, is_permitted, is_request_permitted}
use teehr_cloud_core.Xpublish.Credentials.{
  policy_for, build_session_policy, vend_credentials, VendError, policy_too_large, sts_failed,
  Statement, AssumeRole, max_session_policy_chars,
}

-- What the middleware does: it passes the request on, with the identity that it has attached, or
-- answers it.
pub data Handled : Type 0 where
  passed_on : Option AuthIdentity → Handled
  answered : HttpError → Handled

unfoldable pub auth_middleware :
    AccessRules → String → String → Result HttpError AuthIdentity → Handled
auth_middleware rules method path resolved =
    if method == "OPTIONS" || path == "/health" then passed_on none else elim resolved [
      | err e ↦ answered e
      | ok identity ↦
          if not (is_authenticated identity)
          then answered (http 401 "Authentication required")
          else if not (is_request_permitted rules identity path)
          then answered (http 403 "Forbidden")
          else passed_on (some identity)
    ]

-- `[name for name in names if is_permitted(access_rules, identity, kind, name)]`
unfoldable pub permitted_names : AccessRules → AuthIdentity → Kind → List String → List String
permitted_names rules identity kind names =
    keep (λ name. is_permitted rules identity kind name) names

-- STS returns the keys and the second at which they expire.
pub record StsCredentials : Type 0 where
  pub access_key_id : String
  pub secret_access_key : String
  pub session_token : String
  pub expiration : ℕ

pub record S3SessionCredentials : Type 0 where
  pub access_key_id : String
  pub secret_access_key : String
  pub session_token : String

pub record IcechunkCredentialsResponse : Type 0 where
  pub credentials : Option S3SessionCredentials
  pub expires_at_epoch_seconds : Option ℕ
  pub expires_in_seconds : Option ℕ
  pub bucket : String
  pub prefix : String
  pub repos : List String
  pub trace_id : String

abbrev pub is_none : List String → Bool
is_none [] = true
is_none (x ∷ xs) = false

module _ (is_word : ℕ → Bool) (dumps : List Statement → String)
    (assume_role : AssumeRole → Option StsCredentials) where
  abbrev pub no_credentials : String → String → List String → String → IcechunkCredentialsResponse
  no_credentials bucket prefix names trace_id = record {
    credentials = none;
    expires_at_epoch_seconds = none;
    expires_in_seconds = none;
    bucket = bucket;
    prefix = prefix;
    repos = names;
    trace_id = trace_id;
  }

  abbrev pub vend_failed : String → VendError → HttpError
  vend_failed trace_id (policy_too_large n) = http 500 (
      "Session policy is "
      <> (decimal n
          <> (" characters (limit "
              <> (decimal max_session_policy_chars
                  <> ("); too many repo rules for one credential policy (trace_id "
                      <> (trace_id <> ")"))))))
  vend_failed trace_id sts_failed =
      http 502 ("Could not create credentials (trace_id " <> (trace_id <> ")"))

  -- `repo_names` is the provider's listing, `now` the clock after the call of STS
  unfoldable pub icechunk_credentials :
      AccessRules
      → String
      → String
      → String
      → Bool
      → AuthIdentity
      → List String
      → String
      → ℕ
      → Result HttpError IcechunkCredentialsResponse
  icechunk_credentials rules bucket prefix role_arn sts_unavailable identity repo_names trace_id
        now =
      let names = permitted_names rules identity Kind.repos repo_names in
      let mode = policy_for rules identity in
      if sts_unavailable || (not mode.0 && is_none mode.1)
      then ok (no_credentials bucket prefix names trace_id)
      else elim (vend_credentials is_word dumps assume_role role_arn identity
          (build_session_policy bucket prefix mode.0 mode.1)) [
            | err e ↦ err (vend_failed trace_id e)
            | ok keys ↦ ok (record {
              credentials = some (record {
                access_key_id = keys.access_key_id;
                secret_access_key = keys.secret_access_key;
                session_token = keys.session_token;
              });
              expires_at_epoch_seconds = some keys.expiration;
              expires_in_seconds = some (keys.expiration - now);
              bucket = bucket;
              prefix = prefix;
              repos = names;
              trace_id = trace_id;
            })
          ]
