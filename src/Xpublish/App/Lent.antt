-- ===== src/Xpublish/App/Lent.antt =====
-- The S3 keys that the credentials route of xpublish-api/src/main.py lends, against the rules of authz.py.
use teehr_cloud_core.Base.{
  ℕ, ◌≤◌, String, ◌≡◌, sym, ap, ◌∙◌, inl, inr, Bool, true, not, ◌&&◌, ◌||◌, Option, some, List,
  Bool-cases, contains, ok, Result-cases, ok-injective, ltb, or_raise-some, arith,
}
use Prim.Native.String.{count}
use mathlib.Core.Option.{some-injective}
use teehr_cloud_core.Base.Dict.{keys, HasDistinctKeys}
use teehr_cloud_core.Xpublish.Identity.{AuthIdentity}
use teehr_cloud_core.Xpublish.Authz.{AccessRules, Kind, is_permitted}
use teehr_cloud_core.Xpublish.Credentials.{
  policy_for, build_session_policy, vend_credentials, session_name, Statement, AssumeRole,
}
use teehr_cloud_core.Xpublish.Credentials.Iam.{Iam, IsPlain}
use teehr_cloud_core.Xpublish.Credentials.Policy.{IsRepoName, get_object}
use teehr_cloud_core.Xpublish.Credentials.Grants.{get_object_iff_permitted}
use teehr_cloud_core.Xpublish.App.{
  StsCredentials, S3SessionCredentials, IcechunkCredentialsResponse, icechunk_credentials, is_none,
}

-- The request that the keys answer.
abbrev pub role_request :
    (ℕ → Bool) → (List Statement → String) → String → AuthIdentity → List Statement → AssumeRole
role_request is_word dumps role_arn identity policy = record {
  role_arn = role_arn;
  role_session_name = session_name is_word identity;
  policy = dumps policy;
  duration_seconds = 900;
}

-- The keys of a response.
abbrev pub session_credentials : StsCredentials → S3SessionCredentials
session_credentials keys = record {
  access_key_id = keys.access_key_id;
  secret_access_key = keys.secret_access_key;
  session_token = keys.session_token;
}

module _ (is_word : ℕ → Bool) (dumps : List Statement → String)
    (assume_role : AssumeRole → Option StsCredentials) where
  vend_credentials-ok :
      (role_arn : String) (identity : AuthIdentity) (policy : List Statement)
      (keys : StsCredentials)
      → vend_credentials is_word dumps assume_role role_arn identity policy ≡ ok keys
      → (assume_role (role_request is_word dumps role_arn identity policy) ≡ some keys)
        × (count (dumps policy) ≤ 2048)
  unfolding vend_credentials
  vend_credentials-ok role_arn identity policy keys e =
      elim (Bool-cases (ltb 2048 (count (dumps policy)))) [
        | inl large ↦ cc (rw (vend_credentials, large) at e)
        | inr small ↦
            (or_raise-some _ _ keys (rw (vend_credentials, small) at e), ground (arith, small))
      ]

  -- The keys of a response are those of the role assumed under the user's policy.
  response_keys :
      (rules : AccessRules) (bucket prefix role_arn : String) (sts_unavailable : Bool)
      (identity : AuthIdentity) (repo_names : List String) (trace_id : String) (now : ℕ)
      (response : IcechunkCredentialsResponse) (lent : S3SessionCredentials)
      → icechunk_credentials is_word dumps assume_role rules bucket prefix role_arn sts_unavailable
          identity repo_names trace_id now
        ≡ ok response
      → response.credentials ≡ some lent
      → (keys : StsCredentials) × (vend_credentials is_word dumps assume_role role_arn identity (
            build_session_policy bucket prefix
              (policy_for rules identity).0
              (policy_for rules identity).1)
          ≡ ok keys)
        × (lent ≡ session_credentials keys)
        × (response.expires_at_epoch_seconds ≡ some keys.expiration)
  unfolding icechunk_credentials
  response_keys rules bucket prefix role_arn sts_unavailable identity repo_names trace_id now
        response lent e has =
      let mode = policy_for rules identity in
      elim (Bool-cases (sts_unavailable || (not mode.0 && is_none mode.1))) [
        | inl t ↦
            let same = ok-injective _ _ (rw (icechunk_credentials, t) at e) in
            cc (ap (λ r. r.credentials) same ∙ has)
        | inr t ↦
            elim (Result-cases (
              vend_credentials is_word dumps assume_role role_arn identity
                (build_session_policy bucket prefix mode.0 mode.1))) [
                  | inr (fault, f) ↦ cc (rw (icechunk_credentials, t, f) at e)
                  | inl (keys, f) ↦
                      let same = ok-injective _ _ (rw (icechunk_credentials, t, f) at e) in
                      (
                        keys,
                        f,
                        sym (some-injective _ _ (ap (λ r. r.credentials) same ∙ has)),
                        sym (ap (λ r. r.expires_at_epoch_seconds) same),
                      )
                ]
      ]

  -- If the route lends keys to a logged-in user, under rules that list no repo twice, and bucket, prefix,
  -- listed names and repo name are free of wildcards (the names also of "/"), then the keys are those of a
  -- role that is assumed for 900 seconds in the user's session name, with a policy of at most 2048
  -- characters, under which AWS authorises reading an object of the repo exactly if `is_permitted` allows
  -- the repo; and the response expires when the keys do.
  pub icechunk_credentials-lent :
      (rules : AccessRules) (bucket prefix role_arn : String) (sts_unavailable : Bool)
      (identity : AuthIdentity) (repo_names : List String) (trace_id : String) (now : ℕ)
      (response : IcechunkCredentialsResponse) (lent : S3SessionCredentials)
      → icechunk_credentials is_word dumps assume_role rules bucket prefix role_arn sts_unavailable
          identity repo_names trace_id now
        ≡ ok response
      → response.credentials ≡ some lent
      → (jwt : identity.auth_type ≡ "jwt") → (distinct : HasDistinctKeys rules.repo_items)
      → (listed_names : (r : String) → contains r (keys rules.repo_items) ≡ true → IsRepoName r)
      → (iam : Iam) (repo rest : String) → IsPlain bucket
      → IsPlain prefix
      → IsRepoName repo
      → (policy : List Statement) × (issued : StsCredentials) × (assume_role
            (role_request is_word dumps role_arn identity policy)
          ≡ some issued)
        × (lent ≡ session_credentials issued)
        × (response.expires_at_epoch_seconds ≡ some issued.expiration)
        × (count (dumps policy) ≤ 2048)
        × (iam.authorize policy (get_object bucket prefix repo rest)
            ≡ is_permitted rules identity Kind.repos repo)
  icechunk_credentials-lent rules bucket prefix role_arn sts_unavailable identity repo_names
        trace_id now response lent e has jwt distinct listed_names iam repo rest plain_bucket
        plain_prefix name =
      let (issued, vended, same, expires) =
        response_keys rules bucket prefix role_arn sts_unavailable identity repo_names trace_id now
          response lent e has in
      let (assumed, small) = vend_credentials-ok role_arn identity _ issued vended in
      (
        _,
        issued,
        assumed,
        same,
        expires,
        small,
        get_object_iff_permitted rules identity jwt distinct listed_names iam bucket prefix repo
            rest plain_bucket plain_prefix name,
      )
