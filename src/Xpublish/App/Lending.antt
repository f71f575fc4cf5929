-- ===== src/Xpublish/App/Lending.antt =====
-- What the credentials route of xpublish-api/src/main.py tells a user.
use teehr_cloud_core.Base.{
  ℕ, String, ◌≡◌, sym, ap, inl, inr, Bool, not, ◌&&◌, ◌||◌, Option, List, Bool-cases, contains,
  contains-keep, ok, Result-cases, ok-injective,
}
use teehr_cloud_core.Xpublish.Identity.{AuthIdentity}
use teehr_cloud_core.Xpublish.Authz.{AccessRules, Kind, is_permitted}
use teehr_cloud_core.Xpublish.Credentials.{
  policy_for, build_session_policy, vend_credentials, Statement, AssumeRole,
}
use teehr_cloud_core.Xpublish.App.{
  permitted_names, StsCredentials, IcechunkCredentialsResponse, icechunk_credentials, is_none,
}

module _ (is_word : ℕ → Bool) (dumps : List Statement → String)
    (assume_role : AssumeRole → Option StsCredentials) where
  pub response_of_request :
      (rules : AccessRules) (bucket prefix role_arn : String) (sts_unavailable : Bool)
      (identity : AuthIdentity) (repo_names : List String) (trace_id : String) (now : ℕ)
      (response : IcechunkCredentialsResponse)
      → icechunk_credentials is_word dumps assume_role rules bucket prefix role_arn sts_unavailable
          identity repo_names trace_id now
        ≡ ok response
      → (response.repos ≡ permitted_names rules identity Kind.repos repo_names)
        × (response.prefix ≡ prefix)
  unfolding icechunk_credentials
  response_of_request rules bucket prefix role_arn sts_unavailable identity repo_names trace_id now
        response e =
      let mode = policy_for rules identity in
      elim (Bool-cases (sts_unavailable || (not mode.0 && is_none mode.1))) [
        | inl t ↦
            let same = ok-injective _ _ (rw (icechunk_credentials, t) at e) in
            (sym (ap (λ r. r.repos) same), sym (ap (λ r. r.prefix) same))
        | inr t ↦
            elim (Result-cases (
              vend_credentials is_word dumps assume_role role_arn identity
                (build_session_policy bucket prefix mode.0 mode.1))) [
                  | inr (fault, f) ↦ cc (rw (icechunk_credentials, t, f) at e)
                  | inl (keys, f) ↦
                      let same = ok-injective _ _ (rw (icechunk_credentials, t, f) at e) in
                      (sym (ap (λ r. r.repos) same), sym (ap (λ r. r.prefix) same))
                ]
      ]

  -- A successful answer names exactly the discovered repos that the access rules permit, whether or not
  -- it carries credentials.
  pub icechunk_credentials-repos :
      (rules : AccessRules) (bucket prefix role_arn : String) (sts_unavailable : Bool)
      (identity : AuthIdentity) (repo_names : List String) (trace_id : String) (now : ℕ)
      (response : IcechunkCredentialsResponse) (name : String)
      → icechunk_credentials is_word dumps assume_role rules bucket prefix role_arn sts_unavailable
          identity repo_names trace_id now
        ≡ ok response
      → contains name response.repos
        ≡ (contains name repo_names && is_permitted rules identity Kind.repos name)
  unfolding permitted_names
  icechunk_credentials-repos rules bucket prefix role_arn sts_unavailable identity repo_names
        trace_id now response name e =
      rw
        ((response_of_request rules bucket prefix role_arn sts_unavailable identity repo_names
          trace_id now response e).0)
        (contains-keep (λ n. is_permitted rules identity Kind.repos n) name repo_names)
