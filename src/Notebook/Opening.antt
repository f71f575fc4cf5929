-- ===== src/Notebook/Opening.antt =====
-- What icechunk_access.py opens, against the access rules of xpublish-api.
use teehr_cloud_core.Base.{
  ℕ, String, ◌≡◌, refl, inl, inr, Bool, ◌&&◌, Option, some, List, if◌then◌else◌, Bool-cases,
  contains, ◌<>◌, Result, ok, err,
}
use teehr_cloud_core.Xpublish.Identity.{AuthIdentity}
use teehr_cloud_core.Xpublish.Authz.{AccessRules, Kind, is_permitted}
use teehr_cloud_core.Xpublish.Credentials.{Statement, AssumeRole}
use teehr_cloud_core.Xpublish.App.{
  StsCredentials, IcechunkCredentialsResponse, icechunk_credentials,
}
use teehr_cloud_core.Xpublish.App.Lending.{response_of_request, icechunk_credentials-repos}
use teehr_cloud_core.Notebook.{
  Fault, permission_error, Response, bearer_token, xpublish, request_credentials, Anonymous,
  Storage, Environment, storage_of, open_storage, open_icechunk_repo,
}

module _ (url token : String)
    (request : String → String → String → Result Fault (Response IcechunkCredentialsResponse)) where
  -- A response with status 200 is the credentials.
  request_credentials-ok :
      (response : IcechunkCredentialsResponse)
      → request "POST" (url <> "/api/auth/icechunk-credentials") ("Bearer " <> token)
        ≡ ok (record { status_code = 200; json = ok response })
      → request_credentials url (some token) request ≡ ok response
  unfolding request_credentials xpublish bearer_token
  request_credentials-ok response e = rw (request_credentials, xpublish, bearer_token, e) refl

module _ (is_word : ℕ → Bool) (dumps : List Statement → String)
    (assume_role : AssumeRole → Option StsCredentials) {Repository : Type 0}
    (environment : Environment) (fetch_config : Storage → Result Fault (Option (List String)))
    (open_repository : Storage → List (String × Anonymous) → Result Fault Repository) where
  -- Where xpublish-api answers a notebook's request for credentials with status 200 and the body that its
  -- route makes, the notebook opens the storage of the repo below the API's prefix if the repo is
  -- discovered and the access rules permit it to the user, and otherwise raises PermissionError,
  -- whether or not credentials were issued.
  pub open_icechunk_repo-permitted :
      (url token : String)
      (request : String → String → String → Result Fault (Response IcechunkCredentialsResponse))
      (rules : AccessRules) (bucket prefix role_arn : String) (sts_unavailable : Bool)
      (identity : AuthIdentity) (repo_names : List String) (trace_id : String) (now : ℕ)
      (response : IcechunkCredentialsResponse) (name : String)
      → icechunk_credentials is_word dumps assume_role rules bucket prefix role_arn sts_unavailable
          identity repo_names trace_id now
        ≡ ok response
      → request "POST" (url <> "/api/auth/icechunk-credentials") ("Bearer " <> token)
        ≡ ok (record { status_code = 200; json = ok response })
      → open_icechunk_repo fetch_config open_repository environment
          (request_credentials url (some token) request)
          name
        ≡ (if contains name repo_names && is_permitted rules identity Kind.repos name
            then open_storage fetch_config open_repository
                (storage_of environment response (prefix <> ("/" <> name)))
            else err (permission_error ("You may not read Icechunk repo '" <> (name <> "'"))))
  unfolding open_icechunk_repo
  open_icechunk_repo-permitted url token request rules bucket prefix role_arn sts_unavailable
        identity repo_names trace_id now response name answered sent =
      let (repos, at) =
        response_of_request is_word dumps assume_role rules bucket prefix role_arn sts_unavailable
          identity repo_names trace_id now response answered in
      let listed =
        icechunk_credentials-repos is_word dumps assume_role rules bucket prefix role_arn
          sts_unavailable identity repo_names trace_id now response name answered in
      elim (Bool-cases (contains name response.repos)) [
        | inl e ↦
            rw
              (
                open_icechunk_repo,
                request_credentials-ok url token request response sent,
                e,
                at,
                ← listed,
                e,
              )
              refl
        | inr e ↦
            rw
              (
                open_icechunk_repo,
                request_credentials-ok url token request response sent,
                e,
                ← listed,
                e,
              )
              refl
      ]
