-- ===== src/Notebook/Tests.antt =====
-- The notebook of an analyst, and a dataset of a forecast with three cycles.
use mathlib.Core.Option.{some-injective}
use teehr_cloud_core.Base.{
  ℕ, ◌+◌, ◌<◌, String, strip_prefix, ◌≡◌, refl, ◌⊎◌, true, false, ◌&&◌, Option, none, some, List,
  [], ◌∷◌, arith, if◌then◌else◌, contains, ◌==◌, ◌<>◌, Result, ok, err, ok-injective,
}
use teehr_cloud_core.Base.Dict.{lookup}
use teehr_cloud_core.Base.Split.{before_text}
use teehr_cloud_core.Xpublish.Identity.{AuthIdentity}
use teehr_cloud_core.Xpublish.Authz.{AccessRules, Kind, is_permitted, holds_any, has_default}
use teehr_cloud_core.Xpublish.App.{
  S3SessionCredentials, IcechunkCredentialsResponse, icechunk_credentials, permitted_names,
}
use teehr_cloud_core.Xpublish.Provider.Grid.{ℤ, pos, negsuc, select}
use teehr_cloud_core.Notebook.{
  Fault, failed, permission_error, Response, microseconds, S3StaticCredentials,
  icechunk_credentials_call, request_credentials, Anonymous, no_access, anonymous_credentials,
  access_for, Storage, Environment, storage_of, open_storage, open_icechunk_repo,
  open_icechunk_dataset,
}
use teehr_cloud_core.Notebook.Renewal.{icechunk_credentials_call-expires_after}
use teehr_cloud_core.Notebook.Opening.{open_icechunk_repo-permitted}

abbrev rules : AccessRules
rules = record { default = none; repo_items = ("restricted", "admin" ∷ []) ∷ []; layer_items = [] }

abbrev analyst : AuthIdentity
analyst = record {
  subject = "u1";
  auth_type = "jwt";
  roles = "analyst" ∷ [];
  scopes = [];
  preferred_username = some "ann";
}

abbrev response : IcechunkCredentialsResponse
response = record {
  credentials = none;
  expires_at_epoch_seconds = none;
  expires_in_seconds = none;
  bucket = "warehouse";
  prefix = "icechunk";
  repos = "gridded" ∷ [];
  trace_id = "t1";
}

abbrev request : String → String → String → Result Fault (Response IcechunkCredentialsResponse)
request method url authorization =
    if authorization == "Bearer t"
    then ok (record { status_code = 200; json = ok response })
    else err (failed "refused")

abbrev local : Environment
local = record {
  aws_region = some "";
  aws_default_region = some "us-east-2";
  remote_catalog_s3_endpoint = none;
  sts = false;
}

abbrev fetch_config : Storage → Result Fault (Option (List String))
fetch_config storage = ok (some ("https://noaa" ∷ []))

abbrev open_repository :
    Storage → List (String × Anonymous) → Result Fault (Storage × List (String × Anonymous))
open_repository storage access = ok (storage, access)

open_icechunk_repo-permitted_example :
    open_icechunk_repo fetch_config open_repository local
      (request_credentials "http://xpublish-api:8000" (some "t") request)
      "gridded"
    ≡ (if contains "gridded" ("gridded" ∷ "restricted" ∷ [])
          && is_permitted rules analyst Kind.repos "gridded"
        then open_storage fetch_config open_repository
            (storage_of local response ("icechunk" <> ("/" <> "gridded")))
        else err (permission_error ("You may not read Icechunk repo '" <> ("gridded" <> "'"))))
unfolding icechunk_credentials permitted_names is_permitted holds_any lookup has_default
open_icechunk_repo-permitted_example =
    open_icechunk_repo-permitted (λ c. true) (λ policy. "{}") (λ call. none) local fetch_config
      open_repository "http://xpublish-api:8000" "t" request rules "warehouse" "icechunk" "role"
      true analyst ("gridded" ∷ "restricted" ∷ []) "t1" 1000 response "gridded" refl refl

abbrev lent : ℕ → String → IcechunkCredentialsResponse
lent at token = record {
  credentials =
      some (record { access_key_id = "k"; secret_access_key = "s"; session_token = token });
  expires_at_epoch_seconds = some at;
  expires_in_seconds = some 900;
  bucket = "warehouse";
  prefix = "icechunk";
  repos = "gridded" ∷ [];
  trace_id = "t2";
}

abbrev new_keys : S3StaticCredentials
new_keys = record {
  access_key_id = "k";
  secret_access_key = "s";
  session_token = "new";
  expires_after = 1840;
}

lent-outlives :
    (body : IcechunkCredentialsResponse) (at : ℕ)
    → ◌≡◌ {A = Result Fault IcechunkCredentialsResponse} (ok (lent 1900 "new")) (ok body)
    → body.expires_at_epoch_seconds ≡ some at
    → 1000000000 + microseconds 60 < microseconds at
lent-outlives body at e f =
    let same : some 1900 ≡ some at = rw (← ok-injective _ _ e) at f in
    rw (← some-injective _ _ same) (omega arith)

icechunk_credentials_call-expires_after_example :
    (body : IcechunkCredentialsResponse) × (s : S3SessionCredentials) × ((body ≡ lent 1050 "old")
      ⊎ (◌≡◌ {A = Result Fault IcechunkCredentialsResponse} (ok (lent 1900 "new")) (ok body)))
    × (body.credentials ≡ some s)
    × ("k" ≡ s.access_key_id)
    × ("s" ≡ s.secret_access_key)
    × ("new" ≡ s.session_token)
    × (1000000000 < microseconds 1840)
unfolding icechunk_credentials_call
icechunk_credentials_call-expires_after_example =
    icechunk_credentials_call-expires_after 1000000000 (ok (lent 1900 "new")) lent-outlives
      (lent 1050 "old") new_keys refl

unknown_scheme : anonymous_credentials "file://x" ≡ no_access
unfolding anonymous_credentials before_text access_for strip_prefix
unknown_scheme = refl

-- Of three cycles, the second has one lead that is written.
abbrev statuses : String → List String → Option (List (List ℤ))
statuses dim ds =
    if dim == "cycle"
    then some ((negsuc 0 ∷ negsuc 1 ∷ []) ∷ (negsuc 0 ∷ pos 0 ∷ []) ∷ (negsuc 1 ∷ []) ∷ [])
    else none

written_cycle :
    open_icechunk_dataset {Repository = String}
      (λ name. ok name)
      (λ repo branch. ok (("append_dim", "cycle") ∷ []))
      (λ repo branch group. ok ("c1" ∷ "c2" ∷ "c3" ∷ []))
      statuses
      (λ dim flags ds. select flags ds)
      "nwm"
      "main"
      true
    ≡ ok ("c2" ∷ [])
unfolding open_icechunk_dataset lookup
written_cycle = refl
