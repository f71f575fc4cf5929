-- ===== src/Notebook.antt =====
-- jupyterhub-docker/icechunk_access/icechunk_access.py: the client with which a notebook opens Icechunk
-- repos. The HTTP client, the refresh of the user's token, Icechunk, zarr and xarray are parameters; `now`
-- is `time.time()` in whole microseconds, and the body of the credentials route is the record it answers.
pub mod Renewal
pub mod Opening
mod Tests
use teehr_cloud_core.Base.{
  ℕ, ◌+◌, ◌-◌, ◌*◌, String, Bool, true, false, not, ◌&&◌, ◌||◌, Option, none, some, List, [], ◌∷◌,
  map, leb, eqb, if◌then◌else◌, any, contains, or_default, ◌==◌, ◌<>◌, strip, rstrip_where, Result,
  ok, err, ◌>>=◌, ◌>>◌, raise_if, or_raise,
}
use teehr_cloud_core.Base.Dict.{Dict, lookup}
use teehr_cloud_core.Base.Split.{before_text}
use teehr_cloud_core.Xpublish.Provider.Grid.{ℤ, written_steps}
use teehr_cloud_core.Xpublish.App.{S3SessionCredentials, IcechunkCredentialsResponse}

-- `http_error` is what `raise_for_status` raises, `failed` any exception of a library
pub data Fault : Type 0 where
  session_expired type_error : Fault
  permission_error : String → Fault
  http_error : ℕ → Fault
  failed : String → Fault

-- XPUBLISH_API_URL
unfoldable pub xpublish_api_url : Option String → String
xpublish_api_url variable =
    rstrip_where (λ c. eqb c b'/') (or_default variable "http://xpublish-api:8000")

-- ICECHUNK_USE_STS; `lower` is `str.lower`
unfoldable pub use_sts : (String → String) → Option String → Bool
use_sts lower variable = lower (strip (or_default variable "false")) == "true"

abbrev pub expiry_margin : ℕ
expiry_margin = 60

abbrev pub microseconds : ℕ → ℕ
microseconds seconds = 1000000 * seconds

pub record Response (Body : Type 0) : Type 0 where
  pub status_code : ℕ
  pub json : Result Fault Body

-- `refreshed` is the token of `refresh_user_token_from_env`, none for an exception
unfoldable pub bearer_token : Option String → Result Fault String
bearer_token none = err session_expired
bearer_token (some token) = ok token

abbrev pub raise_for_status : ℕ → Result Fault (Unit {0})
raise_for_status status = raise_if (leb 400 status && not (leb 600 status)) (http_error status)

module _ (url : String) (refreshed : Option String) where
  -- `request` takes the method, the URL and the Authorization header
  unfoldable pub xpublish :
      {Body : Type 0}
      → (String → String → String → Result Fault (Response Body))
      → String
      → String
      → Result Fault Body
  xpublish request method path = do
    token ← bearer_token refreshed
    response ← request method (url <> path) ("Bearer " <> token)
    raise_if (eqb response.status_code 401) session_expired
    raise_for_status response.status_code
    response.json

  unfoldable pub request_credentials :
      (String → String → String → Result Fault (Response IcechunkCredentialsResponse))
      → Result Fault IcechunkCredentialsResponse
  unfolding xpublish
  request_credentials request = xpublish request "POST" "/api/auth/icechunk-credentials"

  -- the "datasets" of the body
  unfoldable pub list_icechunk_repos :
      (String → String → String → Result Fault (Response (List String)))
      → Result Fault (List String)
  unfolding xpublish
  list_icechunk_repos request = xpublish request "GET" "/api/dataset-keys"

-- The keys that Icechunk gets, with the second after which it asks for others.
pub record S3StaticCredentials : Type 0 where
  pub access_key_id : String
  pub secret_access_key : String
  pub session_token : String
  pub expires_after : ℕ

abbrev pub is_expiring : ℕ → Option ℕ → Bool
is_expiring now none = true
is_expiring now (some expires_at) = leb (microseconds expires_at) (now + microseconds expiry_margin)

abbrev pub static_credentials : S3SessionCredentials → Option ℕ → Result Fault S3StaticCredentials
static_credentials keys none = err type_error
static_credentials keys (some expires_at) = ok (record {
  access_key_id = keys.access_key_id;
  secret_access_key = keys.secret_access_key;
  session_token = keys.session_token;
  expires_after = expires_at - expiry_margin;
})

-- `IcechunkCredentials.__call__` of the response `initial`; `requested` is the outcome of the request
-- for credentials, if it is made
unfoldable pub icechunk_credentials_call :
    ℕ
    → Result Fault IcechunkCredentialsResponse
    → IcechunkCredentialsResponse
    → Result Fault S3StaticCredentials
icechunk_credentials_call now requested initial = do
  body ← if is_expiring now initial.expires_at_epoch_seconds then requested else ok initial
  keys ←
      or_raise body.credentials
        (permission_error "xpublish-api issued no credentials: you may not read any Icechunk repo")
  static_credentials keys body.expires_at_epoch_seconds

-- How virtual references are read, `None` for an unknown scheme.
pub data Anonymous : Type 0 where
  http_access gcs s3 no_access : Anonymous

-- `scheme in (...)`; `scheme` is `url_prefix.split("://", 1)[0]`
unfoldable pub access_for : String → Anonymous
access_for scheme =
    if contains scheme ("http" ∷ "https" ∷ [])
    then http_access
    else if contains scheme ("gs" ∷ "gcs" ∷ [])
    then gcs
    else if scheme == "s3"
    then s3
    else no_access

unfoldable pub anonymous_credentials : String → Anonymous
unfolding access_for
anonymous_credentials url_prefix = access_for (before_text "://" url_prefix)

-- The arguments of `ic.s3_storage`: with the callback of a response, or with the notebook's own keys
-- and the endpoint, if one is set.
pub data Storage : Type 0 where
  sts_storage : (bucket prefix : String) → Option String → IcechunkCredentialsResponse → Storage
  env_storage : (bucket prefix : String) → Option String → Option String → Storage

pub record Environment : Type 0 where
  pub aws_region : Option String
  pub aws_default_region : Option String
  pub remote_catalog_s3_endpoint : Option String
  pub sts : Bool

-- a variable that is set and not empty
abbrev pub truthy : Option String → Option String
truthy none = none
truthy (some value) = if value == "" then none else some value

-- `os.getenv("AWS_REGION") or os.getenv("AWS_DEFAULT_REGION")`
abbrev pub region_of : Environment → Option String
region_of environment = elim (truthy environment.aws_region) [
  | some region ↦ some region
  | none ↦ environment.aws_default_region
]

unfoldable pub storage_of : Environment → IcechunkCredentialsResponse → String → Storage
storage_of environment body prefix =
    if environment.sts
    then sts_storage body.bucket prefix (region_of environment) body
    else env_storage body.bucket prefix (region_of environment)
        (truthy environment.remote_catalog_s3_endpoint)

module _ {Repository : Type 0} (fetch_config : Storage → Result Fault (Option (List String)))
    (open_repository : Storage → List (String × Anonymous) → Result Fault Repository) where
  -- Opened with anonymous access for each virtual container of its configuration.
  unfoldable pub open_storage : Storage → Result Fault Repository
  open_storage storage = do
    config ← fetch_config storage
    open_repository storage
        (map (λ prefix. (prefix, anonymous_credentials prefix)) (or_default config []))

  unfoldable pub open_icechunk_repo :
      Environment → Result Fault IcechunkCredentialsResponse → String → Result Fault Repository
  open_icechunk_repo environment requested name = do
    body ← requested
    raise_if (not (contains name body.repos))
        (permission_error ("You may not read Icechunk repo '" <> (name <> "'")))
    open_storage (storage_of environment body (body.prefix <> ("/" <> name)))

-- `status_by` are the values of the coordinate "status", if the dataset has it, for each step of a
-- dimension; `root_attrs` and `open_zarr` read the session of a branch.
module _ {Repository Dataset : Type 0} (open_repo : String → Result Fault Repository)
    (root_attrs : Repository → String → Result Fault (Dict String))
    (open_zarr : Repository → String → String → Result Fault Dataset)
    (status_by : String → Dataset → Option (List (List ℤ)))
    (isel : String → List Bool → Dataset → Dataset) where
  abbrev pub only_written : String → Dataset → Dataset
  only_written dim ds = elim (status_by dim ds) [
    | none ↦ ds
    | some statuses ↦ isel dim (written_steps statuses) ds
  ]

  unfoldable pub open_icechunk_dataset : String → String → Bool → Result Fault Dataset
  open_icechunk_dataset name branch written_only = do
    repo ← open_repo name
    attrs ← root_attrs repo branch
    ds ← open_zarr repo branch (or_default (lookup "data_group" attrs) "/data")
    ok (
        if written_only
        then only_written (or_default (lookup "append_dim" attrs) "time") ds
        else ds)
