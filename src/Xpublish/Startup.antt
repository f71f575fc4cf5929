-- ===== src/Xpublish/Startup.antt =====
-- What build_app of xpublish-api/src/main.py makes of the environment, with xpublish-api/src/config.py.
-- `float`, `str.lower` and `json.loads` are parameters; `none` is a variable that is not set.
pub mod Started
mod Tests
use teehr_cloud_core.Base.{
  String, Bool, Option, none, some, List, or_default, ◌==◌, strip, Result, ok, err, ◌>>=◌, or_raise,
}
use teehr_cloud_core.Xpublish.Authz.{AccessRules}
use teehr_cloud_core.Xpublish.Rules.{Json, RulesError, parse_access_rules}
use teehr_cloud_core.Xpublish.Storage.{
  ConfigError, StorageEnv, StorageKwargs, resolve_icechunk_location, build_storage_kwargs,
}
use teehr_cloud_core.Xpublish.Routes.{required_role, cors_settings, resolve_pmtiles_location}

pub record Environment : Type 0 where
  pub icechunk_branch : Option String
  pub cors_origins : Option String
  pub dataset_cache_ttl : Option String
  pub repo_discovery_ttl : Option String
  pub teehr_access_rules : Option String
  pub icechunk_sts_unavailable : Option String
  pub icechunk_access_role_arn : Option String
  pub icechunk_bucket : Option String
  pub icechunk_prefix : Option String
  pub pmtiles_bucket : Option String
  pub pmtiles_prefix : Option String
  pub storage : StorageEnv

-- What ends the start.
pub data StartupError : Type 0 where
  bad_number : (text : String) → StartupError
  bad_rules : RulesError → StartupError
  role_required pmtiles_bucket_required : StartupError
  bad_location : ConfigError → StartupError

-- What a started app keeps.
pub record App (Seconds : Type 0) : Type 0 where
  pub branch : String
  pub access_rules : AccessRules
  pub sts_unavailable : Bool
  pub access_role_arn : String
  pub bucket : String
  pub prefix : String
  pub pmtiles_location : String × String
  pub storage_kwargs : StorageKwargs
  pub cache_ttl_seconds : Seconds
  pub discovery_ttl_seconds : Seconds
  pub cors_origins : List String
  pub allow_credentials : Bool

-- an error of a part, as an error of the start
abbrev pub as_startup {ℓ} :
    {E : Type 0} {A : Type ℓ} → (E → StartupError) → Result E A → Result StartupError A
as_startup wrap (ok a) = ok a
as_startup wrap (err e) = err (wrap e)

-- ICECHUNK_STS_UNAVAILABLE of config.py
abbrev pub is_sts_unavailable : (String → String) → Option String → Bool
is_sts_unavailable lower variable = lower (strip (or_default variable "true")) == "true"

module _ {Seconds : Type 0} (float : String → Option Seconds) (lower : String → String)
    (loads : String → Option Json) where
  abbrev pub number : String → Result StartupError Seconds
  number text = or_raise (float text) (bad_number text)

  -- the discovery's interval, which is the cache's where it is not set
  abbrev pub discovery_ttl : Option String → Seconds → Result StartupError Seconds
  discovery_ttl none cache_ttl = ok cache_ttl
  discovery_ttl (some text) cache_ttl = number text

  unfoldable pub build_app : Environment → Result StartupError (App Seconds)
  build_app env = do
    cache_ttl ← number (or_default env.dataset_cache_ttl "60")
    discovered ← discovery_ttl env.repo_discovery_ttl cache_ttl
    rules ← as_startup bad_rules (parse_access_rules loads (or_default env.teehr_access_rules "{}"))
    let sts_unavailable = is_sts_unavailable lower env.icechunk_sts_unavailable
    role_arn ←
        or_raise (required_role sts_unavailable (or_default env.icechunk_access_role_arn ""))
          role_required
    location ←
        as_startup bad_location (resolve_icechunk_location env.icechunk_bucket env.icechunk_prefix)
    pmtiles ←
        or_raise (resolve_pmtiles_location env.pmtiles_bucket env.pmtiles_prefix)
          pmtiles_bucket_required
    kwargs ← as_startup bad_location (build_storage_kwargs env.storage)
    let cors = cors_settings env.cors_origins
    ok (record {
      branch = or_default env.icechunk_branch "main";
      access_rules = rules;
      sts_unavailable = sts_unavailable;
      access_role_arn = role_arn;
      bucket = location.0;
      prefix = location.1;
      pmtiles_location = pmtiles;
      storage_kwargs = kwargs;
      cache_ttl_seconds = cache_ttl;
      discovery_ttl_seconds = discovered;
      cors_origins = cors.0;
      allow_credentials = cors.1;
    })
