-- ===== src/Xpublish/Startup/Tests.antt =====
-- The environment of a deployment without STS.
use teehr_cloud_core.Base.{
  ℕ, String, ◌≡◌, ◌≢◌, refl, true, false, Option, none, some, [], ◌∷◌, contains, ok, ◌⊎◌, strip,
}
use teehr_cloud_core.Xpublish.Rules.{
  Json, no_members, parse_access_rules, read_rules, read_kind, find_member, read_default,
}
use teehr_cloud_core.Xpublish.Storage.{from_env, resolve_icechunk_location, build_storage_kwargs}
use teehr_cloud_core.Xpublish.Routes.{required_role, cors_settings, resolve_pmtiles_location}
use teehr_cloud_core.Xpublish.Startup.{Environment, App, is_sts_unavailable, build_app}
use teehr_cloud_core.Xpublish.Startup.Started.{build_app-started}

abbrev float : String → Option ℕ
float text = some 60

abbrev lower : String → String
lower text = text

abbrev loads : String → Option Json
loads raw = some (Json.object no_members)

abbrev env : Environment
env = record {
  icechunk_branch = none;
  cors_origins = some "https://a, https://b";
  dataset_cache_ttl = none;
  repo_discovery_ttl = none;
  teehr_access_rules = none;
  icechunk_sts_unavailable = none;
  icechunk_access_role_arn = none;
  icechunk_bucket = some "warehouse";
  icechunk_prefix = some "icechunk/";
  pmtiles_bucket = some "warehouse";
  pmtiles_prefix = some "/tiles/";
  storage = record {
    icechunk_storage_mode = none;
    aws_default_region = none;
    icechunk_endpoint_url = none;
    aws_access_key_id = none;
    aws_secret_access_key = none;
  };
}

abbrev app : App ℕ
app = record {
  branch = "main";
  access_rules = record { default = none; repo_items = []; layer_items = [] };
  sts_unavailable = true;
  access_role_arn = "";
  bucket = "warehouse";
  prefix = "icechunk";
  pmtiles_location = ("warehouse", "tiles");
  storage_kwargs = from_env;
  cache_ttl_seconds = 60;
  discovery_ttl_seconds = 60;
  cors_origins = "https://a" ∷ "https://b" ∷ [];
  allow_credentials = true;
}

started : build_app float lower loads env ≡ ok app
unfolding build_app parse_access_rules read_rules read_kind find_member read_default required_role
    strip resolve_icechunk_location resolve_pmtiles_location build_storage_kwargs cors_settings
started = refl

build_app-started_example :
    (parse_access_rules loads "{}" ≡ ok app.access_rules)
    × (app.bucket ≢ "")
    × (app.prefix ≢ "")
    × ((is_sts_unavailable lower none ≡ true) ⊎ (app.access_role_arn ≢ ""))
    × ((app.allow_credentials ≡ false) ⊎ (contains "*" app.cors_origins ≡ false))
build_app-started_example = build_app-started float lower loads env app started
