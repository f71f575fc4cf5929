-- ===== src/Xpublish/Provider/Tests.antt =====
-- The provider of provider.py over two repos of storage.
use Prim.Native.String.{String}
use teehr_cloud_core.Base.{
  ℕ, ◌≡◌, refl, ◌≢◌, true, none, some, [], ◌∷◌, arith, eq_iff, ◌<>◌, strip_prefix, strip_suffix,
  has_char, partition,
}
use teehr_cloud_core.Base.Dict.{lookup}
use teehr_cloud_core.Xpublish.Identity.{AuthIdentity}
use teehr_cloud_core.Xpublish.Authz.{
  AccessRules, Kind, is_permitted, holds_any, has_default, repo_candidates, request_target,
  is_request_permitted,
}
use teehr_cloud_core.Xpublish.Authz.Requests.{variables_path}
use teehr_cloud_core.Xpublish.Provider.{
  RepoConfig, Provider, tiles, data_id, refresh_repo_configs, find_config, repo_configs_fresh,
}
use teehr_cloud_core.Xpublish.Provider.Datasets.{Seen, get_datatree_for_dataset}
use teehr_cloud_core.Xpublish.Provider.Owners.{HasOwners, get_datatree_for_dataset-HasOwners}
use teehr_cloud_core.Xpublish.Provider.Fresh.{Fresh, get_datatree_for_dataset-Fresh}
use teehr_cloud_core.Xpublish.Provider.Access.{served_repo_is_permitted, variables_route_gap}

abbrev cfg_of : String → RepoConfig
cfg_of name = record { name = name; bucket = "warehouse"; prefix = "icechunk/" <> name }

abbrev start : Provider String ℕ
start = record {
  bucket = "warehouse";
  prefix = "icechunk/";
  cache_ttl_seconds = 60;
  discovery_ttl_seconds = 300;
  repo_configs = cfg_of "gridded" ∷ [];
  discovered_at = some 1000;
  repos = [];
  cache = ("gridded", record { datatree = 1; snapshot_id = "s1"; checked_at = 900 }) ∷ [];
  dataset_locks = [];
}

abbrev seen : Seen String ℕ
seen = record {
  discovery = record { first_at = 1010; locked_at = 1010; stamped_at = 1011; pages = none };
  first_test_at = 1010;
  second_test_at = 1010;
  looked_up_at = 1012;
  loaded_at = 1015;
  open_repo = λ cfg. some cfg.name;
  lookup_branch = λ repo. some "s2";
  load_datatree = λ id repo kind tip. some 2;
}

start-HasOwners : HasOwners start
unfolding lookup find_config
start-HasOwners = record {
  cached = λ id h. ground (arith, eq_iff "gridded" id, eq_iff id "gridded", h);
  locked = λ id h. absurd (ground (arith, h));
}

get_datatree_for_dataset-HasOwners_example :
    HasOwners (get_datatree_for_dataset start seen "gridded").0
get_datatree_for_dataset-HasOwners_example =
    get_datatree_for_dataset-HasOwners start seen "gridded" start-HasOwners

get_datatree_for_dataset-Fresh_example :
    Fresh seen "gridded"
      (cfg_of "gridded")
      (lookup "gridded" (refresh_repo_configs start seen.discovery).0.cache)
      (get_datatree_for_dataset start seen "gridded")
unfolding refresh_repo_configs repo_configs_fresh find_config
get_datatree_for_dataset-Fresh_example =
    get_datatree_for_dataset-Fresh seen "gridded" start (cfg_of "gridded") tiles refl

abbrev rules : AccessRules
rules = record {
  default = none;
  repo_items = ("gridded_data", "admin" ∷ []) ∷ [];
  layer_items = [];
}

abbrev analyst : AuthIdentity
analyst = record {
  subject = "u1";
  auth_type = "jwt";
  roles = "analyst" ∷ [];
  scopes = [];
  preferred_username = some "ann";
}

gridded_ne_empty : ◌≢◌ {A = String} "gridded" ""
gridded_ne_empty e = absurd (ground (arith, (eq_iff "gridded" "").1 e))

served_repo_is_permitted_example : is_permitted rules analyst Kind.repos "gridded" ≡ true
unfolding has_char is_request_permitted request_target strip_prefix partition repo_candidates
    strip_suffix is_permitted holds_any find_config lookup has_default
served_repo_is_permitted_example =
    served_repo_is_permitted rules analyst "gridded" "tiles/raster" (cfg_of "gridded" ∷ [])
      (cfg_of "gridded") tiles refl gridded_ne_empty refl refl

variables_route_gap_example :
    (is_request_permitted rules analyst (variables_path "gridded") ≡ true)
    × (find_config (data_id "gridded") (cfg_of "gridded_data" ∷ [])
        ≡ some (cfg_of "gridded_data", tiles))
unfolding has_char is_request_permitted request_target strip_prefix partition repo_candidates
    strip_suffix is_permitted holds_any find_config lookup has_default
variables_route_gap_example =
    variables_route_gap rules analyst "gridded" (cfg_of "gridded_data") [] gridded_ne_empty refl
      refl refl refl refl
