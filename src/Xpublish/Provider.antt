-- ===== src/Xpublish/Provider.antt =====
-- xpublish-api/src/provider.py: the provider's state, the discovery of the icechunk repos, and the repo
-- that a dataset id means. Times are ticks of the monotonic clock; each call takes what it reads of the
-- clock and of storage.
pub mod Datasets
pub mod Owners
pub mod Fresh
pub mod Access
pub mod Grid
pub mod Groups
mod Tests
use teehr_cloud_core.Base.{
  ℕ, ◌+◌, ◌-◌, ◌*◌, ◌/◌, ◌%◌, ◌^◌, ◌≤◌, ◌<◌, String, ◌≡◌, refl, sym, ap, ◌∙◌, ◌≢◌, ◌↔◌, ◌⊎◌, inl,
  inr, Bool, true, false, not, ◌&&◌, ◌||◌, Option, none, some, List, [], ◌∷◌, ◌++◌, map, arith,
  eq_iff, eq_refl, ltb, eqb, if◌then◌else◌, Bool-cases, Option-cases, is_some, any, all, contains,
  difference, contains-keep, all-contains, any_elim, any_intro, ◌==◌, ◌<>◌, strip_prefix,
  strip_suffix, has_char, partition, strip_suffix-append, Result, ok, err, ◌>>=◌, ◌>>◌,
  rstrip_where, Result-cases, >>=-passed,
}
use teehr_cloud_core.Base.Dict.{
  Dict, lookup, insert, erase, keys, has_key, lookup-insert, lookup-erase, has_key-contains,
  HasDistinctKeys, lookup_of_absent,
}
use teehr_cloud_core.Base.Sort.{sorted}
use teehr_cloud_core.Xpublish.Storage.{StoragePrefix, list_storage_prefixes}

pub record RepoConfig : Type 0 where
  pub name : String
  pub bucket : String
  pub prefix : String

pub data DatasetKind : Type 0 where
  tiles edr : DatasetKind

pub record CacheEntry (Tree : Type 0) : Type 0 where
  pub datatree : Tree
  pub snapshot_id : String
  pub checked_at : ℕ

-- `time.monotonic() - since < ttl`
abbrev pub is_within : ℕ → ℕ → ℕ → Bool
is_within now since ttl = ltb now (since + ttl)

pub record Provider (Repo Tree : Type 0) : Type 0 where
  pub bucket : String
  pub prefix : String
  pub cache_ttl_seconds : ℕ
  pub discovery_ttl_seconds : ℕ
  pub repo_configs : List RepoConfig
  pub discovered_at : Option ℕ
  pub repos : Dict Repo
  pub cache : Dict (CacheEntry Tree)
  pub dataset_locks : Dict (Unit {0})

-- What one call of `_refresh_repo_configs` sees: the clock at the first test, at the test under the
-- lock and when the listing is stamped, and the pages of the listing, `none` if it raised.
pub record Discovery : Type 0 where
  pub first_at : ℕ
  pub locked_at : ℕ
  pub stamped_at : ℕ
  pub pages : Option (List (List String))

abbrev pub data_id : String → String
data_id name = name <> "_data"

abbrev pub config_names : List RepoConfig → List String
config_names [] = []
config_names (cfg ∷ cfgs) = cfg.name ∷ config_names cfgs

-- the loop of `dataset_ids`
abbrev pub ids_of : List RepoConfig → List String
ids_of [] = []
ids_of (cfg ∷ cfgs) = cfg.name ∷ data_id cfg.name ∷ ids_of cfgs

abbrev pub is_empty : List String → Bool
is_empty [] = true
is_empty (x ∷ xs) = false

module _ {V : Type 0} where
  -- `for name in names: d.pop(name, None)`
  unfoldable pub pop_names : List String → Dict V → Dict V
  pop_names [] d = d
  pop_names (name ∷ names) d = pop_names names (erase name d)

  -- the same for both dataset ids of each name
  unfoldable pub pop_dataset_ids : List String → Dict V → Dict V
  pop_dataset_ids [] d = d
  pop_dataset_ids (name ∷ names) d = pop_dataset_ids names (erase (data_id name) (erase name d))

module _ {Repo Tree : Type 0} where
  unfoldable pub discover_repo_configs : Provider Repo Tree → List (List String) → List RepoConfig
  discover_repo_configs p pages =
      map
        (λ (item : StoragePrefix). record {
          name = item.id;
          bucket = p.bucket;
          prefix = rstrip_where (λ c. eqb c b'/') item.path;
        })
        (list_storage_prefixes pages)

  unfoldable pub evict : List String → Provider Repo Tree → Provider Repo Tree
  unfolding pop_names pop_dataset_ids
  evict names p = record p {
    repos = pop_names names p.repos;
    cache = pop_dataset_ids names p.cache;
    dataset_locks = pop_dataset_ids names p.dataset_locks;
  }

  unfoldable pub repo_configs_fresh : Provider Repo Tree → ℕ → Bool
  repo_configs_fresh p now = elim p.discovered_at [
    | none ↦ false
    | some at ↦ is_within now at p.discovery_ttl_seconds
  ]

  -- The end of the listing: the new state, and the names handed to `on_repos_changed`.
  unfoldable pub adopt_configs :
      Provider Repo Tree → ℕ → List RepoConfig → Provider Repo Tree × Option (List String)
  adopt_configs p stamped_at configs =
      let first_discovery = not (is_some p.discovered_at) in
      let previous = config_names p.repo_configs in
      let current = config_names configs in
      let added = difference current previous in
      let removed = difference previous current in
      let stamped = record p { discovered_at = some stamped_at; repo_configs = configs } in
      let changed = first_discovery || not (is_empty added) || not (is_empty removed) in
      (evict removed stamped, if changed then some (sorted current) else none)

  -- the body of `_refresh_repo_configs` under the discovery lock
  unfoldable pub refresh_locked :
      Provider Repo Tree → Discovery → Provider Repo Tree × Option (List String)
  refresh_locked p seen =
      if repo_configs_fresh p seen.locked_at then (p, none) else elim seen.pages [
        | none ↦ (record p { discovered_at = some seen.stamped_at }, none)
        | some pages ↦ adopt_configs p seen.stamped_at (discover_repo_configs p pages)
      ]

  unfoldable pub refresh_repo_configs :
      Provider Repo Tree → Discovery → Provider Repo Tree × Option (List String)
  refresh_repo_configs p seen =
      if repo_configs_fresh p seen.first_at then (p, none) else refresh_locked p seen

  -- after the refresh
  abbrev pub repo_names : Provider Repo Tree → List String
  repo_names p = config_names p.repo_configs

  -- after the refresh
  abbrev pub dataset_ids : Provider Repo Tree → List String
  dataset_ids p = ids_of p.repo_configs

-- the loop of `_cfg_for_dataset_id`
unfoldable pub find_config : String → List RepoConfig → Option (RepoConfig × DatasetKind)
find_config dataset_id [] = none
find_config dataset_id (cfg ∷ cfgs) =
    if dataset_id == cfg.name
    then some (cfg, tiles)
    else if dataset_id == data_id cfg.name
    then some (cfg, edr)
    else find_config dataset_id cfgs
