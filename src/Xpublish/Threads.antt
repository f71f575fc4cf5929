-- ===== src/Xpublish/Threads.antt =====
-- xpublish-api/src/provider.py with threads: calls of get_datatree_for_dataset that are interleaved at
-- their reads and writes of what the provider shares; each loop of an eviction, under its lock, is one step.
-- S3, icechunk and the clock choose among the moves, as they choose the outcome of a test of age, of a
-- listing, of an open and of a load.
pub mod Exclusion
pub mod Loads
pub mod Opens
pub mod Progress
mod Tests
use native.Mathlib.Decide.{ℕ_discrete}
use mathlib.Core.Logic.{ite}
use teehr_cloud_core.Base.{
  ℕ, zero, suc, ◌<◌, String, ◌≡◌, ◌≢◌, Bool, true, false, ◌||◌, Option, none, some, List, [], eqb,
  difference,
}
use teehr_cloud_core.Base.Dict.{Dict, lookup, insert}
use teehr_cloud_core.Xpublish.Provider.{
  RepoConfig, DatasetKind, config_names, find_config, pop_names, pop_dataset_ids,
}

-- `_discovery_lock`, `_lock`, `_cache_lock`, and the dataset locks by the order of their creation.
pub data Lock : Type 0 where
  discovery repos cache : Lock
  dataset : ℕ → Lock

-- What the threads share; a dataset id is mapped to its lock.
pub record Shared (Repo Tree : Type 0) : Type 0 where
  pub repo_configs : List RepoConfig
  pub opened : Dict Repo
  pub cached : Dict Tree
  pub dataset_locks : Dict ℕ
  pub next_lock : ℕ

-- Where a call stands. `name` is the repo that it has found, `removed` what it evicts, `l` its dataset's
-- lock.
pub data Point : Type 0 where
  refresh ask_discovery discovering : Point
  ask_repos dropping ask_cache evicting : (removed : List String) → Point
  resolve : Point
  peek ask_lock locking : (name : String) → Point
  ask_dataset check open_repo ask_open opening storing fetch load :
      (name : String) → (l : ℕ) → Point
  finished : Point

abbrev pub is_dataset : ℕ → Lock → Bool
is_dataset l (dataset k) = eqb l k
is_dataset l discovery = false
is_dataset l repos = false
is_dataset l cache = false

abbrev pub is_discovery : Lock → Bool
is_discovery discovery = true
is_discovery repos = false
is_discovery cache = false
is_discovery (dataset l) = false

abbrev pub is_repos : Lock → Bool
is_repos discovery = false
is_repos repos = true
is_repos cache = false
is_repos (dataset l) = false

abbrev pub is_cache : Lock → Bool
is_cache discovery = false
is_cache repos = false
is_cache cache = true
is_cache (dataset l) = false

-- The locks that a call holds at a point.
abbrev pub holds : Point → Lock → Bool
holds refresh k = false
holds ask_discovery k = false
holds discovering k = is_discovery k
holds (ask_repos removed) k = is_discovery k
holds (dropping removed) k = is_discovery k || is_repos k
holds (ask_cache removed) k = is_discovery k
holds (evicting removed) k = is_discovery k || is_cache k
holds resolve k = false
holds (peek name) k = false
holds (ask_lock name) k = false
holds (locking name) k = is_cache k
holds (ask_dataset name l) k = false
holds (check name l) k = is_dataset l k
holds (open_repo name l) k = is_dataset l k
holds (ask_open name l) k = is_dataset l k
holds (opening name l) k = is_dataset l k || is_repos k
holds (storing name l) k = is_dataset l k || is_repos k
holds (fetch name l) k = is_dataset l k
holds (load name l) k = is_dataset l k
holds finished k = false

-- No thread holds the lock.
abbrev pub Free : (ℕ → Point) → Lock → Type 0
Free pc k = (j : ℕ) → holds (pc j) k ≡ false

abbrev pub update : (ℕ → Point) → ℕ → Point → ℕ → Point
update pc i p j = ite (ℕ_discrete i j) p (pc j)

module _ {Repo Tree : Type 0} where
  -- One step of a call for the dataset `id`.
  pub data Move (id : String) (pc : ℕ → Point) (s : Shared Repo Tree)
      : Point → Shared Repo Tree → Point → Type 0 where
    -- `_repo_configs_fresh`, without the lock and under it
    listing_fresh : Move id pc s refresh s resolve
    listing_stale : Move id pc s refresh s ask_discovery
    enter_discovery : Free pc discovery → Move id pc s ask_discovery s discovering
    refreshed_meanwhile : Move id pc s discovering s resolve
    listing_failed : Move id pc s discovering s resolve
    none_removed :
        (configs : List RepoConfig)
        → difference (config_names s.repo_configs) (config_names configs) ≡ []
        → Move id pc s discovering (record s { repo_configs = configs }) resolve
    some_removed :
        (configs : List RepoConfig) {removed : List String}
        → difference (config_names s.repo_configs) (config_names configs) ≡ removed
        → removed ≢ []
        → Move id pc s discovering (record s { repo_configs = configs }) (ask_repos removed)
    -- `_evict`
    enter_repos :
        {removed : List String}
        → Free pc repos
        → Move id pc s (ask_repos removed) s (dropping removed)
    drop_repos :
        {removed : List String}
        → Move id pc s
            (dropping removed)
            (record s { opened = pop_names removed s.opened })
            (ask_cache removed)
    enter_cache :
        {removed : List String}
        → Free pc cache
        → Move id pc s (ask_cache removed) s (evicting removed)
    drop_datasets :
        {removed : List String}
        → Move id pc s
            (evicting removed)
            (record s {
              cached = pop_dataset_ids removed s.cached;
              dataset_locks = pop_dataset_ids removed s.dataset_locks;
            })
            resolve
    -- `_cfg_for_dataset_id`
    unknown : find_config id s.repo_configs ≡ none → Move id pc s resolve s finished
    found :
        {cfg : RepoConfig} {kind : DatasetKind}
        → find_config id s.repo_configs ≡ some (cfg, kind)
        → Move id pc s resolve s (peek cfg.name)
    -- the first test of the cache
    hit :
        {name : String} {dt : Tree}
        → lookup id s.cached ≡ some dt
        → Move id pc s (peek name) s finished
    miss : {name : String} → Move id pc s (peek name) s (ask_lock name)
    -- `_dataset_lock`
    enter_lock : {name : String} → Free pc cache → Move id pc s (ask_lock name) s (locking name)
    old_lock :
        {name : String} {l : ℕ}
        → lookup id s.dataset_locks ≡ some l
        → Move id pc s (locking name) s (ask_dataset name l)
    new_lock :
        {name : String}
        → lookup id s.dataset_locks ≡ none
        → Move id pc s
            (locking name)
            (record s {
              dataset_locks = insert id s.next_lock s.dataset_locks;
              next_lock = suc s.next_lock;
            })
            (ask_dataset name s.next_lock)
    enter_dataset :
        {name : String} {l : ℕ}
        → Free pc (dataset l)
        → Move id pc s (ask_dataset name l) s (check name l)
    -- the second test of the cache
    hit_again :
        {name : String} {l : ℕ} {dt : Tree}
        → lookup id s.cached ≡ some dt
        → Move id pc s (check name l) s finished
    miss_again : {name : String} {l : ℕ} → Move id pc s (check name l) s (open_repo name l)
    -- `_open_repo`: the test without the lock, the test under it, the open and its store, which looks
    -- at nothing, and the read after the lock
    is_open :
        {name : String} {l : ℕ} {repo : Repo}
        → lookup name s.opened ≡ some repo
        → Move id pc s (open_repo name l) s (fetch name l)
    not_open :
        {name : String} {l : ℕ}
        → lookup name s.opened ≡ none
        → Move id pc s (open_repo name l) s (ask_open name l)
    enter_open :
        {name : String} {l : ℕ} → Free pc repos → Move id pc s (ask_open name l) s (opening name l)
    opened_meanwhile :
        {name : String} {l : ℕ} {repo : Repo}
        → lookup name s.opened ≡ some repo
        → Move id pc s (opening name l) s (fetch name l)
    still_closed :
        {name : String} {l : ℕ}
        → lookup name s.opened ≡ none
        → Move id pc s (opening name l) s (storing name l)
    open_failed : {name : String} {l : ℕ} → Move id pc s (storing name l) s finished
    opens :
        {name : String} {l : ℕ} (repo : Repo)
        → Move id pc s
            (storing name l)
            (record s { opened = insert name repo s.opened })
            (fetch name l)
    fetched :
        {name : String} {l : ℕ} {repo : Repo}
        → lookup name s.opened ≡ some repo
        → Move id pc s (fetch name l) s (load name l)
    -- a KeyError, after an eviction since the test
    evicted :
        {name : String} {l : ℕ}
        → lookup name s.opened ≡ none
        → Move id pc s (fetch name l) s finished
    -- the branch has not moved or was not looked up, or an operation of icechunk has raised
    not_loaded : {name : String} {l : ℕ} → Move id pc s (load name l) s finished
    loads :
        {name : String} {l : ℕ} (dt : Tree)
        → Move id pc s (load name l) (record s { cached = insert id dt s.cached }) finished

  -- `n` calls, the one of thread `i` for the dataset `ids i`.
  module _ (n : ℕ) (ids : ℕ → String) where
    pub data Step (pc : ℕ → Point) (s : Shared Repo Tree)
        : (ℕ → Point) → Shared Repo Tree → Type 0 where
      pick :
          (i : ℕ) {s' : Shared Repo Tree} {p : Point}
          → i < n
          → Move (ids i) pc s (pc i) s' p
          → Step pc s (update pc i p) s'

    -- `Interleaved start k pc s`: the calls are at `pc` after `k` steps from their start in `start`.
    pub data Interleaved (start : Shared Repo Tree)
        : ℕ → (ℕ → Point) → Shared Repo Tree → Type 0 where
      begin : Interleaved start zero (λ i. refresh) start
      next :
          {k : ℕ} {pc pc' : ℕ → Point} {s s' : Shared Repo Tree}
          → Interleaved start k pc s
          → Step pc s pc' s'
          → Interleaved start (suc k) pc' s'
