-- ===== src/Xpublish/Provider/Datasets.antt =====
-- xpublish-api/src/provider.py: get_datatree_for_dataset, the cache of the datasets and its locks.
use teehr_cloud_core.Base.{
  ℕ, String, Bool, Option, none, some, if◌then◌else◌, ◌==◌, Result, ok, err,
}
use teehr_cloud_core.Base.Dict.{lookup, insert, has_key}
use teehr_cloud_core.Xpublish.Provider.{
  RepoConfig, DatasetKind, CacheEntry, Provider, Discovery, is_within, refresh_repo_configs,
  find_config,
}

pub data Fault : Type 0 where
  open_failed lookup_failed load_failed : Fault

-- What one call of `get_datatree_for_dataset` sees: the discovery, the clock at the two tests of the
-- entry, when the branch was looked up and when a load ends, and the operations of icechunk, `none`
-- where they raise.
pub record Seen (Repo Tree : Type 0) : Type 0 where
  pub discovery : Discovery
  pub first_test_at : ℕ
  pub second_test_at : ℕ
  pub looked_up_at : ℕ
  pub loaded_at : ℕ
  pub open_repo : RepoConfig → Option Repo
  pub lookup_branch : Repo → Option String
  pub load_datatree : String → Repo → DatasetKind → String → Option Tree

-- what the `get_datatree` hook makes of a tree; `child` is `dt[group]`, `none` for a KeyError
abbrev pub group_of :
    {Tree : Type 0} → (Tree → String → Option Tree) → String → Option Tree → Option Tree
group_of child group none = none
group_of child group (some dt) = if group == "" then some dt else child dt group

module _ {Repo Tree : Type 0} where
  -- `_open_repo`: an opened repo is kept
  unfoldable pub open_repo :
      Provider Repo Tree → Seen Repo Tree → RepoConfig → Result Fault (Provider Repo Tree × Repo)
  open_repo p seen cfg = elim (lookup cfg.name p.repos) [
    | some repo ↦ ok (p, repo)
    | none ↦ elim (seen.open_repo cfg) [
      | none ↦ err open_failed
      | some repo ↦ ok (record p { repos = insert cfg.name repo p.repos }, repo)
    ]
  ]

  abbrev pub is_checked : Provider Repo Tree → ℕ → CacheEntry Tree → Bool
  is_checked p now entry = is_within now entry.checked_at p.cache_ttl_seconds

  abbrev pub store :
      Provider Repo Tree
      → String
      → CacheEntry Tree
      → Provider Repo Tree × Result Fault (Option Tree)
  store p dataset_id entry =
      (record p { cache = insert dataset_id entry p.cache }, ok (some entry.datatree))

  unfoldable pub load_entry :
      Provider Repo Tree
      → Seen Repo Tree
      → String
      → Repo
      → DatasetKind
      → String
      → Provider Repo Tree × Result Fault (Option Tree)
  load_entry p seen dataset_id repo kind tip = elim (seen.load_datatree dataset_id repo kind tip) [
    | none ↦ (p, err load_failed)
    | some dt ↦
        store p dataset_id
          (record { datatree = dt; snapshot_id = tip; checked_at = seen.loaded_at })
  ]

  -- after `_open_repo`, with the entry that the lock holder found
  unfoldable pub revalidate :
      Provider Repo Tree
      → Seen Repo Tree
      → String
      → Repo
      → DatasetKind
      → Option (CacheEntry Tree)
      → Provider Repo Tree × Result Fault (Option Tree)
  revalidate p seen dataset_id repo kind none = elim (seen.lookup_branch repo) [
    | none ↦ (p, err lookup_failed)
    | some tip ↦ load_entry p seen dataset_id repo kind tip
  ]
  revalidate p seen dataset_id repo kind (some entry) = elim (seen.lookup_branch repo) [
    | none ↦ store p dataset_id (record entry { checked_at = seen.looked_up_at })
    | some tip ↦
        if entry.snapshot_id == tip
        then store p dataset_id (record entry { checked_at = seen.looked_up_at })
        else load_entry p seen dataset_id repo kind tip
  ]

  -- `_dataset_lock`: an id gets a lock once
  unfoldable pub with_lock : Provider Repo Tree → String → Provider Repo Tree
  with_lock p dataset_id = record p {
    dataset_locks =
        if has_key dataset_id p.dataset_locks
        then p.dataset_locks
        else insert dataset_id tt p.dataset_locks;
  }

  -- the cached tree, if its entry was checked within the TTL
  unfoldable pub cached_tree : Provider Repo Tree → ℕ → String → Option Tree
  cached_tree p now dataset_id = elim (lookup dataset_id p.cache) [
    | none ↦ none
    | some entry ↦ if is_checked p now entry then some entry.datatree else none
  ]

  -- the part under the dataset's lock
  unfoldable pub get_locked :
      Provider Repo Tree
      → Seen Repo Tree
      → String
      → RepoConfig
      → DatasetKind
      → Provider Repo Tree × Result Fault (Option Tree)
  get_locked p seen dataset_id cfg kind =
      let locked = with_lock p dataset_id in
      elim (cached_tree locked seen.second_test_at dataset_id) [
        | some dt ↦ (locked, ok (some dt))
        | none ↦ elim (open_repo locked seen cfg) [
          | err e ↦ (locked, err e)
          | ok (opened, repo) ↦
              revalidate opened seen dataset_id repo kind (lookup dataset_id locked.cache)
        ]
      ]

  unfoldable pub get_datatree_for_dataset :
      Provider Repo Tree → Seen Repo Tree → String → Provider Repo Tree × Result Fault (Option Tree)
  get_datatree_for_dataset p seen dataset_id =
      let refreshed = (refresh_repo_configs p seen.discovery).0 in
      elim (find_config dataset_id refreshed.repo_configs) [
        | none ↦ (refreshed, ok none)
        | some (cfg, kind) ↦ elim (cached_tree refreshed seen.first_test_at dataset_id) [
          | some dt ↦ (refreshed, ok (some dt))
          | none ↦ get_locked refreshed seen dataset_id cfg kind
        ]
      ]

  unfoldable pub get_datatree :
      (Tree → String → Option Tree)
      → Provider Repo Tree
      → Seen Repo Tree
      → String
      → String
      → Provider Repo Tree × Result Fault (Option Tree)
  unfolding get_datatree_for_dataset
  get_datatree child p seen dataset_id group =
      let (q, outcome) = get_datatree_for_dataset p seen dataset_id in
      (q, elim outcome [ err e ↦ err e | ok found ↦ ok (group_of child group found) ])
