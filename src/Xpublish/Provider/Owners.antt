-- ===== src/Xpublish/Provider/Owners.antt =====
-- Every cached dataset belongs to a repo of the latest listing.
use teehr_cloud_core.Base.{
  ℕ, String, ◌≡◌, refl, inl, inr, Bool, true, false, not, ◌||◌, Option, none, some, List, [], ◌∷◌,
  arith, eq_iff, if◌then◌else◌, Bool-cases, Option-cases, any, contains, difference, contains-keep,
  any_elim, any_intro, ◌==◌, Result, ok, err, Result-cases,
}
use teehr_cloud_core.Base.Dict.{Dict, lookup, insert, erase, has_key, lookup-insert, lookup-erase}
use teehr_cloud_core.Xpublish.Provider.{
  RepoConfig, DatasetKind, CacheEntry, Provider, Discovery, config_names, data_id, pop_dataset_ids,
  evict, adopt_configs, refresh_locked, refresh_repo_configs, repo_configs_fresh,
  discover_repo_configs, find_config,
}
use teehr_cloud_core.Xpublish.Provider.Datasets.{
  Seen, Fault, open_repo, load_entry, revalidate, get_locked, get_datatree_for_dataset, with_lock,
  cached_tree,
}

lookup-pop_dataset_ids :
    {V : Type 0} (names : List String) (id : String) (d : Dict V)
    → lookup id (pop_dataset_ids names d)
      ≡ (if any (λ n. id == n || id == data_id n) names then none else lookup id d)
unfolding pop_dataset_ids
lookup-pop_dataset_ids [] id d = refl
lookup-pop_dataset_ids (n ∷ names) id d = ground (
  arith,
  lookup-pop_dataset_ids names id (erase (data_id n) (erase n d)),
  lookup-erase (data_id n) id (erase n d),
  lookup-erase n id d,
  eq_iff id n,
  eq_iff n id,
  eq_iff id (data_id n),
  eq_iff (data_id n) id,
)

-- A dataset id names a repo of the list, by its name or by its name with "_data".
abbrev pub is_owned : List RepoConfig → String → Bool
is_owned cfgs id = any (λ n. id == n || id == data_id n) (config_names cfgs)

any_of_kept :
    (m : String → Bool) (previous current : List String)
    → any m previous ≡ true
    → any m (difference previous current) ≡ false
    → any m current ≡ true
any_of_kept m previous current h gone =
    let (x, listed, hit) = any_elim m previous h in
    elim (Bool-cases (contains x current)) [
      | inl still ↦ any_intro m x current still hit
      | inr left ↦
          let removed : any m (difference previous current) ≡ true =
            any_intro m x (difference previous current)
              (rw (contains-keep (λ y. not (contains y current)) x previous, listed, left)) hit in
          cc
    ]

find_config-is_owned :
    (id : String) (cfgs : List RepoConfig) {found : RepoConfig × DatasetKind}
    → find_config id cfgs ≡ some found
    → is_owned cfgs id ≡ true
unfolding find_config
find_config-is_owned id [] h = cc
find_config-is_owned id (cfg ∷ cfgs) {found} h =
    ground (arith, find_config-is_owned id cfgs {found = found})

owned_after_pop :
    {V : Type 0} (before after : List RepoConfig) (d : Dict V)
    → ((id : String) → has_key id d ≡ true → is_owned before id ≡ true)
    → (id : String)
    → has_key id (pop_dataset_ids (difference (config_names before) (config_names after)) d) ≡ true
    → is_owned after id ≡ true
owned_after_pop before after d owned id h =
    let removed = difference (config_names before) (config_names after) in
    let m : String → Bool = λ n. id == n || id == data_id n in
    let popped = lookup-pop_dataset_ids removed id d in
    elim (Bool-cases (any m removed)) [
      | inl gone ↦ absurd (no_key (rw (popped, gone) at h))
      | inr kept ↦
          any_of_kept m (config_names before) (config_names after)
            (owned id (rw (popped, kept) at h)) kept
    ]
  where
    no_key : false ≡ true → ⊥
    no_key e = cc

has_key-insert_owned :
    {V : Type 0} (cfgs : List RepoConfig) (k : String) (v : V) (d : Dict V)
    → is_owned cfgs k ≡ true
    → ((id : String) → has_key id d ≡ true → is_owned cfgs id ≡ true)
    → (id : String) → has_key id (insert k v d) ≡ true
    → is_owned cfgs id ≡ true
has_key-insert_owned cfgs k v d owned h id m = elim (Bool-cases (k == id)) [
  | inl same ↦ let e : k ≡ id = (eq_iff k id).0 same in rw e at owned
  | inr other ↦ h id (rw (lookup-insert k id v d, other) at m)
]

module _ {Repo Tree : Type 0} where
  -- The cached ids, and those with a lock, belong to the repos of the latest listing.
  pub record HasOwners (p : Provider Repo Tree) : Type 0 where
    pub cached : (id : String) → has_key id p.cache ≡ true → is_owned p.repo_configs id ≡ true
    pub locked :
        (id : String) → has_key id p.dataset_locks ≡ true → is_owned p.repo_configs id ≡ true

  adopt_configs-HasOwners :
      (p : Provider Repo Tree) (at : ℕ) (configs : List RepoConfig)
      → HasOwners p
      → HasOwners (adopt_configs p at configs).0
  unfolding adopt_configs evict
  adopt_configs-HasOwners p at configs h = record {
    cached = owned_after_pop p.repo_configs configs p.cache h.cached;
    locked = owned_after_pop p.repo_configs configs p.dataset_locks h.locked;
  }

  -- A refresh of the listing keeps the cache and the locks to ids of the repos of the latest listing,
  -- whether the listing is fresh, fails, or has found new repos and lost old ones.
  pub refresh_repo_configs-HasOwners :
      (p : Provider Repo Tree) (seen : Discovery)
      → HasOwners p
      → HasOwners (refresh_repo_configs p seen).0
  unfolding refresh_repo_configs refresh_locked
  refresh_repo_configs-HasOwners p seen h = elim (Bool-cases (repo_configs_fresh p seen.first_at)) [
    | inl fresh ↦ rw fresh h
    | inr stale ↦ elim (Bool-cases (repo_configs_fresh p seen.locked_at)) [
      | inl fresh ↦ rw (stale, fresh) h
      | inr again ↦ elim (Option-cases seen.pages) [
        | inl failed ↦ rw (stale, again, failed) (record { cached = h.cached; locked = h.locked })
        | inr (pages, listed) ↦
            rw (stale, again, listed)
              (adopt_configs-HasOwners p seen.stamped_at (discover_repo_configs p pages) h)
      ]
    ]
  ]

  store-HasOwners :
      (p : Provider Repo Tree) (id : String) (entry : CacheEntry Tree)
      → is_owned p.repo_configs id ≡ true
      → HasOwners p
      → HasOwners (record p { cache = insert id entry p.cache })
  store-HasOwners p id entry owned h = record {
    cached = has_key-insert_owned p.repo_configs id entry p.cache owned h.cached;
    locked = h.locked;
  }

  load_entry-HasOwners :
      (p : Provider Repo Tree) (seen : Seen Repo Tree) (id : String) (repo : Repo)
      (kind : DatasetKind) (tip : String)
      → is_owned p.repo_configs id ≡ true
      → HasOwners p
      → HasOwners (load_entry p seen id repo kind tip).0
  unfolding load_entry
  load_entry-HasOwners p seen id repo kind tip owned h =
      elim (Option-cases (seen.load_datatree id repo kind tip)) [
        | inl e ↦ rw (e, load_entry) h
        | inr (dt, e) ↦ rw (e, load_entry) (store-HasOwners p id _ owned h)
      ]

  revalidate-HasOwners :
      (p : Provider Repo Tree) (seen : Seen Repo Tree) (id : String) (repo : Repo)
      (kind : DatasetKind) (entry : Option (CacheEntry Tree))
      → is_owned p.repo_configs id ≡ true
      → HasOwners p
      → HasOwners (revalidate p seen id repo kind entry).0
  unfolding revalidate
  revalidate-HasOwners p seen id repo kind none owned h =
      elim (Option-cases (seen.lookup_branch repo)) [
        | inl e ↦ rw (e, revalidate) h
        | inr (tip, e) ↦ rw (e, revalidate) (load_entry-HasOwners p seen id repo kind tip owned h)
      ]
  revalidate-HasOwners p seen id repo kind (some entry) owned h =
      elim (Option-cases (seen.lookup_branch repo)) [
        | inl e ↦ rw (e, revalidate) (store-HasOwners p id _ owned h)
        | inr (tip, e) ↦ elim (Bool-cases (entry.snapshot_id == tip)) [
          | inl same ↦ rw (e, revalidate, same) (store-HasOwners p id _ owned h)
          | inr moved ↦
              rw (e, revalidate, moved) (load_entry-HasOwners p seen id repo kind tip owned h)
        ]
      ]

  with_lock-HasOwners :
      (p : Provider Repo Tree) (id : String)
      → is_owned p.repo_configs id ≡ true
      → HasOwners p
      → HasOwners (with_lock p id)
  unfolding with_lock
  with_lock-HasOwners p id owned h = elim (Bool-cases (has_key id p.dataset_locks)) [
    | inl old ↦ rw old h
    | inr new ↦ rw new (record {
      cached = h.cached;
      locked = has_key-insert_owned p.repo_configs id tt p.dataset_locks owned h.locked;
    })
  ]

  with_lock-owned :
      (p : Provider Repo Tree) (id : String)
      → is_owned p.repo_configs id ≡ true
      → is_owned (with_lock p id).repo_configs id ≡ true
  unfolding with_lock
  with_lock-owned p id owned = owned

  -- What opening a repo keeps.
  abbrev Opens : Provider Repo Tree → Result Fault (Provider Repo Tree × Repo) → Type 0
  Opens p (ok (opened, repo)) = (opened.repo_configs ≡ p.repo_configs) × HasOwners opened
  Opens p (err e) = Unit

  open_repo-Opens :
      (p : Provider Repo Tree) (seen : Seen Repo Tree) (cfg : RepoConfig)
      → HasOwners p
      → Opens p (open_repo p seen cfg)
  unfolding open_repo
  open_repo-Opens p seen cfg h = elim (Option-cases (lookup cfg.name p.repos)) [
    | inr (repo, e) ↦ rw (e, open_repo) (refl, h)
    | inl e ↦ elim (Option-cases (seen.open_repo cfg)) [
      | inl f ↦ rw (e, open_repo, f) tt
      | inr (repo, f) ↦ rw (e, open_repo, f) (refl, record { cached = h.cached; locked = h.locked })
    ]
  ]

  get_locked-HasOwners :
      (p : Provider Repo Tree) (seen : Seen Repo Tree) (id : String) (cfg : RepoConfig)
      (kind : DatasetKind)
      → is_owned p.repo_configs id ≡ true
      → HasOwners p
      → HasOwners (get_locked p seen id cfg kind).0
  unfolding get_locked
  get_locked-HasOwners p seen id cfg kind owned h =
      let locked = with_lock-HasOwners p id owned h in
      elim (Option-cases (cached_tree (with_lock p id) seen.second_test_at id)) [
        | inr (dt, e) ↦ rw (e, get_locked) locked
        | inl e ↦
            rw (e, get_locked)
              (elim (Result-cases (open_repo (with_lock p id) seen cfg)) [
                | inr (fault, f) ↦ rw f locked
                | inl ((opened, repo), f) ↦
                    let (same, kept) = rw f at (open_repo-Opens (with_lock p id) seen cfg locked) in
                    rw f (
                      revalidate-HasOwners opened seen id repo kind
                        (lookup id (with_lock p id).cache) (rw same (with_lock-owned p id owned))
                        kept)
              ])
      ]

  -- A call keeps the cache and the locks to ids of the repos that the latest listing found, whatever
  -- the listing, the branch lookup and the load do.
  pub get_datatree_for_dataset-HasOwners :
      (p : Provider Repo Tree) (seen : Seen Repo Tree) (id : String)
      → HasOwners p
      → HasOwners (get_datatree_for_dataset p seen id).0
  unfolding get_datatree_for_dataset
  get_datatree_for_dataset-HasOwners p seen id h =
      let refreshed = (refresh_repo_configs p seen.discovery).0 in
      let kept = refresh_repo_configs-HasOwners p seen.discovery h in
      elim (Option-cases (find_config id refreshed.repo_configs)) [
        | inl e ↦ rw (e, get_datatree_for_dataset) kept
        | inr ((cfg, kind), e) ↦
            rw (e, get_datatree_for_dataset)
              (elim (Option-cases (cached_tree refreshed seen.first_test_at id)) [
                | inr (dt, f) ↦ rw f kept
                | inl f ↦ rw f (
                    get_locked-HasOwners refreshed seen id cfg kind
                      (find_config-is_owned id refreshed.repo_configs e) kept)
              ])
      ]
