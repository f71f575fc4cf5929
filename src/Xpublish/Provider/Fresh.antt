-- ===== src/Xpublish/Provider/Fresh.antt =====
-- Which snapshot a call serves.
use teehr_cloud_core.Base.{
  ℕ, String, ◌≡◌, refl, sym, ap, ◌∙◌, ◌⊎◌, inl, inr, true, Option, none, some, arith, eq_iff,
  eq_refl, Bool-cases, Option-cases, ◌==◌, Result, ok, err, Result-cases,
}
use teehr_cloud_core.Base.Dict.{Dict, lookup, insert, lookup-insert}
use teehr_cloud_core.Xpublish.Provider.{
  RepoConfig, DatasetKind, CacheEntry, Provider, is_within, refresh_repo_configs, find_config,
}
use teehr_cloud_core.Xpublish.Provider.Datasets.{
  Seen, Fault, open_repo, load_entry, revalidate, with_lock, cached_tree, get_locked,
  get_datatree_for_dataset,
}

module _ {Repo Tree : Type 0} (seen : Seen Repo Tree) (id : String) where
  -- Why an entry may be served: it was checked within the TTL; or it is at the tip of the branch of
  -- the repo; or the branch cannot be looked up and it is the snapshot cached before.
  pub data Reason (cfg : RepoConfig) (before : Option (CacheEntry Tree))
      (after : Provider Repo Tree) (entry : CacheEntry Tree) : Type 0 where
    recent :
        (at : ℕ)
        → (at ≡ seen.first_test_at) ⊎ (at ≡ seen.second_test_at)
        → is_within at entry.checked_at after.cache_ttl_seconds ≡ true
        → Reason cfg before after entry
    at_tip :
        (repo : Repo)
        → lookup cfg.name after.repos ≡ some repo
        → seen.lookup_branch repo ≡ some entry.snapshot_id
        → Reason cfg before after entry
    unreachable :
        (repo : Repo) (old : CacheEntry Tree)
        → lookup cfg.name after.repos ≡ some repo
        → seen.lookup_branch repo ≡ none
        → before ≡ some old
        → entry.snapshot_id ≡ old.snapshot_id
        → Reason cfg before after entry

  -- A tree that is returned is that of the entry in the cache afterwards, which has a reason.
  abbrev pub Fresh :
      RepoConfig
      → Option (CacheEntry Tree)
      → Provider Repo Tree × Result Fault (Option Tree)
      → Type 0
  Fresh cfg before (after, ok (some dt)) =
      (entry : CacheEntry Tree) × (lookup id after.cache ≡ some entry)
      × (entry.datatree ≡ dt)
      × Reason cfg before after entry
  Fresh cfg before (after, ok none) = ⊥
  Fresh cfg before (after, err e) = Unit

  abbrev KeepsCache :
      Provider Repo Tree → RepoConfig → Result Fault (Provider Repo Tree × Repo) → Type 0
  KeepsCache p cfg (ok (opened, repo)) =
      (lookup cfg.name opened.repos ≡ some repo) × (opened.cache ≡ p.cache)
  KeepsCache p cfg (err e) = Unit

  lookup_stored :
      (d : Dict (CacheEntry Tree)) (entry : CacheEntry Tree)
      → lookup id (insert id entry d) ≡ some entry
  lookup_stored d entry = rw (lookup-insert id id entry d, eq_refl id)

  load_entry-Fresh :
      (p : Provider Repo Tree) (cfg : RepoConfig) (kind : DatasetKind) (repo : Repo) (tip : String)
      (before : Option (CacheEntry Tree))
      → lookup cfg.name p.repos ≡ some repo
      → seen.lookup_branch repo ≡ some tip
      → Fresh cfg before (load_entry p seen id repo kind tip)
  unfolding load_entry
  load_entry-Fresh p cfg kind repo tip before opened found =
      elim (Option-cases (seen.load_datatree id repo kind tip)) [
        | inl e ↦ rw (e, load_entry) tt
        | inr (dt, e) ↦
            rw (e, load_entry) (_, lookup_stored p.cache _, refl, at_tip repo opened found)
      ]

  revalidate-Fresh :
      (p : Provider Repo Tree) (cfg : RepoConfig) (kind : DatasetKind) (repo : Repo)
      (before : Option (CacheEntry Tree))
      → lookup cfg.name p.repos ≡ some repo
      → Fresh cfg before (revalidate p seen id repo kind before)
  unfolding revalidate
  revalidate-Fresh p cfg kind repo none opened = elim (Option-cases (seen.lookup_branch repo)) [
    | inl e ↦ rw (e, revalidate) tt
    | inr (tip, e) ↦ rw (e, revalidate) (load_entry-Fresh p cfg kind repo tip none opened e)
  ]
  revalidate-Fresh p cfg kind repo (some old) opened =
      elim (Option-cases (seen.lookup_branch repo)) [
        | inl e ↦
            rw (e, revalidate)
              (_, lookup_stored p.cache _, refl, unreachable repo old opened e refl refl)
        | inr (tip, e) ↦ elim (Bool-cases (old.snapshot_id == tip)) [
          | inl same ↦
              rw (e, revalidate, same)
                (
                  _,
                  lookup_stored p.cache _,
                  refl,
                  at_tip repo opened (e ∙ ap some (sym ((eq_iff old.snapshot_id tip).0 same))),
                )
          | inr moved ↦
              rw (e, revalidate, moved) (load_entry-Fresh p cfg kind repo tip (some old) opened e)
        ]
      ]

  -- A tree that passes the test of its age.
  cached_tree-Fresh :
      (p : Provider Repo Tree) (cfg : RepoConfig) (at : ℕ) {dt : Tree}
      → (at ≡ seen.first_test_at) ⊎ (at ≡ seen.second_test_at)
      → cached_tree p at id ≡ some dt
      → Fresh cfg (lookup id p.cache) (p, ok (some dt))
  unfolding cached_tree
  cached_tree-Fresh p cfg at when e = elim (Option-cases (lookup id p.cache)) [
    | inl f ↦ cc (rw (f, cached_tree) at e)
    | inr (entry, f) ↦ elim (Bool-cases (is_within at entry.checked_at p.cache_ttl_seconds)) [
      | inl t ↦ (entry, f, ground arith, recent at when t)
      | inr t ↦ absurd (ground (arith, e, f, t))
    ]
  ]

  open_repo_keeps :
      (p : Provider Repo Tree) (cfg : RepoConfig) → KeepsCache p cfg (open_repo p seen cfg)
  unfolding open_repo
  open_repo_keeps p cfg = elim (Option-cases (lookup cfg.name p.repos)) [
    | inr (repo, e) ↦ rw (e, open_repo) (e, refl)
    | inl e ↦ elim (Option-cases (seen.open_repo cfg)) [
      | inl f ↦ rw (e, open_repo, f) tt
      | inr (repo, f) ↦
          rw (e, open_repo, f)
            (rw (lookup-insert cfg.name cfg.name repo p.repos, eq_refl cfg.name), refl)
    ]
  ]

  get_locked-Fresh :
      (p : Provider Repo Tree) (cfg : RepoConfig) (kind : DatasetKind)
      → Fresh cfg (lookup id (with_lock p id).cache) (get_locked p seen id cfg kind)
  unfolding get_locked
  get_locked-Fresh p cfg kind =
      elim (Option-cases (cached_tree (with_lock p id) seen.second_test_at id)) [
        | inr (dt, e) ↦
            rw (e, get_locked)
              (cached_tree-Fresh (with_lock p id) cfg seen.second_test_at (inr refl) e)
        | inl e ↦
            rw (e, get_locked)
              (elim (Result-cases (open_repo (with_lock p id) seen cfg)) [
                | inr (fault, f) ↦ rw f tt
                | inl ((opened, repo), f) ↦
                    let (found, same) = rw f at (open_repo_keeps (with_lock p id) cfg) in
                    rw f (
                      revalidate-Fresh opened cfg kind repo (lookup id (with_lock p id).cache)
                        found)
              ])
      ]

  with_lock-cache : (p : Provider Repo Tree) → (with_lock p id).cache ≡ p.cache
  unfolding with_lock
  with_lock-cache p = refl

  -- For an id that names a discovered repo, a tree that is returned is that of the cache entry left
  -- behind, and that entry was checked within the TTL, or is at the tip of the branch of the repo
  -- that the id names, or is the snapshot cached before while the branch could not be looked up.
  pub get_datatree_for_dataset-Fresh :
      (p : Provider Repo Tree) (cfg : RepoConfig) (kind : DatasetKind)
      → find_config id (refresh_repo_configs p seen.discovery).0.repo_configs ≡ some (cfg, kind)
      → Fresh cfg
          (lookup id (refresh_repo_configs p seen.discovery).0.cache)
          (get_datatree_for_dataset p seen id)
  unfolding get_datatree_for_dataset
  get_datatree_for_dataset-Fresh p cfg kind e =
      let refreshed = (refresh_repo_configs p seen.discovery).0 in
      rw (e, get_datatree_for_dataset)
        (elim (Option-cases (cached_tree refreshed seen.first_test_at id)) [
          | inr (dt, f) ↦ rw f (cached_tree-Fresh refreshed cfg seen.first_test_at (inl refl) f)
          | inl f ↦ rw (f, ← with_lock-cache refreshed) (get_locked-Fresh refreshed cfg kind)
        ])
