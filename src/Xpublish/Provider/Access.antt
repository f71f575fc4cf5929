-- ===== src/Xpublish/Provider/Access.antt =====
-- The access check of authz.py covers the repo that the provider serves.
use mathlib.Core.Path.{subst}
use mathlib.Core.Option.{some-injective}
use teehr_cloud_core.Base.{
  String, ◌≡◌, sym, ◌∙◌, ◌≢◌, inl, inr, Bool, true, false, none, some, List, [], ◌∷◌, arith, eq_iff,
  eq_refl, Bool-cases, Option-cases, all, contains, all-contains, ◌==◌, strip_suffix, has_char,
  strip_suffix-append,
}
use text.Mathlib.TextLemmas.{append_cancel_right, nil-append}
use teehr_cloud_core.Xpublish.Identity.{AuthIdentity}
use teehr_cloud_core.Xpublish.Authz.{
  AccessRules, Kind, is_permitted, repo_candidates, data_suffix, is_request_permitted,
  variables_target, reads,
}
use teehr_cloud_core.Xpublish.Authz.Requests.{
  dataset_path, variables_path, permitted_dataset, permitted_variables, request_target-variables,
}
use teehr_cloud_core.Xpublish.Provider.{RepoConfig, DatasetKind, tiles, edr, find_config, data_id}

-- What an id that resolves to a repo is called.
abbrev Names : String → RepoConfig × DatasetKind → Type 0
Names id (cfg, tiles) = id ≡ cfg.name
Names id (cfg, edr) = id ≡ data_id cfg.name

find_config-Names :
    (id : String) (cfgs : List RepoConfig) (cfg : RepoConfig) (kind : DatasetKind)
    → find_config id cfgs ≡ some (cfg, kind)
    → Names id (cfg, kind)
unfolding find_config
find_config-Names id [] cfg kind h = cc
find_config-Names id (c ∷ cfgs) cfg kind h = elim (Bool-cases (id == c.name)) [
  | inl e ↦
      let same : (c, tiles) ≡ (cfg, kind) = some-injective _ _ (rw (e, find_config) at h) in
      subst (Names id) same ((eq_iff id c.name).0 e)
  | inr e ↦ elim (Bool-cases (id == data_id c.name)) [
    | inl f ↦
        let same : (c, edr) ≡ (cfg, kind) = some-injective _ _ (rw (e, find_config, f) at h) in
        subst (Names id) same ((eq_iff id (data_id c.name)).0 f)
    | inr f ↦ find_config-Names id cfgs cfg kind (rw (e, find_config, f) at h)
  ]
]

candidates_exact : (id : String) → contains id (repo_candidates id) ≡ true
unfolding repo_candidates
candidates_exact id = elim (Option-cases (strip_suffix data_suffix id)) [
  | inl e ↦ rw (e, repo_candidates, eq_refl id)
  | inr (base, e) ↦ elim (Bool-cases (id == data_suffix)) [
    | inl f ↦ rw (e, repo_candidates, f, eq_refl id)
    | inr f ↦ rw (e, repo_candidates, f, eq_refl id)
  ]
]

candidates_stripped :
    (name : String) → name ≢ "" → contains name (repo_candidates (data_id name)) ≡ true
unfolding repo_candidates
candidates_stripped name h = elim (Bool-cases (data_id name == data_suffix)) [
  | inl e ↦ absurd (
      h (
        append_cancel_right name "" "_data"
          ((eq_iff (data_id name) data_suffix).0 e ∙ sym (nil-append "_data"))))
  | inr e ↦ rw (strip_suffix-append "_data" name, repo_candidates, e) (ground (arith, eq_refl name))
]

module _ (rules : AccessRules) (identity : AuthIdentity) where
  abbrev may_read : String → Bool
  may_read name = is_permitted rules identity Kind.repos name

  -- Whatever an id resolves to, the name is among those that are checked for the id.
  served_is_checked :
      (id : String) (cfgs : List RepoConfig) (cfg : RepoConfig) (kind : DatasetKind)
      → cfg.name ≢ ""
      → find_config id cfgs ≡ some (cfg, kind)
      → all may_read (repo_candidates id) ≡ true
      → may_read cfg.name ≡ true
  served_is_checked id cfgs cfg tiles h e allowed =
      let named = find_config-Names id cfgs cfg tiles e in
      all-contains may_read cfg.name (repo_candidates id) allowed
        (rw (← named) (candidates_exact id))
  served_is_checked id cfgs cfg edr h e allowed =
      let named = find_config-Names id cfgs cfg edr e in
      all-contains may_read cfg.name (repo_candidates id) allowed
        (rw named (candidates_stripped cfg.name h))

  -- If a request under a dataset's path is permitted, the dataset id has no "/", and the provider
  -- resolves the id to a repo with a name, then the user may read that repo, whichever repos have
  -- been discovered.
  pub served_repo_is_permitted :
      (id rest : String) (cfgs : List RepoConfig) (cfg : RepoConfig) (kind : DatasetKind)
      → has_char b'/' id ≡ false
      → cfg.name ≢ ""
      → find_config id cfgs ≡ some (cfg, kind)
      → is_request_permitted rules identity (dataset_path id rest) ≡ true
      → is_permitted rules identity Kind.repos cfg.name ≡ true
  served_repo_is_permitted id rest cfgs cfg kind h n e allowed =
      served_is_checked id cfgs cfg kind n e (permitted_dataset rules identity id rest h allowed).1

  -- The variables route reads the dataset id with "_data" added. If the request is permitted and the
  -- provider resolves that id to the data group of a repo, then the user may read the repo.
  pub variables_repo_is_permitted :
      (id : String) (cfgs : List RepoConfig) (cfg : RepoConfig)
      → find_config (data_id id) cfgs ≡ some (cfg, edr)
      → is_request_permitted rules identity (variables_path id) ≡ true
      → is_permitted rules identity Kind.repos cfg.name ≡ true
  variables_repo_is_permitted id cfgs cfg e allowed =
      let named = find_config-Names (data_id id) cfgs cfg edr e in
      let same : id ≡ cfg.name = append_cancel_right id cfg.name "_data" named in
      rw (← same) (
        all-contains may_read id (repo_candidates id)
          (permitted_variables rules identity id allowed) (candidates_exact id))

  target_lem :
      (id : String)
      → id ≢ ""
      → has_char b'/' id ≡ false
      → strip_suffix data_suffix id ≡ none
      → variables_target id ≡ reads Kind.repos (id ∷ [])
  unfolding variables_target repo_candidates
  target_lem id nonempty h plain = elim (Bool-cases (id == "")) [
    | inl e ↦ absurd (nonempty ((eq_iff id "").0 e))
    | inr e ↦ rw (e, variables_target, h, repo_candidates, plain)
  ]

  -- For an id without "/" that does not end in "_data": if the user may read the name `id`, and
  -- the first repo of the listing is named `id` with "_data" and the user may not read it, then
  -- the variables route for `id` is permitted, and the dataset id that it reads resolves to that
  -- repo.
  pub variables_route_gap :
      (id : String) (cfg : RepoConfig) (cfgs : List RepoConfig)
      → id ≢ ""
      → has_char b'/' id ≡ false
      → strip_suffix data_suffix id ≡ none
      → cfg.name ≡ data_id id
      → is_permitted rules identity Kind.repos id ≡ true
      → is_permitted rules identity Kind.repos cfg.name ≡ false
      → (is_request_permitted rules identity (variables_path id) ≡ true)
        × (find_config (data_id id) (cfg ∷ cfgs) ≡ some (cfg, tiles))
  unfolding is_request_permitted variables_target find_config repo_candidates
  variables_route_gap id cfg cfgs nonempty h plain named allowed refused = (
    rw (request_target-variables id, is_request_permitted, target_lem id nonempty h plain)
        (ground (arith, allowed)),
    rw (named, find_config, eq_refl (data_id id)),
  )
