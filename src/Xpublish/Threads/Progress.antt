-- ===== src/Xpublish/Threads/Progress.antt =====
-- The locks of xpublish-api/src/provider.py never block all of its calls.
use native.Mathlib.Decide.{ℕ_discrete, dec_lt}
use mathlib.Core.Logic.{if_neg}
use mathlib.Core.Option.{some-injective}
use teehr_cloud_core.Base.{
  ℕ, zero, suc, ◌≤◌, ◌<◌, String, ◌≡◌, ◌≢◌, refl, ◌∙◌, ◌⊎◌, inl, inr, Bool, true, false, Option,
  none, some, arith, Bool-cases, Option-cases,
}
use teehr_cloud_core.Base.Dict.{lookup}
use teehr_cloud_core.Xpublish.Provider.{find_config}
use teehr_cloud_core.Xpublish.Threads.{
  Lock, discovery, repos, cache, dataset, Shared, Point, refresh, ask_discovery, discovering,
  ask_repos, dropping, ask_cache, evicting, resolve, peek, ask_lock, locking, ask_dataset, check,
  open_repo, ask_open, opening, storing, fetch, load, finished, holds, Free, Move, listing_fresh,
  enter_discovery, listing_failed, enter_repos, drop_repos, enter_cache, drop_datasets, unknown,
  found, miss, enter_lock, old_lock, new_lock, enter_dataset, miss_again, is_open, not_open,
  enter_open, opened_meanwhile, still_closed, open_failed, fetched, evicted, not_loaded, update,
  Step, pick, Interleaved, begin, next,
}

-- The lock that a call waits for.
abbrev wants : Point → Option Lock
wants ask_discovery = some discovery
wants (ask_repos removed) = some repos
wants (ask_cache removed) = some cache
wants (ask_lock name) = some cache
wants (ask_dataset name l) = some (dataset l)
wants (ask_open name l) = some repos
wants p = none

-- The locks under which no other is taken.
abbrev is_inner : Lock → Bool
is_inner discovery = false
is_inner repos = true
is_inner cache = true
is_inner (dataset l) = false

wants_inner : (p : Point) (k m : Lock) → holds p k ≡ true → wants p ≡ some m → is_inner m ≡ true
wants_inner (ask_repos removed) k m h e = ground arith
wants_inner (ask_cache removed) k m h e = ground arith
wants_inner (ask_open name l) k m h e = ground arith
wants_inner p k m h e = cc

inner_wants-none : (p : Point) (k : Lock) → holds p k ≡ true → is_inner k ≡ true → wants p ≡ none
inner_wants-none ask_discovery k h e = cc
inner_wants-none (ask_repos removed) k h e = ground arith
inner_wants-none (ask_cache removed) k h e = ground arith
inner_wants-none (ask_lock name) k h e = cc
inner_wants-none (ask_dataset name l) k h e = cc
inner_wants-none (ask_open name l) k h e = ground arith
inner_wants-none p k h e = refl

holder_unfinished : (p : Point) (k : Lock) → holds p k ≡ true → p ≢ finished
holder_unfinished p k h e = cc (rw e at h)

-- A thread that holds the lock, or that none does.
find_holder :
    (n : ℕ) (pc : ℕ → Point) (k : Lock)
    → ((j : ℕ) × (j < n) × (holds (pc j) k ≡ true)) ⊎ ((j : ℕ) → j < n → holds (pc j) k ≡ false)
find_holder zero pc k = inr (λ j h. absurd (omega arith))
find_holder (suc n) pc k = elim (Bool-cases (holds (pc n) k)) [
  | inl held ↦ inl (n, omega arith, held)
  | inr free ↦ elim (find_holder n pc k) [
    | inl (j, below, held) ↦ inl (j, omega arith, held)
    | inr others ↦ inr (λ j h. elim (dec_lt j n) [
      | yes below ↦ others j below
      | no last ↦ let same : n ≡ j = omega arith in rw (← same) free
    ])
  ]
]

module _ {Repo Tree : Type 0} where
  -- A step that a call can take.
  abbrev Moves : String → (ℕ → Point) → Shared Repo Tree → Point → Type 0
  Moves id pc s p = (s' : Shared Repo Tree) × (p' : Point) × Move id pc s p s' p'

  module _ (id : String) (pc : ℕ → Point) (s : Shared Repo Tree) where
    Free-Moves : (p : Point) (k : Lock) → wants p ≡ some k → Free pc k → Moves id pc s p
    Free-Moves ask_discovery k e free =
        (s, discovering, enter_discovery (rw (some-injective _ _ e) free))
    Free-Moves (ask_repos removed) k e free =
        (s, dropping removed, enter_repos (rw (some-injective _ _ e) free))
    Free-Moves (ask_cache removed) k e free =
        (s, evicting removed, enter_cache (rw (some-injective _ _ e) free))
    Free-Moves (ask_lock name) k e free =
        (s, locking name, enter_lock (rw (some-injective _ _ e) free))
    Free-Moves (ask_dataset name l) k e free =
        (s, check name l, enter_dataset (rw (some-injective _ _ e) free))
    Free-Moves (ask_open name l) k e free =
        (s, opening name l, enter_open (rw (some-injective _ _ e) free))
    Free-Moves p k e free = cc

    inert-Moves : (p : Point) → wants p ≡ none → p ≢ finished → Moves id pc s p
    inert-Moves refresh e h = (_, _, listing_fresh)
    inert-Moves ask_discovery e h = cc
    inert-Moves discovering e h = (_, _, listing_failed)
    inert-Moves (ask_repos removed) e h = cc
    inert-Moves (dropping removed) e h = (_, _, drop_repos)
    inert-Moves (ask_cache removed) e h = cc
    inert-Moves (evicting removed) e h = (_, _, drop_datasets)
    inert-Moves resolve e h = elim (Option-cases (find_config id s.repo_configs)) [
      | inl absent ↦ (_, _, unknown absent)
      | inr ((cfg, kind), present) ↦ (_, _, found present)
    ]
    inert-Moves (peek name) e h = (_, _, miss)
    inert-Moves (ask_lock name) e h = cc
    inert-Moves (locking name) e h = elim (Option-cases (lookup id s.dataset_locks)) [
      | inl absent ↦ (_, _, new_lock absent)
      | inr (l, present) ↦ (_, _, old_lock present)
    ]
    inert-Moves (ask_dataset name l) e h = cc
    inert-Moves (check name l) e h = (_, _, miss_again)
    inert-Moves (open_repo name l) e h = elim (Option-cases (lookup name s.opened)) [
      | inl absent ↦ (_, _, not_open absent)
      | inr (repo, present) ↦ (_, _, is_open present)
    ]
    inert-Moves (ask_open name l) e h = cc
    inert-Moves (opening name l) e h = elim (Option-cases (lookup name s.opened)) [
      | inl absent ↦ (_, _, still_closed absent)
      | inr (repo, present) ↦ (_, _, opened_meanwhile present)
    ]
    inert-Moves (storing name l) e h = (_, _, open_failed)
    inert-Moves (fetch name l) e h = elim (Option-cases (lookup name s.opened)) [
      | inl absent ↦ (_, _, evicted absent)
      | inr (repo, present) ↦ (_, _, fetched present)
    ]
    inert-Moves (load name l) e h = (_, _, not_loaded)
    inert-Moves finished e h = absurd (h refl)

  -- A step of one of the calls.
  abbrev pub Steps : ℕ → (ℕ → String) → (ℕ → Point) → Shared Repo Tree → Type 0
  Steps n ids pc s = (pc' : ℕ → Point) × (s' : Shared Repo Tree) × Step n ids pc s pc' s'

  module _ {n : ℕ} {ids : ℕ → String} where
    -- A thread beyond the calls has not begun.
    Step-beyond :
        {pc pc' : ℕ → Point} {s s' : Shared Repo Tree} {j : ℕ}
        → Step n ids pc s pc' s'
        → n ≤ j
        → pc j ≡ refresh
        → pc' j ≡ refresh
    Step-beyond {pc = pc} {j = j} (pick i {p = p} below mv) h e =
        let differs : i ≢ j = λ same. absurd (omega arith) in
        if_neg (ℕ_discrete i j) differs p (pc j) ∙ e

    pub Interleaved-beyond :
        {start s : Shared Repo Tree} {steps j : ℕ} {pc : ℕ → Point}
        → Interleaved n ids start steps pc s
        → n ≤ j
        → pc j ≡ refresh
    Interleaved-beyond begin h = refl
    Interleaved-beyond (next run step) h = Step-beyond step h (Interleaved-beyond run h)

    holder_or_Free :
        {start s : Shared Repo Tree} {steps : ℕ} {pc : ℕ → Point}
        → Interleaved n ids start steps pc s
        → (k : Lock) → ((j : ℕ) × (j < n) × (holds (pc j) k ≡ true)) ⊎ Free pc k
    holder_or_Free {pc = pc} run k = elim (find_holder n pc k) [
      | inl holder ↦ inl holder
      | inr others ↦ inr (λ j. elim (dec_lt j n) [
        | yes below ↦ others j below
        | no beyond ↦ let e = Interleaved-beyond {j = j} run (omega arith) in rw e refl
      ])
    ]

    step_of :
        {pc : ℕ → Point} {s : Shared Repo Tree} (i : ℕ)
        → i < n
        → Moves (ids i) pc s (pc i)
        → Steps n ids pc s
    step_of {pc} i below (s', p', mv) = (update pc i p', s', pick i below mv)

    -- A call that holds an inner lock moves.
    inner-Steps :
        {pc : ℕ → Point} {s : Shared Repo Tree} (k : Lock) (j : ℕ)
        → j < n
        → holds (pc j) k ≡ true
        → is_inner k ≡ true
        → Steps n ids pc s
    inner-Steps {pc} {s} k j below held inner = step_of j below (
        inert-Moves (ids j) pc s (pc j) (inner_wants-none (pc j) k held inner)
          (holder_unfinished (pc j) k held))

    -- A call that holds a lock moves, or another does that holds the inner lock it waits for.
    holder-Steps :
        {start s : Shared Repo Tree} {steps : ℕ} {pc : ℕ → Point} (k : Lock)
        → Interleaved n ids start steps pc s
        → (j : ℕ) → j < n
        → holds (pc j) k ≡ true
        → Steps n ids pc s
    holder-Steps {s = s} {pc = pc} k run j below held = elim (Option-cases (wants (pc j))) [
      | inl nothing ↦
          step_of j below
            (inert-Moves (ids j) pc s (pc j) nothing (holder_unfinished (pc j) k held))
      | inr (m, wanted) ↦ elim (holder_or_Free run m) [
        | inl (h, h_below, its) ↦ inner-Steps m h h_below its (wants_inner (pc j) k m held wanted)
        | inr free ↦ step_of j below (Free-Moves (ids j) pc s (pc j) m wanted free)
      ]
    ]

    -- In every interleaving of calls, while one of them is not finished, some call can take a step: the locks
    -- block no set of calls for good.
    pub deadlock_free :
        {start s : Shared Repo Tree} {steps : ℕ} {pc : ℕ → Point}
        → Interleaved n ids start steps pc s
        → (i : ℕ) → i < n
        → pc i ≢ finished
        → Steps n ids pc s
    deadlock_free {s = s} {pc = pc} run i below unfinished = elim (Option-cases (wants (pc i))) [
      | inl nothing ↦ step_of i below (inert-Moves (ids i) pc s (pc i) nothing unfinished)
      | inr (k, wanted) ↦ elim (holder_or_Free run k) [
        | inl (j, j_below, held) ↦ holder-Steps k run j j_below held
        | inr free ↦ step_of i below (Free-Moves (ids i) pc s (pc i) k wanted free)
      ]
    ]
