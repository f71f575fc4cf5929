-- ===== src/Xpublish/Threads/Loads.antt =====
-- A dataset of xpublish-api/src/provider.py is loaded by one call at a time, until it is evicted.
use native.Mathlib.Decide.{ℕ_discrete}
use mathlib.Core.Logic.{if_pos, if_neg}
use mathlib.Core.Option.{some-injective}
use teehr_cloud_core.Base.{
  ℕ, String, ◌≡◌, refl, sym, ap, ◌∙◌, inl, inr, Bool, true, false, ◌||◌, Option, none, some, arith,
  eqb_refl, eq_iff, Bool-cases, ◌==◌,
}
use teehr_cloud_core.Base.Dict.{lookup, lookup-insert}
use teehr_cloud_core.Xpublish.Threads.{
  dataset, Shared, Point, ask_dataset, check, open_repo, ask_open, opening, storing, fetch, load,
  holds, Move, drop_datasets, new_lock, old_lock, update, Step, pick, Interleaved, begin, next,
}
use teehr_cloud_core.Xpublish.Threads.Exclusion.{Interleaved-Exclusive}

-- The lock that a call has been given for its dataset.
abbrev pub lock_of : Point → Option ℕ
lock_of (ask_dataset name l) = some l
lock_of (check name l) = some l
lock_of (open_repo name l) = some l
lock_of (ask_open name l) = some l
lock_of (opening name l) = some l
lock_of (storing name l) = some l
lock_of (fetch name l) = some l
lock_of (load name l) = some l
lock_of p = none

-- A call that holds its dataset's lock.
abbrev pub is_loading : Point → Bool
is_loading (check name l) = true
is_loading (open_repo name l) = true
is_loading (ask_open name l) = true
is_loading (opening name l) = true
is_loading (storing name l) = true
is_loading (fetch name l) = true
is_loading (load name l) = true
is_loading p = false

own_lock :
    (p : Point)
    → is_loading p ≡ true
    → (l : ℕ) × (lock_of p ≡ some l) × (holds p (dataset l) ≡ true)
own_lock (check name l) h = (l, refl, eqb_refl l)
own_lock (open_repo name l) h = (l, refl, eqb_refl l)
own_lock (ask_open name l) h = (l, refl, eqb_refl l)
own_lock (opening name l) h = (l, refl, ground (arith, eqb_refl l))
own_lock (storing name l) h = (l, refl, ground (arith, eqb_refl l))
own_lock (fetch name l) h = (l, refl, eqb_refl l)
own_lock (load name l) h = (l, refl, eqb_refl l)
own_lock p h = cc

module _ {Repo Tree : Type 0} where
  abbrev pub is_eviction :
      {id : String} {pc : ℕ → Point} {s s' : Shared Repo Tree} {p p' : Point}
      → Move id pc s p s' p'
      → Bool
  is_eviction drop_datasets = true
  is_eviction mv = false

  -- A step of a call for `id` that evicts nothing keeps the locks that are registered.
  Move-keeps :
      {id : String} {pc : ℕ → Point} {s s' : Shared Repo Tree} {p p' : Point}
      (mv : Move id pc s p s' p') (other : String) (l : ℕ)
      → is_eviction mv ≡ false
      → lookup other s.dataset_locks ≡ some l
      → lookup other s'.dataset_locks ≡ some l
  Move-keeps drop_datasets other l quiet h = cc
  Move-keeps {id} {s = s} (new_lock absent) other l quiet h = elim (Bool-cases (id == other)) [
    | inl same ↦ cc (rw ((eq_iff id other).0 same) at absent)
    | inr differs ↦ lookup-insert id other s.next_lock s.dataset_locks ∙ rw differs h
  ]
  Move-keeps mv other l quiet h = h

  -- The lock that it is given is the registered one.
  Move-registers :
      {id : String} {pc : ℕ → Point} {s s' : Shared Repo Tree} {p p' : Point}
      (mv : Move id pc s p s' p') (l : ℕ)
      → is_eviction mv ≡ false
      → lock_of p' ≡ some l
      → (lock_of p ≡ some l → lookup id s.dataset_locks ≡ some l)
      → lookup id s'.dataset_locks ≡ some l
  Move-registers (old_lock found) l quiet e before = found ∙ e
  Move-registers {id} {s = s} (new_lock absent) l quiet e before =
      lookup-insert id id s.next_lock s.dataset_locks ∙ rw ((eq_iff id id).1 refl) e
  Move-registers drop_datasets l quiet e before = cc
  Move-registers mv l quiet e before = ground (arith, before)

  -- Every lock that a call has been given is registered for its dataset.
  abbrev Registered : (ℕ → String) → (ℕ → Point) → Shared Repo Tree → Type 0
  Registered ids pc s =
      (i l : ℕ) → lock_of (pc i) ≡ some l → lookup (ids i) s.dataset_locks ≡ some l

  Move-Registered :
      (ids : ℕ → String) {pc : ℕ → Point} {s s' : Shared Repo Tree} {p' : Point} (i : ℕ)
      (mv : Move (ids i) pc s (pc i) s' p')
      → is_eviction mv ≡ false
      → Registered ids pc s
      → Registered ids (update pc i p') s'
  Move-Registered ids {s' = s'} i mv quiet given j l e = elim (ℕ_discrete i j) [
    | yes same ↦
        ap (λ k. lookup (ids k) s'.dataset_locks) (sym same)
        ∙ Move-registers mv l quiet (rw (if_pos _ same) at e) (given i l)
    | no other ↦ Move-keeps mv (ids j) l quiet (given j l (rw (if_neg _ other) at e))
  ]

  module _ {n : ℕ} {ids : ℕ → String} where
    -- A step that evicts a dataset.
    abbrev pub step_evicts :
        {pc pc' : ℕ → Point} {s s' : Shared Repo Tree} → Step n ids pc s pc' s' → Bool
    step_evicts (pick i below mv) = is_eviction mv

    unfoldable pub run_evicts :
        {start s : Shared Repo Tree} {steps : ℕ} {pc : ℕ → Point}
        → Interleaved n ids start steps pc s
        → Bool
    run_evicts begin = false
    run_evicts (next run step) = step_evicts step || run_evicts run

    Step-Registered :
        {pc pc' : ℕ → Point} {s s' : Shared Repo Tree} (step : Step n ids pc s pc' s')
        → step_evicts step ≡ false
        → Registered ids pc s
        → Registered ids pc' s'
    Step-Registered (pick i below mv) quiet given = Move-Registered ids i mv quiet given

    Interleaved-Registered :
        {start s : Shared Repo Tree} {steps : ℕ} {pc : ℕ → Point}
        (run : Interleaved n ids start steps pc s)
        → run_evicts run ≡ false
        → Registered ids pc s
    unfolding run_evicts
    Interleaved-Registered begin quiet i l e = cc
    Interleaved-Registered (next run step) quiet i l e =
        Step-Registered step (ground (arith, quiet))
          (Interleaved-Registered run (ground (arith, quiet))) i l e

    -- In every interleaving of calls in which nothing is evicted, two calls for the same dataset are not
    -- both between their second test of its cache and the end of its load.
    pub loads_once :
        {start s : Shared Repo Tree} {steps : ℕ} {pc : ℕ → Point}
        (run : Interleaved n ids start steps pc s)
        → run_evicts run ≡ false
        → (i j : ℕ) → ids i ≡ ids j
        → is_loading (pc i) ≡ true
        → is_loading (pc j) ≡ true
        → i ≡ j
    loads_once {s = s} {pc = pc} run quiet i j same at_i at_j =
        let given = Interleaved-Registered run quiet in
        let (l, mine, held) = own_lock (pc i) at_i in
        let (k, its, held_by_it) = own_lock (pc j) at_j in
        let one : l ≡ k =
          some-injective _ _
            (sym (given i l mine) ∙ ap (λ id. lookup id s.dataset_locks) same ∙ given j k its) in
        Interleaved-Exclusive run (dataset l) i j held (rw one held_by_it)
