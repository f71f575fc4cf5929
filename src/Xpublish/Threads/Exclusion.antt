-- ===== src/Xpublish/Threads/Exclusion.antt =====
-- No two calls of xpublish-api/src/provider.py hold one of its locks at once.
use native.Mathlib.Decide.{ℕ_discrete}
use mathlib.Core.Logic.{if_pos, if_neg}
use teehr_cloud_core.Base.{ℕ, String, ◌≡◌, refl, sym, ◌∙◌, ◌⊎◌, inl, inr, true, arith, eqb_iff}
use teehr_cloud_core.Xpublish.Threads.{
  Lock, discovery, repos, cache, dataset, Shared, Point, holds, Free, Move, enter_discovery,
  enter_repos, enter_cache, enter_lock, enter_dataset, enter_open, update, Step, pick, Interleaved,
  begin, next,
}

-- Two calls that hold one lock are the same.
abbrev Exclusive : (ℕ → Point) → Type 0
Exclusive pc = (k : Lock) (i j : ℕ) → holds (pc i) k ≡ true → holds (pc j) k ≡ true → i ≡ j

module _ {Repo Tree : Type 0} where
  -- A step takes a lock only if no call holds it.
  Move-holds :
      {id : String} {pc : ℕ → Point} {s s' : Shared Repo Tree} {p p' : Point}
      → Move id pc s p s' p'
      → (k : Lock) → holds p' k ≡ true
      → (holds p k ≡ true) ⊎ Free pc k
  Move-holds (enter_discovery free) discovery h = inr free
  Move-holds (enter_discovery free) repos h = cc
  Move-holds (enter_discovery free) cache h = cc
  Move-holds (enter_discovery free) (dataset l) h = cc
  Move-holds (enter_repos free) discovery h = inl refl
  Move-holds (enter_repos free) repos h = inr free
  Move-holds (enter_repos free) cache h = cc
  Move-holds (enter_repos free) (dataset l) h = cc
  Move-holds (enter_cache free) discovery h = inl refl
  Move-holds (enter_cache free) repos h = cc
  Move-holds (enter_cache free) cache h = inr free
  Move-holds (enter_cache free) (dataset l) h = cc
  Move-holds (enter_lock free) discovery h = cc
  Move-holds (enter_lock free) repos h = cc
  Move-holds (enter_lock free) cache h = inr free
  Move-holds (enter_lock free) (dataset l) h = cc
  Move-holds (enter_dataset free) discovery h = cc
  Move-holds (enter_dataset free) repos h = cc
  Move-holds (enter_dataset free) cache h = cc
  Move-holds (enter_dataset {l} free) (dataset k) h = inr (rw (← (eqb_iff l k).0 h) free)
  Move-holds (enter_open free) discovery h = cc
  Move-holds (enter_open free) repos h = inr free
  Move-holds (enter_open free) cache h = cc
  Move-holds (enter_open free) (dataset l) h = ground arith
  Move-holds mv k h = inl (ground arith)

  -- The mover and another call.
  mover_alone :
      {id : String} {pc : ℕ → Point} {s s' : Shared Repo Tree} {p' : Point} (i j : ℕ) (k : Lock)
      → Exclusive pc
      → Move id pc s (pc i) s' p'
      → holds p' k ≡ true
      → holds (pc j) k ≡ true
      → i ≡ j
  mover_alone i j k ex mv mine other = elim (Move-holds mv k mine) [
    | inl held ↦ ex k i j held other
    | inr free ↦ cc (free j)
  ]

  Move-Exclusive :
      {id : String} {pc : ℕ → Point} {s s' : Shared Repo Tree} {p' : Point} (i : ℕ)
      → Exclusive pc
      → Move id pc s (pc i) s' p'
      → Exclusive (update pc i p')
  Move-Exclusive i ex mv k a b ha hb = elim (ℕ_discrete i a) [
    | yes ia ↦ elim (ℕ_discrete i b) [
      | yes ib ↦ sym ia ∙ ib
      | no nb ↦ sym ia ∙ mover_alone i b k ex mv (rw (if_pos _ ia) at ha) (rw (if_neg _ nb) at hb)
    ]
    | no na ↦ elim (ℕ_discrete i b) [
      | yes ib ↦
          sym (mover_alone i a k ex mv (rw (if_pos _ ib) at hb) (rw (if_neg _ na) at ha)) ∙ ib
      | no nb ↦ ex k a b (rw (if_neg _ na) at ha) (rw (if_neg _ nb) at hb)
    ]
  ]

  module _ {n : ℕ} {ids : ℕ → String} where
    Step-Exclusive :
        {pc pc' : ℕ → Point} {s s' : Shared Repo Tree}
        → Step n ids pc s pc' s'
        → Exclusive pc
        → Exclusive pc'
    Step-Exclusive (pick i below mv) ex = Move-Exclusive i ex mv

    -- In every interleaving of calls, from any shared state, no two of them hold the same lock.
    pub Interleaved-Exclusive :
        {start s : Shared Repo Tree} {steps : ℕ} {pc : ℕ → Point}
        → Interleaved n ids start steps pc s
        → (k : Lock) (i j : ℕ) → holds (pc i) k ≡ true
        → holds (pc j) k ≡ true
        → i ≡ j
    Interleaved-Exclusive begin k i j hi hj = cc
    Interleaved-Exclusive (next run step) k i j hi hj =
        Step-Exclusive step (Interleaved-Exclusive run) k i j hi hj
