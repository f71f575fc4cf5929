-- ===== src/Xpublish/Threads/Opens.antt =====
-- A repo of xpublish-api/src/provider.py is opened once, until it is dropped.
use native.Mathlib.Decide.{ℕ_discrete}
use mathlib.Core.Logic.{if_pos, if_neg}
use teehr_cloud_core.Xpublish.Threads.Exclusion.{Interleaved-Exclusive}
use teehr_cloud_core.Base.{
  ℕ, ◌+◌, ◌≤◌, String, ◌≡◌, ap, inl, inr, Bool, true, false, ◌||◌, Option, none, some, arith,
  Bool-cases, eq_iff, ◌==◌, if◌then◌else◌, ◌⊎◌, Option-cases, ◌∙◌,
}
use teehr_cloud_core.Base.Dict.{lookup, lookup-insert}
use teehr_cloud_core.Xpublish.Threads.{
  Lock, repos, Shared, Point, storing, holds, update, Move, drop_repos, still_closed, opens, Step,
  pick, Interleaved, begin, next,
}

abbrev if_found : {V : Type 0} → Option V → ℕ
if_found none = 0
if_found (some v) = 1

if_found_bound : {V : Type 0} (found : Option V) → if_found found ≤ 1
if_found_bound none = omega arith
if_found_bound (some v) = omega arith

-- A call that has found the repo `name` closed under `_lock`, and opens and stores it next.
abbrev stores : String → Point → Bool
stores name (storing other l) = other == name
stores name p = false

stores-holds : (name : String) (p : Point) → stores name p ≡ true → holds p repos ≡ true
stores-holds name (storing other l) h = ground arith
stores-holds name p h = cc

module _ {Repo Tree : Type 0} (name : String) where
  -- 1 for an open repo, 0 for another.
  abbrev is_open_now : Shared Repo Tree → ℕ
  is_open_now s = if_found (lookup name s.opened)

  -- 1 for the step that opens the repo, 0 for the others.
  abbrev opened_by :
      {id : String} {pc : ℕ → Point} {s s' : Shared Repo Tree} {p p' : Point}
      → Move id pc s p s' p'
      → ℕ
  opened_by (opens {name = opening} repo) = if opening == name then 1 else 0
  opened_by mv = 0

  abbrev is_drop :
      {id : String} {pc : ℕ → Point} {s s' : Shared Repo Tree} {p p' : Point}
      → Move id pc s p s' p'
      → Bool
  is_drop drop_repos = true
  is_drop mv = false

  Move-opens :
      {id : String} {pc : ℕ → Point} {s s' : Shared Repo Tree} {p p' : Point}
      (mv : Move id pc s p s' p')
      → is_drop mv ≡ false
      → (stores name p ≡ true → lookup name s.opened ≡ none)
      → is_open_now s + opened_by mv ≤ is_open_now s'
  Move-opens drop_repos kept closed = cc
  Move-opens {s = s} (opens {name = opening} repo) kept closed =
      elim (Bool-cases (opening == name)) [
        | inl same ↦
            let now = lookup-insert opening name repo s.opened in
            let before : lookup name s.opened ≡ none = closed same in
            rw (same, now, same, before) (omega arith)
        | inr other ↦
            let now = lookup-insert opening name repo s.opened in
            rw (other, now, other) (omega arith)
      ]
  Move-opens mv kept closed = omega arith

  -- A call that is to store the repo has just found it closed.
  Move-stores :
      {id : String} {pc : ℕ → Point} {s s' : Shared Repo Tree} {p p' : Point}
      (mv : Move id pc s p s' p')
      → stores name p' ≡ true
      → lookup name s'.opened ≡ none
  Move-stores (still_closed {name = opening} absent) h = rw ((eq_iff opening name).0 h) at absent
  Move-stores mv h = cc

  -- A step that neither drops repos nor stores this one leaves it closed.
  Move-closed :
      {id : String} {pc : ℕ → Point} {s s' : Shared Repo Tree} {p p' : Point}
      (mv : Move id pc s p s' p')
      → is_drop mv ≡ false
      → stores name p ≡ false
      → lookup name s.opened ≡ none
      → lookup name s'.opened ≡ none
  Move-closed drop_repos kept idle e = cc
  Move-closed {s = s} (opens {name = opening} repo) kept idle e =
      lookup-insert opening name repo s.opened ∙ rw idle e
  Move-closed mv kept idle e = e

  -- What a call that is to store the repo relies on.
  abbrev Closed : (ℕ → Point) → Shared Repo Tree → Type 0
  Closed pc s = (i : ℕ) → stores name (pc i) ≡ true → lookup name s.opened ≡ none

  Move-Closed :
      {id : String} {pc : ℕ → Point} {s s' : Shared Repo Tree} {p' : Point} (i : ℕ)
      (mv : Move id pc s (pc i) s' p')
      → is_drop mv ≡ false
      → ((k : Lock) (i j : ℕ) → holds (pc i) k ≡ true → holds (pc j) k ≡ true → i ≡ j)
      → Closed pc s
      → Closed (update pc i p') s'
  Move-Closed {pc = pc} i mv kept exclusive closed j h = elim (ℕ_discrete i j) [
    | yes same ↦ Move-stores mv (rw (if_pos _ same) at h)
    | no other ↦
        let its : stores name (pc j) ≡ true = rw (if_neg _ other) at h in
        elim (Bool-cases (stores name (pc i))) [
          | inl mine ↦ absurd (
              other (
                exclusive repos i j (stores-holds name (pc i) mine) (stores-holds name (pc j) its)))
          | inr idle ↦ Move-closed mv kept idle (closed j its)
        ]
  ]

  module _ {n : ℕ} {ids : ℕ → String} where
    abbrev step_opens : {pc pc' : ℕ → Point} {s s' : Shared Repo Tree} → Step n ids pc s pc' s' → ℕ
    step_opens (pick i below mv) = opened_by mv

    abbrev step_drops :
        {pc pc' : ℕ → Point} {s s' : Shared Repo Tree} → Step n ids pc s pc' s' → Bool
    step_drops (pick i below mv) = is_drop mv

    -- How often the repo has been opened.
    unfoldable pub times_opened :
        {start s : Shared Repo Tree} {steps : ℕ} {pc : ℕ → Point}
        → Interleaved n ids start steps pc s
        → ℕ
    times_opened begin = 0
    times_opened (next run step) = times_opened run + step_opens step

    -- A step has dropped repos.
    unfoldable pub run_drops :
        {start s : Shared Repo Tree} {steps : ℕ} {pc : ℕ → Point}
        → Interleaved n ids start steps pc s
        → Bool
    run_drops begin = false
    run_drops (next run step) = step_drops step || run_drops run

    Step-opens :
        {pc pc' : ℕ → Point} {s s' : Shared Repo Tree} (step : Step n ids pc s pc' s')
        → step_drops step ≡ false
        → Closed pc s
        → is_open_now s + step_opens step ≤ is_open_now s'
    Step-opens (pick i below mv) kept closed = Move-opens mv kept (closed i)

    Step-Closed :
        {pc pc' : ℕ → Point} {s s' : Shared Repo Tree} (step : Step n ids pc s pc' s')
        → step_drops step ≡ false
        → ((k : Lock) (i j : ℕ) → holds (pc i) k ≡ true → holds (pc j) k ≡ true → i ≡ j)
        → Closed pc s
        → Closed pc' s'
    Step-Closed (pick i below mv) kept exclusive closed = Move-Closed i mv kept exclusive closed

    -- By `_lock`, of which no two calls hold it at once.
    Interleaved-Closed :
        {start s : Shared Repo Tree} {steps : ℕ} {pc : ℕ → Point}
        (run : Interleaved n ids start steps pc s)
        → run_drops run ≡ false
        → Closed pc s
    unfolding run_drops
    Interleaved-Closed begin kept i h = cc
    Interleaved-Closed (next run step) kept i h =
        let earlier : run_drops run ≡ false = ground (arith, kept) in
        Step-Closed step (ground (arith, kept)) (Interleaved-Exclusive run)
          (Interleaved-Closed run earlier) i h

    Interleaved-opens :
        {start s : Shared Repo Tree} {steps : ℕ} {pc : ℕ → Point}
        (run : Interleaved n ids start steps pc s)
        → run_drops run ≡ false
        → is_open_now start + times_opened run ≤ is_open_now s
    unfolding times_opened run_drops
    Interleaved-opens begin kept = omega arith
    Interleaved-opens (next run step) kept =
        let earlier : run_drops run ≡ false = ground (arith, kept) in
        let before = Interleaved-opens run earlier in
        let now = Step-opens step (ground (arith, kept)) (Interleaved-Closed run earlier) in
        omega arith

    -- In every interleaving of calls in which no repo is dropped, a repo is opened and stored once at most,
    -- and not at all if it was open at the start, although a call tests in one step and opens and stores
    -- in a later one.
    pub opens_once :
        {start s : Shared Repo Tree} {steps : ℕ} {pc : ℕ → Point}
        (run : Interleaved n ids start steps pc s)
        → run_drops run ≡ false
        → (times_opened run ≤ 1) × ((lookup name start.opened ≡ none) ⊎ (times_opened run ≡ 0))
    opens_once {start} {s} run kept =
        let all = Interleaved-opens run kept in
        let bound = if_found_bound (lookup name s.opened) in
        (
          omega arith,
          elim (Option-cases (lookup name start.opened)) [
            | inl closed ↦ inl closed
            | inr (repo, had) ↦ inr (let was = ap if_found had in omega arith)
          ],
        )
