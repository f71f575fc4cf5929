-- ===== src/Xpublish/Threads/Tests.antt =====
-- Interleavings of calls of xpublish-api/src/provider.py at concrete inputs.
use native.Mathlib.Decide.{ℕ_discrete, dec_lt}
use teehr_cloud_core.Base.{
  none, ◌⊎◌, ℕ, zero, suc, ◌≤◌, ◌<◌, String, ◌≡◌, ◌≢◌, refl, Bool, true, false, ◌&&◌, not, some, [],
  ◌∷◌, arith,
}
use teehr_cloud_core.Base.Dict.{lookup, insert, erase}
use teehr_cloud_core.Xpublish.Provider.{RepoConfig, tiles, find_config, pop_names, pop_dataset_ids}
use teehr_cloud_core.Xpublish.Threads.{
  Lock, discovery, repos, cache, dataset, Shared, Point, refresh, holds, Free, Move, listing_fresh,
  listing_stale, enter_discovery, some_removed, enter_repos, drop_repos, enter_cache, drop_datasets,
  found, miss, enter_lock, new_lock, enter_dataset, miss_again, not_open, enter_open, still_closed,
  opens, fetched, loads, update, pick, Interleaved, begin, next,
}
use teehr_cloud_core.Xpublish.Threads.Loads.{is_loading, run_evicts, loads_once}
use teehr_cloud_core.Xpublish.Threads.Progress.{Interleaved-beyond, Steps, deadlock_free}
use teehr_cloud_core.Xpublish.Threads.Opens.{times_opened, run_drops, opens_once}

abbrev all_free : ℕ → (ℕ → Point) → Lock → Bool
all_free zero pc k = true
all_free (suc n) pc k = not (holds (pc n) k) && all_free n pc k

free_below :
    (n j : ℕ) (pc : ℕ → Point) (k : Lock) → all_free n pc k ≡ true → j < n → holds (pc j) k ≡ false
free_below zero j pc k h below = absurd (omega arith)
free_below (suc n) j pc k h below = elim (dec_lt j n) [
  | yes lower ↦ free_below n j pc k (ground (arith, h)) lower
  | no last ↦ let same : n ≡ j = omega arith in rw (← same) (ground (arith, h))
]

abbrev config : RepoConfig
config = record { name = "a"; bucket = "warehouse"; prefix = "icechunk/a" }

abbrev start : Shared ℕ ℕ
start = record {
  repo_configs = config ∷ [];
  opened = [];
  cached = [];
  dataset_locks = [];
  next_lock = 0;
}

abbrev ids : ℕ → String
ids i = "a"

a_name : config.name ∷ [] ≢ []
a_name = cc

-- Where three calls for one dataset stand.
record At : Type 0 where
  steps : ℕ
  pc : ℕ → Point
  s : Shared ℕ ℕ
  run : Interleaved 3 ids start steps pc s

free : (a : At) (k : Lock) → all_free 3 a.pc k ≡ true → Free a.pc k
free a k h j = elim (dec_lt j 3) [
  | yes below ↦ free_below 3 j a.pc k h below
  | no beyond ↦ let e = Interleaved-beyond {j = j} a.run (omega arith) in rw e refl
]

abbrev then :
    (a : At) (i : ℕ) {p : Point} {s' : Shared ℕ ℕ}
    → i < 3
    → Move (ids i) a.pc a.s (a.pc i) s' p
    → At
then a i {p} {s'} h mv = record {
  steps = suc a.steps;
  pc = update a.pc i p;
  s = s';
  run = next a.run (pick i (h) mv);
}

abbrev at_start : At
at_start = record { steps = 0; pc = λ i. refresh; s = start; run = begin }

-- Call 0 holds its dataset's lock, and call 2 has found the dataset.
abbrev in_flight : At
unfolding find_config lookup insert pop_names pop_dataset_ids erase ℕ_discrete
in_flight =
    let a = then at_start 0 (omega arith) listing_fresh in
    let a = then a 0 (omega arith) (found {cfg = config} {kind = tiles} refl) in
    let a = then a 0 (omega arith) miss in
    let a = then a 0 (omega arith) (enter_lock (free a cache refl)) in
    let a = then a 0 (omega arith) (new_lock refl) in
    let a = then a 0 (omega arith) (enter_dataset (free a (dataset 0) refl)) in
    let a = then a 0 (omega arith) miss_again in
    let a = then a 2 (omega arith) listing_fresh in
    let a = then a 2 (omega arith) (found {cfg = config} {kind = tiles} refl) in a

-- Call 1 does not find the repo any more, and evicts it.
abbrev after_eviction : At
unfolding find_config lookup insert pop_names pop_dataset_ids erase ℕ_discrete
after_eviction =
    let a = then in_flight 1 (omega arith) listing_stale in
    let a = then a 1 (omega arith) (enter_discovery (free a discovery refl)) in
    let a = then a 1 (omega arith) (some_removed [] refl a_name) in
    let a = then a 1 (omega arith) (enter_repos (free a repos refl)) in
    let a = then a 1 (omega arith) drop_repos in
    let a = then a 1 (omega arith) (enter_cache (free a cache refl)) in
    let a = then a 1 (omega arith) drop_datasets in a

-- Call 2 is given a new lock, which is free.
abbrev both_loading : At
unfolding find_config lookup insert pop_names pop_dataset_ids erase ℕ_discrete
both_loading =
    let a = then after_eviction 2 (omega arith) miss in
    let a = then a 2 (omega arith) (enter_lock (free a cache refl)) in
    let a = then a 2 (omega arith) (new_lock refl) in
    let a = then a 2 (omega arith) (enter_dataset (free a (dataset 1) refl)) in a

-- Call 0 opens the repo again and stores its dataset.
abbrev after_load : At
unfolding find_config lookup insert pop_names pop_dataset_ids erase ℕ_discrete
after_load =
    let a = then after_eviction 0 (omega arith) (not_open {name = "a"} {l = 0} refl) in
    let a = then a 0 (omega arith) (enter_open (free a repos refl)) in
    let a = then a 0 (omega arith) (still_closed {name = "a"} {l = 0} refl) in
    let a = then a 0 (omega arith) (opens {name = "a"} {l = 0} 7) in
    let a = then a 0 (omega arith) (fetched {name = "a"} {l = 0} refl) in
    let a = then a 0 (omega arith) (loads {name = "a"} {l = 0} 9) in a

-- Call 0 waits for a lock that call 1 holds.
abbrev waiting : At
unfolding find_config lookup insert pop_names pop_dataset_ids erase ℕ_discrete
waiting =
    let a = then at_start 1 (omega arith) listing_stale in
    let a = then a 1 (omega arith) (enter_discovery (free a discovery refl)) in
    let a = then a 0 (omega arith) listing_stale in a

-- Call 0 opens the repo.
abbrev opened_by_one : At
unfolding find_config lookup insert pop_names pop_dataset_ids erase ℕ_discrete
opened_by_one =
    let a = then in_flight 0 (omega arith) (not_open {name = "a"} {l = 0} refl) in
    let a = then a 0 (omega arith) (enter_open (free a repos refl)) in
    let a = then a 0 (omega arith) (still_closed {name = "a"} {l = 0} refl) in
    let a = then a 0 (omega arith) (opens {name = "a"} {l = 0} 7) in a

-- After an eviction, two calls load the same dataset at once.
both_load : (is_loading (both_loading.pc 0) ≡ true) × (is_loading (both_loading.pc 2) ≡ true)
unfolding find_config lookup insert pop_names pop_dataset_ids erase ℕ_discrete
both_load = (refl, refl)

-- A load that an eviction has overtaken leaves a dataset whose repo is not listed, and its repo.
left_over :
    (after_load.s.repo_configs ≡ [])
    × (lookup "a" after_load.s.cached ≡ some 9)
    × (lookup "a" after_load.s.opened ≡ some 7)
unfolding find_config lookup insert pop_names pop_dataset_ids erase ℕ_discrete
left_over = (refl, refl, refl)

loads_once_example : ◌≡◌ {A = ℕ} 0 0
unfolding run_evicts find_config lookup insert pop_names pop_dataset_ids erase ℕ_discrete
loads_once_example = loads_once in_flight.run refl 0 0 refl refl refl

deadlock_free_example : Steps 3 ids waiting.pc waiting.s
unfolding find_config lookup insert pop_names pop_dataset_ids erase ℕ_discrete
deadlock_free_example = deadlock_free waiting.run 0 (omega arith) cc

opens_once_example :
    (times_opened "a" opened_by_one.run ≤ 1)
    × ((lookup "a" start.opened ≡ none) ⊎ (times_opened "a" opened_by_one.run ≡ 0))
unfolding times_opened run_drops find_config lookup insert pop_names pop_dataset_ids erase
    ℕ_discrete
opens_once_example = opens_once "a" opened_by_one.run refl

one_opening : times_opened "a" opened_by_one.run ≡ 1
unfolding times_opened find_config lookup insert pop_names pop_dataset_ids erase ℕ_discrete
one_opening = refl
