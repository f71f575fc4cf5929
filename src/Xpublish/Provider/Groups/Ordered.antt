-- ===== src/Xpublish/Provider/Groups/Ordered.antt =====
-- The order of the times and of the overview levels that xpublish-api/src/provider.py serves.
use mathlib.Core.List.Perm
use mathlib.Core.List.{Perm}
use teehr_cloud_core.Base.{
  ℕ, ◌≡◌, refl, inl, inr, true, List, [], ◌∷◌, map, leb, Bool-cases, contains, arith,
}
use teehr_cloud_core.Xpublish.Provider.Groups.{
  place_by, sorted_by, is_monotonic_increasing, XDataset, with_scalar_coords, sorted_by_time,
  with_cycle_axis, open_group,
}

module _ {ℓ} {A : Type ℓ} (key : A → ℕ) where
  abbrev key_list : List A → List ℕ
  key_list xs = map key xs

  place_by-Perm : (x : A) (ys : List A) → Perm (x ∷ ys) (place_by key x ys)
  unfolding place_by
  place_by-Perm x [] = Perm.rfl
  place_by-Perm x (y ∷ ys) = elim (Bool-cases (leb (key x) (key y))) [
    | inl before ↦ rw (place_by, before) Perm.rfl
    | inr after ↦
        rw (place_by, after) (Perm.trans (Perm.swap y x ys) (Perm.cons y (place_by-Perm x ys)))
  ]

  pub sorted_by-Perm : (xs : List A) → Perm xs (sorted_by key xs)
  unfolding sorted_by
  sorted_by-Perm [] = Perm.rfl
  sorted_by-Perm (x ∷ xs) =
      Perm.trans (Perm.cons x (sorted_by-Perm xs)) (place_by-Perm x (sorted_by key xs))

  place_by-increasing :
      (x : A) (ys : List A)
      → is_monotonic_increasing (key_list ys) ≡ true
      → is_monotonic_increasing (key_list (place_by key x ys)) ≡ true
  unfolding place_by
  place_by-increasing x [] sorted = refl
  place_by-increasing x (y ∷ []) sorted = ground arith
  place_by-increasing x (y ∷ z ∷ ys) sorted = ground (arith, place_by-increasing x (z ∷ ys))

  pub sorted_by-increasing :
      (xs : List A) → is_monotonic_increasing (key_list (sorted_by key xs)) ≡ true
  unfolding sorted_by
  sorted_by-increasing [] = refl
  sorted_by-increasing (x ∷ xs) = place_by-increasing x (sorted_by key xs) (sorted_by-increasing xs)

-- The times of a dataset.
abbrev pub times : {Slice : Type 0} → XDataset Slice → List ℕ
times ds = map (λ (s : ℕ × _). s.0) ds.time

module _ {Slice : Type 0} where
  with_cycle_axis-time : (ds : XDataset Slice) → (with_cycle_axis ds).time ≡ ds.time
  unfolding with_cycle_axis
  with_cycle_axis-time ds = elim (Bool-cases (contains "reference_time" ds.dims)) [
    | inl cycles ↦ rw (with_cycle_axis, cycles) refl
    | inr others ↦ rw (with_cycle_axis, others) refl
  ]

  sorted_by_time-ordered :
      (ds : XDataset Slice)
      → contains "time" ds.dims ≡ true
      → (is_monotonic_increasing (times (sorted_by_time ds)) ≡ true)
        × Perm ds.time (sorted_by_time ds).time
  unfolding sorted_by_time
  sorted_by_time-ordered ds has = elim (Bool-cases (is_monotonic_increasing (times ds))) [
    | inl ordered ↦ rw (sorted_by_time, has, ordered) (ordered, Perm.rfl)
    | inr unordered ↦
        rw (sorted_by_time, has, unordered)
          (
            sorted_by-increasing (λ (s : ℕ × Slice). s.0) ds.time,
            sorted_by-Perm (λ (s : ℕ × Slice). s.0) ds.time,
          )
  ]

  -- A dataset with a time dimension is opened with its times in order, and with what it has at each time.
  pub open_group-ordered :
      (ds : XDataset Slice)
      → contains "time" ds.dims ≡ true
      → (is_monotonic_increasing (times (open_group ds)) ≡ true) × Perm ds.time (open_group ds).time
  unfolding open_group with_scalar_coords
  open_group-ordered ds has =
      rw (open_group, with_cycle_axis-time (sorted_by_time (with_scalar_coords ds)))
        (sorted_by_time-ordered (with_scalar_coords ds) has)
