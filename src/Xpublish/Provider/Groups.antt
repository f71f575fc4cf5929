-- ===== src/Xpublish/Provider/Groups.antt =====
-- xpublish-api/src/provider.py: the dataset that is opened of a group, the overview levels of a repo, and
-- the opening of a repo. icechunk, zarr and xarray are parameters; a dataset is what is read of it here.
pub mod Ordered
mod Tests
use teehr_cloud_core.Base.{
  ℕ, zero, suc, String, Bool, true, false, not, ◌&&◌, Option, none, some, List, [], ◌∷◌, ◌++◌, map,
  eqb, leb, if◌then◌else◌, contains, keep, or_default, ◌<>◌, Result, ok, err, ◌>>=◌,
}
use teehr_cloud_core.Notebook.{Anonymous, anonymous_credentials}

-- `sorted(xs, key=key)`, which keeps the order of equal keys
unfoldable pub place_by {ℓ} : {A : Type ℓ} → (A → ℕ) → A → List A → List A
place_by key x [] = x ∷ []
place_by key x (y ∷ ys) =
    let later = place_by key x ys in if leb (key x) (key y) then x ∷ y ∷ ys else y ∷ later

unfoldable pub sorted_by {ℓ} : {A : Type ℓ} → (A → ℕ) → List A → List A
unfolding place_by
sorted_by key [] = []
sorted_by key (x ∷ xs) = place_by key x (sorted_by key xs)

-- `index.is_monotonic_increasing`
abbrev pub is_monotonic_increasing : List ℕ → Bool
is_monotonic_increasing [] = true
is_monotonic_increasing (t ∷ []) = true
is_monotonic_increasing (t ∷ u ∷ ts) = leb t u && is_monotonic_increasing (u ∷ ts)

-- A dataset: its variables with their numbers of dimensions, its coordinates and dimensions, what it has at
-- each time, and the attributes that are changed.
pub record XDataset (Slice : Type 0) : Type 0 where
  pub data_vars : List (String × ℕ)
  pub coords : List String
  pub dims : List String
  pub time : List (ℕ × Slice)
  pub reference_time_axis : Option String
  pub value_time_standard_name : Option String

abbrev pub names : List (String × ℕ) → List String
names vars = map (λ (v : String × ℕ). v.0) vars

module _ {Slice : Type 0} where
  -- `set_coords` of the scalars
  unfoldable pub with_scalar_coords : XDataset Slice → XDataset Slice
  with_scalar_coords ds = record ds {
    data_vars = keep (λ (v : String × ℕ). not (eqb v.1 0)) ds.data_vars;
    coords = ds.coords ++ names (keep (λ (v : String × ℕ). eqb v.1 0) ds.data_vars);
  }

  unfoldable pub sorted_by_time : XDataset Slice → XDataset Slice
  unfolding sorted_by
  sorted_by_time ds =
      if contains "time" ds.dims
        && not (is_monotonic_increasing (map (λ (s : ℕ × Slice). s.0) ds.time))
      then record ds { time = sorted_by (λ (s : ℕ × Slice). s.0) ds.time }
      else ds

  -- the T axis of a forecast
  unfoldable pub with_cycle_axis : XDataset Slice → XDataset Slice
  with_cycle_axis ds =
      if contains "reference_time" ds.dims
      then record ds {
        reference_time_axis = some "T";
        value_time_standard_name =
            if contains "value_time" ds.coords then none else ds.value_time_standard_name;
      }
      else ds

  -- `_open_group` of what `xr.open_dataset` returns
  unfoldable pub open_group : XDataset Slice → XDataset Slice
  unfolding with_scalar_coords sorted_by_time with_cycle_axis
  open_group ds = with_cycle_axis (sorted_by_time (with_scalar_coords ds))

  -- `int(name)` of each level, which raises for other names
  unfoldable pub factors :
      (String → Option ℕ)
      → List (String × XDataset Slice)
      → Option (List (ℕ × (String × XDataset Slice)))
  factors int [] = some []
  factors int (level ∷ levels) =
      let rest = factors int levels in
      elim (int level.0) [
        | none ↦ none
        | some factor ↦ elim rest [ none ↦ none | some others ↦ some ((factor, level) ∷ others) ]
      ]

  -- `_overview_levels`: `none` for no group of overviews, and for a ValueError
  unfoldable pub overview_levels :
      (String → Option ℕ)
      → Option (List (String × XDataset Slice))
      → Option (List (String × XDataset Slice))
  unfolding factors sorted_by open_group
  overview_levels int none = some []
  overview_levels int (some groups) = elim (factors int groups) [
    | none ↦ none
    | some levels ↦ some (
        map (λ (l : ℕ × (String × XDataset Slice)). (l.1.0, open_group l.1.1))
          (sorted_by (λ (l : ℕ × (String × XDataset Slice)). l.0) levels))
  ]

-- What `_ensure_repo_initialized` asks of icechunk, in order.
pub data Call : Type 0 where
  create : Call
  write_empty : (group : String) → Call
  commit : (message : String) → Call

unfoldable pub ensure_repo_initialized : Bool → List Call
ensure_repo_initialized true = []
ensure_repo_initialized false =
    create
    ∷ write_empty "/overviews"
    ∷ write_empty "/data"
    ∷ commit "Initialize empty repo placeholder"
    ∷ []

-- `_open_with_virtual_access`: each container of the configuration is read anonymously
unfoldable pub open_with_virtual_access {ℓ} :
    {Storage Fault : Type 0} {Repo : Type ℓ}
    → (Storage → Result Fault (Option (List String)))
    → (Storage → List (String × Anonymous) → Result Fault Repo)
    → Storage
    → Result Fault Repo
open_with_virtual_access fetch_config open_repository storage = do
  containers ← fetch_config storage
  open_repository storage
      (map (λ prefix. (prefix, anonymous_credentials prefix)) (or_default containers []))
