-- ===== src/Xpublish/Provider/Grid.antt =====
-- xpublish-api/src/provider.py: the shape of a repo's grid, the tree that a load makes of its groups, and
-- the values of a coordinate that have data. zarr and xarray are parameters; a root attribute is a number,
-- a text or a list of texts.
use teehr_cloud_core.Base.{
  ℕ, String, Bool, true, false, ◌||◌, Option, none, some, List, [], ◌∷◌, map, eqb, if◌then◌else◌,
  any, or_default, Result, ok, err, ◌>>=◌, ◌>>◌,
}
use teehr_cloud_core.Base.Dict.{Dict, lookup, insert}
use teehr_cloud_core.Xpublish.Provider.{DatasetKind, tiles, edr}

pub data Attribute : Type 0 where
  number : ℕ → Attribute
  text : String → Attribute
  texts : List String → Attribute

pub data GridError : Type 0 where
  unknown_layout_version not_iterable no_group : GridError

pub record GridSpec : Type 0 where
  pub append_dim : Attribute
  pub fixed_dims : List String
  pub layout_version : Attribute

-- `_root_attrs`: `none` where there is no root group
abbrev pub root_attrs : Option (Dict Attribute) → Dict Attribute
root_attrs attrs = or_default attrs []

-- `version in KNOWN_LAYOUT_VERSIONS`
abbrev pub is_known_version : Attribute → Bool
is_known_version (number n) = eqb n 1 || eqb n 2
is_known_version (text s) = false
is_known_version (texts xs) = false

-- one text for each character
unfoldable pub characters : String → List String
characters String.[] = []
characters (String.◌∷◌ c s) = String.◌∷◌ c "" ∷ characters s

-- `list(value)`
unfoldable pub list_of : Attribute → Result GridError (List String)
unfolding characters
list_of (number n) = err not_iterable
list_of (text s) = ok (characters s)
list_of (texts xs) = ok xs

unfoldable pub grid_spec : Option (Dict Attribute) → Result GridError GridSpec
unfolding list_of
grid_spec stored = do
  let attrs = root_attrs stored
  let version = or_default (lookup "layout_version" attrs) (number 1)
  if is_known_version version then ok tt else err unknown_layout_version
  fixed_dims ← list_of (or_default (lookup "fixed_dims" attrs) (texts []))
  ok (record {
    append_dim = or_default (lookup "append_dim" attrs) (text "time");
    fixed_dims = fixed_dims;
    layout_version = version;
  })

abbrev pub data_group : Option (Dict Attribute) → Attribute
data_group stored = or_default (lookup "data_group" (root_attrs stored)) (text "/data")

-- The levels by their names, the full resolution first, or one dataset.
pub data Groups (Dataset : Type 0) : Type 0 where
  levels : Dict Dataset → Groups Dataset
  alone : Dataset → Groups Dataset

pub record DataTree (Session Dataset : Type 0) : Type 0 where
  pub groups : Groups Dataset
  pub xpublish_id : String
  pub icechunk_session : Session
  pub spec : GridSpec

-- `{**d, **overviews}`
unfoldable pub overlaid : {Dataset : Type 0} → Dict Dataset → Dict Dataset → Dict Dataset
overlaid d [] = d
overlaid d ((name, level) ∷ overviews) = overlaid (insert name level d) overviews

unfoldable pub groups_of : {Dataset : Type 0} → Dataset → Dict Dataset → Groups Dataset
unfolding overlaid
groups_of ds [] = alone ds
groups_of ds (level ∷ overviews) = levels (overlaid (("1", ds) ∷ []) (level ∷ overviews))

-- `open_group` and `overview_levels` read the groups of a session's store.
module _ {Session Dataset : Type 0} (stored : Session → Option (Dict Attribute))
    (open_group : Session → Attribute → Result GridError Dataset)
    (overview_levels : Session → Result GridError (Dict Dataset)) where
  abbrev pub overviews_for : DatasetKind → Session → Result GridError (Dict Dataset)
  overviews_for tiles session = overview_levels session
  overviews_for edr session = ok []

  -- `session` is the read-only session of the snapshot
  unfoldable pub load_datatree :
      String → DatasetKind → Session → Result GridError (DataTree Session Dataset)
  unfolding grid_spec groups_of
  load_datatree dataset_id kind session = do
    spec ← grid_spec (stored session)
    ds ← open_group session (data_group (stored session))
    overviews ← overviews_for kind session
    ok (record {
      groups = groups_of ds overviews;
      xpublish_id = dataset_id;
      icechunk_session = session;
      spec = spec;
    })

-- A status: 0 and up hold data, -1 is not yet written, -2 never published.
pub data ℤ : Type 0 where
  pos negsuc : ℕ → ℤ

-- `status >= 0`
abbrev pub is_written : ℤ → Bool
is_written (pos n) = true
is_written (negsuc n) = false

-- `written.any(...)` over the other dimensions
abbrev pub written_steps : List (List ℤ) → List Bool
written_steps statuses = map (any is_written) statuses

-- `values[flags]`, of as many flags as values
abbrev pub select : {A : Type 0} → List Bool → List A → List A
select (true ∷ flags) (x ∷ xs) = x ∷ select flags xs
select (false ∷ flags) (x ∷ xs) = select flags xs
select flags xs = []

-- `status` is, for each value of the coordinate, the statuses along it, `none` if there is no status
-- along this coordinate.
unfoldable pub written_coord_values :
    {Value : Type 0} → List Value → Option (List (List ℤ)) → List Value
written_coord_values values none = values
written_coord_values values (some statuses) = select (written_steps statuses) values
