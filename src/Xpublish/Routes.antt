-- ===== src/Xpublish/Routes.antt =====
-- xpublish-api/src/main.py: the routes that describe a dataset, the list of the vector-tile archives, and
-- what build_app tests and sets up. What the routes read of a dataset's tree is a parameter.
pub mod Listing
mod Tests
use teehr_cloud_core.Base.{
  ℕ, String, Bool, true, false, not, ◌&&◌, Option, none, some, List, [], ◌∷◌, map, eqb,
  if◌then◌else◌, contains, keep, or_default, ◌==◌, ◌<>◌, strip, lstrip_where, rstrip_where, Result,
  ok, err, ◌>>=◌, ◌>>◌, raise_if, HttpError, http,
}
use teehr_cloud_core.Base.Dict.{Dict, insert, has_key}
use teehr_cloud_core.Base.Split.{split_on}
use teehr_cloud_core.Api.Database.{is_infix}
use teehr_cloud_core.Xpublish.Identity.{AuthIdentity}
use teehr_cloud_core.Xpublish.Authz.{AccessRules, Kind, is_permitted, unmatched}
use teehr_cloud_core.Xpublish.Storage.{StorageFile, list_storage_files}
use teehr_cloud_core.Xpublish.Provider.{Provider, data_id}
use teehr_cloud_core.Xpublish.Provider.Datasets.{Fault, Seen, get_datatree_for_dataset}
use teehr_cloud_core.Xpublish.Provider.Grid.{ℤ, written_coord_values}

-- What ends a route: an HTTPException, or a fault of icechunk, which is answered with status 500.
pub data RouteError : Type 0 where
  http_exception : HttpError → RouteError
  fault : Fault → RouteError

abbrev pub unknown_dataset : String → RouteError
unknown_dataset dataset_id = http_exception (http 404 ("Unknown dataset '" <> (dataset_id <> "'")))

module _ {Repo Tree : Type 0} where
  -- the tree of the repo's data group, or 404
  unfoldable pub data_tree :
      Provider Repo Tree → Seen Repo Tree → String → Provider Repo Tree × Result RouteError Tree
  data_tree p seen dataset_id =
      let (q, outcome) = get_datatree_for_dataset p seen (data_id dataset_id) in
      (
        q,
        elim outcome [
          | err e ↦ err (fault e)
          | ok found ↦ elim found [ none ↦ err (unknown_dataset dataset_id) | some dt ↦ ok dt ]
        ],
      )

  -- A route that answers from the data tree.
  abbrev pub answered {ℓ} :
      {A : Type ℓ}
      → (Tree → Result RouteError A)
      → Provider Repo Tree × Result RouteError Tree
      → Provider Repo Tree × Result RouteError A
  answered answer (q, found) = (q, found >>= answer)

  unfoldable pub dataset_variables :
      (Tree → List String)
      → Provider Repo Tree
      → Seen Repo Tree
      → String
      → Provider Repo Tree × Result RouteError (List String)
  unfolding data_tree
  dataset_variables data_vars p seen dataset_id =
      answered (λ dt. ok (data_vars dt)) (data_tree p seen dataset_id)

  -- `spec_of` is the grid spec that the load kept with the tree
  unfoldable pub dataset_metadata :
      {Spec : Type 0}
      → (Tree → Spec)
      → Provider Repo Tree
      → Seen Repo Tree
      → String
      → Provider Repo Tree × Result RouteError Spec
  unfolding data_tree
  dataset_metadata spec_of p seen dataset_id =
      answered (λ dt. ok (spec_of dt)) (data_tree p seen dataset_id)

  -- `plain` is what numpy's `tolist` and `item` make of an attribute's value
  unfoldable pub dataset_variable_attrs :
      {Value : Type 0}
      → (Tree → Dict (Dict Value))
      → (Value → Value)
      → Provider Repo Tree
      → Seen Repo Tree
      → String
      → Provider Repo Tree × Result RouteError (Dict (Dict Value))
  unfolding data_tree
  dataset_variable_attrs attrs_of plain p seen dataset_id =
      answered (λ dt. ok (map (λ v. (v.0, map (λ a. (a.0, plain a.1)) v.1)) (attrs_of dt)))
        (data_tree p seen dataset_id)

  -- `values_of` are a coordinate's values in row-major order, `status_along` the statuses along it
  unfoldable pub dataset_coord_values :
      {Value : Type 0}
      → (Tree → List String)
      → (Tree → String → List Value)
      → (Tree → String → Option (List (List ℤ)))
      → (Value → String)
      → Provider Repo Tree
      → Seen Repo Tree
      → String
      → String
      → Provider Repo Tree × Result RouteError (List String)
  unfolding data_tree written_coord_values
  dataset_coord_values coords values_of status_along text_of p seen dataset_id coord_name =
      answered
        (λ dt.
          if contains coord_name (coords dt)
          then ok (
              map text_of
                (written_coord_values (values_of dt coord_name) (status_along dt coord_name)))
          else err (http_exception (http 404 ("Coordinate '" <> (coord_name <> "' not found")))))
        (data_tree p seen dataset_id)

-- `{id, source_layer}`
pub record Layer : Type 0 where
  pub id : String
  pub source_layer : Option String

abbrev pub layer_of : StorageFile → Layer
layer_of file = record { id = file.id; source_layer = file.source_layer }

-- `resolve_pmtiles_location`, `none` for a RuntimeError
unfoldable pub resolve_pmtiles_location : Option String → Option String → Option (String × String)
resolve_pmtiles_location bucket_var prefix_var =
    let bucket = strip (or_default bucket_var "") in
    let prefix =
      rstrip_where (λ c. eqb c b'/')
        (lstrip_where (λ c. eqb c b'/') (strip (or_default prefix_var ""))) in
    if bucket == "" then none else some (bucket, prefix)

-- `pages` is the listing of a location, `none` if S3 raises
unfoldable pub list_pmtiles_layers :
    (String → String → Option (List (List String))) → Option (String × String) → Option (List Layer)
list_pmtiles_layers pages none = none
list_pmtiles_layers pages (some (bucket, prefix)) = elim (pages bucket prefix) [
  | none ↦ none
  | some listed ↦ some (map layer_of (list_storage_files ".pmtiles" listed))
]

abbrev pub ids : List Layer → List String
ids items = map (λ (item : Layer). item.id) items

unfoldable pub same_names : List String → List String → Bool
same_names [] [] = true
same_names (x ∷ xs) [] = false
same_names [] (y ∷ ys) = false
same_names (x ∷ xs) (y ∷ ys) = x == y && same_names xs ys

-- What one call leaves: the names that were warned about, the warning, and the answer.
pub record Listed : Type 0 where
  pub unmatched_layer_rules : List String
  pub warning : Option (List String)
  pub answer : Result HttpError (List Layer)

abbrev pub warning_of : List String → Option (List String)
warning_of [] = none
warning_of (name ∷ names) = some (name ∷ names)

unfoldable pub list_vector_tiles :
    AccessRules → List String → Option (List Layer) → AuthIdentity → Listed
list_vector_tiles rules known none identity = record {
  unmatched_layer_rules = known;
  warning = none;
  answer = err (http 500 "Vector tile listing failed");
}
list_vector_tiles rules known (some items) identity =
    let missing = unmatched rules Kind.layers (ids items) in
    let same = same_names missing known in
    record {
      unmatched_layer_rules = if same then known else missing;
      warning = if same then none else warning_of missing;
      answer = ok (keep (λ (item : Layer). is_permitted rules identity Kind.layers item.id) items);
    }

-- `tile_cache_headers` on a response; the names of headers are in lower case
unfoldable pub tile_cache_headers : ℕ → String → Dict String → Dict String
tile_cache_headers status path headers =
    if eqb status 200 && is_infix "/tiles/" path
    then (if has_key "cache-control" headers
        then headers
        else insert "cache-control" "private, max-age=300" headers)
    else headers

-- The role that build_app requires where STS is available; `none` is the RuntimeError.
unfoldable pub required_role : Bool → String → Option String
required_role sts_unavailable role_arn =
    if not sts_unavailable && role_arn == "" then none else some role_arn

-- allow_origins and allow_credentials
unfoldable pub cors_settings : Option String → List String × Bool
unfolding split_on
cors_settings variable =
    let origins = map strip (split_on b',' (or_default variable "*")) in
    if contains "*" origins then ("*" ∷ [], false) else (origins, true)
