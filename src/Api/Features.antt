-- ===== src/Api/Features.antt =====
-- api/src/routes/utils.py: the GeoJSON of a collection. geopandas' reading of a geometry, the rounding of
-- a number and the values of the columns are parameters.
pub mod Ids
pub mod Chunks
mod Tests
use teehr_cloud_core.Base.{
  ℕ, zero, suc, ◌+◌, ◌-◌, ◌/◌, String, Option, none, some, List, [], ◌∷◌, ◌++◌, map, ltb,
  if◌then◌else◌, length, or_default, ◌==◌,
}
use teehr_cloud_core.Base.Dict.{Dict, lookup}
use teehr_cloud_core.Base.Split.{split_on}
use teehr_cloud_core.Api.Records.Pages.{take, drop}
use teehr_cloud_core.Api.Links.{Query, Link, self_link, collection_links, geojson_page_links}

-- The coordinates of a geometry, by the depth of their lists.
pub data Geometry (Number : Type 0) : Type 0 where
  no_geometry : Geometry Number
  point : List Number → Geometry Number
  line_string multi_point : List (List Number) → Geometry Number
  polygon multi_line_string : List (List (List Number)) → Geometry Number
  multi_polygon : List (List (List (List Number))) → Geometry Number

-- the rounding of the coordinates, which leaves a multi-polygon as it is
unfoldable pub rounded : {Number : Type 0} → (Number → Number) → Geometry Number → Geometry Number
rounded round no_geometry = no_geometry
rounded round (point coords) = point (map round coords)
rounded round (line_string coords) = line_string (map (map round) coords)
rounded round (multi_point coords) = multi_point (map (map round) coords)
rounded round (polygon coords) = polygon (map (map (map round)) coords)
rounded round (multi_line_string coords) = multi_line_string (map (map (map round)) coords)
rounded round (multi_polygon coords) = multi_polygon coords

pub record Feature (Value Number : Type 0) : Type 0 where
  pub id : Option Value
  pub properties : Dict Value
  pub geometry : Geometry Number

abbrev pub or_else : {Value : Type 0} → Option Value → Option Value → Option Value
or_else none id = id
or_else (some value) id = some value

-- `if name in properties: feature["id"] = properties.get(name)`
abbrev pub id_from : {Value : Type 0} → String → Dict Value → Option Value → Option Value
id_from name properties id = or_else (lookup name properties) id

-- the number of values of `range(0, n, step)`
abbrev pub range_length : ℕ → ℕ → ℕ
range_length n step = (n + (step - 1)) / step

module _ {Value Number : Type 0} where
  unfoldable pub set_feature_id : Feature Value Number → Feature Value Number
  set_feature_id feature = record feature {
    id = id_from "location_id" feature.properties (
        id_from "primary_location_id" feature.properties
          (id_from "id" feature.properties feature.id));
  }

  -- the features of `gdf.to_json()`, whose ids are the rows' labels as `number_id` writes them
  unfoldable pub features_from :
      (ℕ → Value) → ℕ → List (Dict Value) → List (Geometry Number) → List (Feature Value Number)
  features_from number_id n [] shapes = []
  features_from number_id n (row ∷ rows) [] = []
  features_from number_id n (row ∷ rows) (shape ∷ shapes) =
      record { id = some (number_id n); properties = row; geometry = shape }
      ∷ features_from number_id (suc n) rows shapes

module _ {Number : Type 0} where
  -- the value at a label of a series that is labelled from 0 on, which misses the labels after its end
  unfoldable pub shape_at : ℕ → List (Geometry Number) → Geometry Number
  shape_at label [] = no_geometry
  shape_at zero (shape ∷ shapes) = shape
  shape_at (suc label) (shape ∷ shapes) = shape_at label shapes

  -- such a series assigned to a column of as many rows, which are labelled from `label` on
  unfoldable pub aligned : ℕ → ℕ → List (Geometry Number) → List (Geometry Number)
  aligned label zero shapes = []
  aligned label (suc rows) shapes = shape_at label shapes ∷ aligned (suc label) rows shapes

module _ {Number Bytes : Type 0} (from_wkb : Bytes → Geometry Number) where
  -- `for i in range(0, len(df), chunk_size)`, for the number of chunks that are left
  unfoldable pub chunks_from : ℕ → ℕ → ℕ → List Bytes → List (Geometry Number)
  chunks_from zero i chunk_size column = []
  chunks_from (suc left) i chunk_size column =
      map from_wkb (take chunk_size (drop i column))
      ++ chunks_from left (i + chunk_size) chunk_size column

  -- The column of geometries of a frame whose rows are labelled from `first_label` on. The chunks are put
  -- together under labels from 0 on, and assigned by label.
  unfoldable pub read_geometries : ℕ → ℕ → List Bytes → List (Geometry Number)
  read_geometries first_label chunk_size column =
      if ltb chunk_size (length column)
      then aligned first_label (length column)
          (chunks_from (range_length (length column) chunk_size) 0 chunk_size column)
      else map from_wkb column

pub record FeatureCollection (Value Number : Type 0) : Type 0 where
  pub features : List (Feature Value Number)
  pub number_returned : ℕ
  pub number_matched : ℕ
  pub links : List Link

module _ {Value Number Bytes : Type 0} (from_wkb : Bytes → Geometry Number)
    (round : Number → Number) (number_id : ℕ → Value) (chunk_size : ℕ) where
  abbrev pub finished : Feature Value Number → Feature Value Number
  finished feature = set_feature_id (record feature { geometry = rounded round feature.geometry })

  -- the features of the rows, with their columns and their geometries
  unfoldable pub features_of : ℕ → List (Dict Value) → List Bytes → List (Feature Value Number)
  features_of first_label rows column = map finished (
      features_from number_id first_label rows
        (read_geometries from_wkb first_label chunk_size column))

  unfoldable pub create_ogc_geojson_response :
      ℕ
      → List (Dict Value)
      → List Bytes
      → Query
      → Option ℕ
      → Option String
      → Option ℕ
      → Option ℕ
      → FeatureCollection Value Number
  create_ogc_geojson_response first_label rows column query number_matched collection_id limit
        offset =
      let features = features_of first_label rows column in
      record {
        features = features;
        number_returned = length features;
        number_matched = or_default number_matched (length features);
        links =
            self_link "application/geo+json" ∷ collection_links collection_id
            ++ geojson_page_links limit offset (length features) query;
      }

-- An interval of times: `none` is an open end.
module _ {Time : Type 0} (fromisoformat : String → Option Time) (replace_z : String → String) where
  -- the end of an interval; the outer `none` is a ValueError
  abbrev pub interval_end : String → Option (Option Time)
  interval_end part =
      if part == ".."
      then some none
      else elim (fromisoformat (replace_z part)) [ none ↦ none | some time ↦ some (some time) ]

  abbrev pub both : Option (Option Time) → Option (Option Time) → Option (Option Time × Option Time)
  both none end = none
  both (some start) none = none
  both (some start) (some end) = some (start, end)

  -- the parts of `split("/")`
  unfoldable pub interval_of : List String → Option (Option Time × Option Time)
  interval_of [] = none
  interval_of (single ∷ []) = elim (fromisoformat (replace_z single)) [
    | none ↦ none
    | some time ↦ some (some time, some time)
  ]
  interval_of (start ∷ end ∷ parts) = both (interval_end start) (interval_end end)

  unfoldable pub parse_datetime_parameter : Option String → Option (Option Time × Option Time)
  unfolding split_on
  parse_datetime_parameter datetime_param =
      if or_default datetime_param "" == ""
      then some (none, none)
      else interval_of (split_on b'/' (or_default datetime_param ""))
