-- ===== src/Api/Locations.antt =====
-- api/src/routes/locations.py: the items of the locations. `execute` is a query's frame, `pivot` what pandas
-- makes of a frame with one row for each attribute, `float` the text that Python gives to the number in
-- a text, `none` for a ValueError. Where the source breaks a query over lines, the model has single spaces.
pub mod Bbox
mod Tests
use teehr_cloud_core.Base.{
  ◌+◌, ℕ, String, Bool, not, ◌&&◌, Option, none, some, List, [], ◌∷◌, ◌++◌, map, if◌then◌else◌,
  length, or_default, ◌==◌, ◌<>◌, Result, ok, err, ◌>>=◌, HttpError, http,
}
use teehr_cloud_core.Base.Dict.{Dict}
use teehr_cloud_core.Base.Split.{split_on}
use teehr_cloud_core.Api.Identity.{AuthIdentity, Limits, effective_limit_for_request}
use teehr_cloud_core.Api.Links.{Query}
use teehr_cloud_core.Api.Features.{Geometry, FeatureCollection, create_ogc_geojson_response}
use teehr_cloud_core.Api.Collections.{Frame}
use teehr_cloud_core.Api.Records.{one_prefix_condition}
use teehr_cloud_core.Api.Records.Pages.{take, drop}
use teehr_cloud_core.Api.Sql.{Raised, http_exception, in_condition, where_clause, pagination}

pub record LocationsRequest : Type 0 where
  pub identity : Option AuthIdentity
  pub query : Query
  pub bbox : Option String
  pub id : Option (List String)
  pub prefix : Option String
  pub include_attributes : Bool
  pub include_geometry : Bool
  pub limit : Option ℕ
  pub offset : Option ℕ

-- Plain items with their number and a link to themselves, or features.
pub data LocationsResponse (Value Number : Type 0) : Type 0 where
  items : List (Dict Value) → ℕ → LocationsResponse Value Number
  features : FeatureCollection Value Number → LocationsResponse Value Number

module _ (float : String → Option String) where
  -- `list(map(float, parts))`; `none` for a ValueError
  unfoldable pub floats : List String → Option (List String)
  floats [] = some []
  floats (part ∷ parts) =
      let rest = floats parts in
      elim (float part) [
        | none ↦ none
        | some n ↦ elim rest [ none ↦ none | some ns ↦ some (n ∷ ns) ]
      ]

  abbrev pub envelope : String → String → String → String → String
  envelope min_lon min_lat max_lon max_lat =
      "ST_Within( ST_GeomFromBinary(geometry), ST_Envelope( ST_GeometryFromText( 'LINESTRING( "
      <> (min_lon <> (" " <> (min_lat <> (", " <> (max_lon <> (" " <> (max_lat <> " )' ) ) )")))))))

  -- four numbers make a filter, another count makes none
  unfoldable pub filter_of : List String → String
  filter_of [] = ""
  filter_of (a ∷ []) = ""
  filter_of (a ∷ b ∷ []) = ""
  filter_of (a ∷ b ∷ c ∷ []) = ""
  filter_of (a ∷ b ∷ c ∷ d ∷ []) = " AND " <> envelope a b c d
  filter_of (a ∷ b ∷ c ∷ d ∷ e ∷ parts) = ""

  unfoldable pub spatial_filter : Option String → Result Raised String
  unfolding split_on
  spatial_filter bbox =
      let text = or_default bbox "" in
      if text == "" then ok "" else elim (floats (split_on b',' text)) [
        | none ↦
            err (http_exception (http 400 "Invalid bbox format. Use: minLon,minLat,maxLon,maxLat"))
        | some coords ↦ ok (filter_of coords)
      ]

-- `[start:end]`, where an absent limit is an open end
abbrev pub cut : {A : Type 0} → Option ℕ → Option ℕ → List A → List A
cut offset none xs = drop (or_default offset 0) xs
cut offset (some limit) xs = take limit (drop (or_default offset 0) xs)

module _ (limits : Limits) (catalog schema : String) (float : String → Option String) where
  abbrev pub table : String → String
  table name = catalog <> ("." <> (schema <> ("." <> name)))

  abbrev pub base_query : LocationsRequest → String → String
  base_query request clause =
      if request.include_attributes
      then "SELECT l.*, la.attribute_name, la.value as attribute_value FROM "
        <> (table "locations"
            <> (" l LEFT JOIN "
                <> (table "location_attributes"
                    <> (" la ON l.id = la.location_id WHERE " <> clause))))
      else if not request.include_geometry
      then "SELECT l.id, l.name FROM " <> (table "locations" <> (" l WHERE " <> clause))
      else "SELECT l.* FROM " <> (table "locations" <> (" l WHERE " <> clause))

  abbrev pub limit_of : LocationsRequest → Option ℕ
  limit_of request = effective_limit_for_request limits request.identity request.limit

  unfoldable pub locations_query : LocationsRequest → Result Raised String
  locations_query request = do
    ids ← in_condition "l.id" request.id
    prefixes ← one_prefix_condition "l.id" request.prefix
    spatial ← spatial_filter float request.bbox
    ok (
        base_query request (where_clause (ids ++ prefixes))
        <> (spatial
            <> (" ORDER BY l.id"
                <> (if request.include_attributes
                    then ""
                    else pagination request.offset (limit_of request)))))

  module _ {Value Number Bytes : Type 0} (execute : String → Result Raised (Frame Value Bytes))
      (pivot : Frame Value Bytes → Result Raised (Frame Value Bytes))
      (prepare : Dict Value → Dict Value) (from_wkb : Bytes → Geometry Number)
      (round : Number → Number) (number_id : ℕ → Value) (chunk_size : ℕ) where
    -- `df.iloc[start:end]`, which keeps the labels
    abbrev pub cut_frame : LocationsRequest → Frame Value Bytes → Frame Value Bytes
    cut_frame request frame = record {
      first_label = frame.first_label + or_default request.offset 0;
      rows = cut request.offset (limit_of request) frame.rows;
      geometry = elim frame.geometry [
        | none ↦ none
        | some column ↦ some (cut request.offset (limit_of request) column)
      ];
    }

    -- with attributes the page is cut after the rows of a location are one row
    unfoldable pub page_of :
        LocationsRequest → Frame Value Bytes → Result Raised (Frame Value Bytes)
    page_of request frame =
        if request.include_attributes
        then (pivot frame >>= λ pivoted. ok (cut_frame request pivoted))
        else ok frame

    unfoldable pub respond : LocationsRequest → Frame Value Bytes → LocationsResponse Value Number
    respond request frame =
        if not request.include_geometry && not request.include_attributes
        then items (map prepare frame.rows) (length frame.rows)
        else features (
            create_ogc_geojson_response from_wkb round number_id chunk_size frame.first_label
              (map prepare frame.rows) (or_default frame.geometry []) request.query none
              (some "locations") (limit_of request) request.offset)

    unfoldable pub locations_page :
        LocationsRequest → Result Raised (LocationsResponse Value Number)
    locations_page request = do
      query ← locations_query request
      frame ← execute query
      page ← page_of request frame
      ok (respond request page)

    -- `except Exception`, which an HTTPException is too
    abbrev pub database_error {ℓ} :
        {A : Type ℓ} → (Raised → String) → Result Raised A → Result HttpError A
    database_error str_of (ok a) = ok a
    database_error str_of (err e) = err (http 500 ("Database error: " <> str_of e))

    unfoldable pub get_locations_items :
        (Raised → String) → LocationsRequest → Result HttpError (LocationsResponse Value Number)
    get_locations_items str_of request = database_error str_of (locations_page request)
