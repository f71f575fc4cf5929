-- ===== src/Api/Collections.antt =====
-- api/src/routes/metrics.py: the items of a collection that is described by table properties, and the
-- cache of its schemas. `describe` is `get_metrics_table_queryables`, `execute` a query's frame, `lower`
-- `str.lower`. Where the source breaks a query over lines, the model has single spaces.
pub mod SchemaCache
pub mod Refused
mod Tests
use teehr_cloud_core.Base.{
  ℕ, ◌-◌, String, Bool, true, false, not, ◌&&◌, ◌||◌, Option, none, some, List, [], ◌∷◌, ◌++◌, map,
  ltb, if◌then◌else◌, keep, contains, or_default, ◌==◌, ◌<>◌, Result, ok, err, ◌>>=◌, ◌>>◌, http,
}
use teehr_cloud_core.Base.Dict.{Dict, lookup, insert, keys}
use teehr_cloud_core.Api.Identity.{AuthIdentity, Limits, effective_limit_for_request}
use teehr_cloud_core.Api.Links.{Query, RecordsResponse, get_id_column, create_ogc_records_response}
use teehr_cloud_core.Api.Features.{Geometry, FeatureCollection, create_ogc_geojson_response}
use teehr_cloud_core.Api.Queryables.{CollectionSchema, filter_schema}
use teehr_cloud_core.Api.Queryables.Values.{or_500}
use teehr_cloud_core.Api.Sql.{
  Raised, http_exception, sanitized, sanitize_all, join, quoted, verify_filtered_columns,
  build_equality_filter_conditions, where_clause, pagination,
}

abbrev pub reserved_params : List String
reserved_params = "collection_id" ∷ "location_id" ∷ "limit" ∷ "offset" ∷ "f" ∷ []

abbrev pub schema_cache_ttl_seconds : ℕ
schema_cache_ttl_seconds = 60

-- Each schema with the time at which it was kept.
abbrev pub SchemaCache : Type 0
SchemaCache = Dict (ℕ × CollectionSchema)

-- the schema that is at hand, if it is not too old
abbrev pub fresh_schema : ℕ → Option (ℕ × CollectionSchema) → Option CollectionSchema
fresh_schema now none = none
fresh_schema now (some (at, schema)) =
    if ltb (now - at) schema_cache_ttl_seconds then some schema else none

abbrev pub keep_schema :
    SchemaCache
    → String
    → ℕ
    → Result Raised CollectionSchema
    → SchemaCache × Result Raised CollectionSchema
keep_schema cache table stored_at (ok schema) = (insert table (stored_at, schema) cache, ok schema)
keep_schema cache table stored_at (err e) = (cache, err e)

-- The clock is read at the test and, after a description, for the entry.
unfoldable pub get_collection_schema :
    (String → Result Raised CollectionSchema)
    → ℕ
    → ℕ
    → String
    → SchemaCache
    → SchemaCache × Result Raised CollectionSchema
get_collection_schema describe now stored_at table cache =
    elim (fresh_schema now (lookup table cache)) [
      | some schema ↦ (cache, ok schema)
      | none ↦ keep_schema cache table stored_at (describe table)
    ]

-- `ORDER BY` the columns of the group, without the geometry
unfoldable pub order_by_clause : CollectionSchema → Result Raised String
order_by_clause schema =
    elim (keep (λ column. not (column == "geometry")) (or_default schema.group_by [])) [
      | [] ↦ ok ""
      | c ∷ columns ↦ do
        safe_columns ← sanitize_all (c ∷ columns)
        ok ("ORDER BY " <> join ", " safe_columns)
    ]

pub data Format : Type 0 where
  json geojson : Format

unfoldable pub resolve_format : (String → String) → Option String → Bool → Result Raised Format
resolve_format lower none has_geometry = ok (if has_geometry then geojson else json)
resolve_format lower (some requested) has_geometry =
    if lower requested == "json"
    then ok json
    else if not (lower requested == "geojson")
    then err (
        http_exception
          (http 400 ("Unsupported format '" <> (requested <> "'. Use 'json' or 'geojson'."))))
    else if has_geometry
    then ok geojson
    else err (http_exception (http 400 "Collection has no geometry column; use f=json."))

-- `request.query_params` as a dict: the last value of a name
unfoldable pub last_values : Dict String → Query → Dict String
last_values d [] = d
last_values d ((name, value) ∷ query) = last_values (insert name value d) query

abbrev pub without_reserved : Dict String → Dict String
without_reserved [] = []
without_reserved ((name, value) ∷ params) =
    let rest = without_reserved params in
    if contains name reserved_params then rest else (name, value) ∷ rest

-- the condition on the id column
unfoldable pub location_conditions : Option String → Option String → Result Raised (List String)
location_conditions none location_id = ok []
location_conditions (some id_col) none = ok ((id_col <> " LIKE 'usgs-%'") ∷ [])
location_conditions (some id_col) (some location_id) = do
  sanitized_location_id ← sanitized location_id
  ok ((id_col <> (" = " <> quoted sanitized_location_id)) ∷ [])

-- A frame: the label of its first row, from which on the rows are numbered, its rows without the geometry,
-- and the geometries if it has that column.
pub record Frame (Value Bytes : Type 0) : Type 0 where
  pub first_label : ℕ
  pub rows : List (Dict Value)
  pub geometry : Option (List Bytes)

pub record ItemsRequest : Type 0 where
  pub identity : Option AuthIdentity
  pub query : Query
  pub limit : Option ℕ
  pub offset : Option ℕ
  pub f : Option String

pub data ItemsResponse (Value Number : Type 0) : Type 0 where
  records : RecordsResponse (Dict Value) → ItemsResponse Value Number
  features : FeatureCollection Value Number → ItemsResponse Value Number

module _ (limits : Limits) (catalog schema_name : String) (lower : String → String) where
  abbrev pub items_query : String → List String → String → Option ℕ → Option ℕ → String
  items_query table conditions order_by offset limit =
      "SELECT * FROM "
      <> (catalog
          <> ("."
              <> (schema_name
                  <> ("."
                      <> (table
                          <> (" WHERE "
                              <> (where_clause conditions
                                  <> (" " <> (order_by <> pagination offset limit)))))))))

  -- the query of a request, after the schema
  unfoldable pub query_for : String → CollectionSchema → ItemsRequest → Result Raised String
  query_for table schema request = do
    let params = last_values [] request.query
    let filters = without_reserved params
    verify_filtered_columns (filter_schema schema) (keys filters) false
    located ←
        location_conditions (get_id_column (or_default schema.group_by []))
          (lookup "location_id" params)
    filtered ← build_equality_filter_conditions filters
    order_by ← order_by_clause schema
    ok (
        items_query table (located ++ filtered) order_by request.offset
          (effective_limit_for_request limits request.identity request.limit))

  module _ {Value Number Bytes : Type 0} (execute : String → Result Raised (Frame Value Bytes))
      (prepare : Dict Value → Dict Value) (from_wkb : Bytes → Geometry Number)
      (round : Number → Number) (number_id : ℕ → Value) (chunk_size : ℕ) where
    unfoldable pub respond :
        String → ItemsRequest → Frame Value Bytes → Format → ItemsResponse Value Number
    respond collection_id request frame json = records (
        create_ogc_records_response (map prepare frame.rows) request.query none (some collection_id)
          (effective_limit_for_request limits request.identity request.limit) request.offset)
    respond collection_id request frame geojson = features (
        create_ogc_geojson_response from_wkb round number_id chunk_size frame.first_label
          (map prepare frame.rows) (or_default frame.geometry []) request.query none
          (some collection_id) (effective_limit_for_request limits request.identity request.limit)
          request.offset)

    -- after the schema
    unfoldable pub answer_items :
        String
        → String
        → ItemsRequest
        → CollectionSchema
        → Result Raised (ItemsResponse Value Number)
    answer_items collection_id table request schema = do
      query ← query_for table schema request
      frame ← execute query
      format ←
          resolve_format lower request.f
            (elim frame.geometry [ none ↦ false | some geometries ↦ true ])
      ok (respond collection_id request frame format)

    module _ (describe : String → Result Raised CollectionSchema) (str_of : Raised → String) where
      abbrev pub load_failed {ℓ} : {A : Type ℓ} → String → Result Raised A → Result Raised A
      load_failed collection_id result =
          or_500 str_of ("Failed to load collection '" <> (collection_id <> "'")) result

      -- `get_collection_items`: the cache that it leaves, and the response
      unfoldable pub get_collection_items :
          ℕ
          → ℕ
          → String
          → ItemsRequest
          → SchemaCache
          → SchemaCache × Result Raised (ItemsResponse Value Number)
      get_collection_items now stored_at collection_id request cache =
          elim (sanitized collection_id) [
            | err e ↦ (cache, load_failed collection_id (err e))
            | ok table ↦
                let described = get_collection_schema describe now stored_at table cache in
                (
                  described.0,
                  load_failed collection_id
                      (described.1 >>= answer_items collection_id table request),
                )
          ]
