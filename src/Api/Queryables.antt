-- ===== src/Api/Queryables.antt =====
-- api/src/routes/queryables.py: the schema of a collection. `title` is a field's name made a title by
-- `str.replace` and `str.title`, `fetch` the rows of a query on a cursor.
pub mod Schemas
pub mod Values
pub mod Texts
pub mod Refines
mod Tests
use teehr_cloud_core.Base.{
  String, Option, none, some, List, [], ◌∷◌, map, if◌then◌else◌, contains, or_default, ◌==◌, ◌<>◌,
  strip, Result, ok, err, ◌>>=◌, http,
}
use teehr_cloud_core.Base.Dict.{Dict, lookup, insert, keys}
use teehr_cloud_core.Base.Split.{split_on}
use teehr_cloud_core.Api.Links.{get_id_column}
use teehr_cloud_core.Api.FixedCollections.{
  Property, primary_geometry, CollectionConfig, collection_configs,
}
use teehr_cloud_core.Api.Sql.{Raised, http_exception, sanitized, Schema}

pub record CollectionSchema : Type 0 where
  pub title : String
  pub description : String
  pub properties : Dict Property
  pub group_by : Option (List String)
  pub metrics : Option (List String)

-- what the filters read of it
abbrev pub filter_schema : CollectionSchema → Schema
filter_schema schema = record { group_by = schema.group_by; properties = keys schema.properties }

-- the properties of an Iceberg table that describe it
pub record TableProperties : Type 0 where
  pub group_by : Option (List String)
  pub metrics : Option (List String)
  pub description : Option String

-- `[s.strip() for s in value.split(",")]`
unfoldable pub name_list : String → List String
unfolding split_on strip
name_list value = map strip (split_on b',' value)

abbrev pub set_property : String → String → TableProperties → TableProperties
set_property key value meta =
    if key == "metrics"
    then record meta { metrics = some (name_list value) }
    else if key == "group_by"
    then record meta { group_by = some (name_list value) }
    else if key == "description"
    then record meta { description = some value }
    else meta

-- the loop over the rows; a later row with the same key replaces an earlier one
unfoldable pub read_properties : TableProperties → List (String × String) → TableProperties
read_properties meta [] = meta
read_properties meta ((key, value) ∷ rows) = read_properties (set_property key value meta) rows

module _ (title : String → String) where
  abbrev pub group_property : Option String → String → Property
  group_property ogc_id_field field =
      ("title", title field)
      ∷ ("type", "string")
      ∷ ("x-teehr-role", "group_by")
      ∷ elim ogc_id_field [
        | none ↦ []
        | some id ↦ if field == id then ("x-ogc-role", "id") ∷ [] else []
      ]

  abbrev pub metric_property : String → Property
  metric_property field =
      ("title", title field) ∷ ("type", "number") ∷ ("x-teehr-role", "metric") ∷ []

  unfoldable pub add_group_fields : Option String → Dict Property → List String → Dict Property
  add_group_fields ogc_id_field properties [] = properties
  add_group_fields ogc_id_field properties (field ∷ fields) =
      let added = insert field (group_property ogc_id_field field) properties in
      add_group_fields ogc_id_field (if field == "geometry" then properties else added) fields

  unfoldable pub add_metric_fields : Dict Property → List String → Dict Property
  add_metric_fields properties [] = properties
  add_metric_fields properties (field ∷ fields) =
      add_metric_fields (insert field (metric_property field) properties) fields

  unfoldable pub metrics_schema : String → TableProperties → CollectionSchema
  metrics_schema table_name meta =
      let group_by = or_default meta.group_by [] in
      let metrics = or_default meta.metrics [] in
      let geometry =
        if contains "geometry" group_by then ("geometry", primary_geometry) ∷ [] else [] in
      record {
        title = table_name;
        description = or_default meta.description ("Metrics table: " <> table_name);
        properties =
            add_metric_fields (add_group_fields (get_id_column group_by) geometry group_by) metrics;
        group_by = some group_by;
        metrics = some metrics;
      }

  module _ (fetch : String → Result Raised (List (String × String)))
      (str_of : Raised → String) where
    abbrev pub properties_query : String → String
    properties_query table_name =
        "SELECT key, value FROM \""
        <> (table_name <> "$properties\" WHERE key IN ('metrics', 'group_by', 'description')")

    -- every exception becomes a 500
    unfoldable pub get_metrics_table_queryables : String → Result Raised CollectionSchema
    get_metrics_table_queryables table_name = elim (fetch (properties_query table_name)) [
      | ok rows ↦ ok (
          metrics_schema table_name
            (read_properties (record { group_by = none; metrics = none; description = none }) rows))
      | err e ↦ err (
          http_exception
            (http 500 ("Failed to load queryables for " <> (table_name <> (": " <> str_of e)))))
    ]

    unfoldable pub build_collection_schema : String → Result Raised CollectionSchema
    build_collection_schema collection_id = elim (lookup collection_id collection_configs) [
      | some config ↦ ok (record {
        title = collection_id;
        description = config.description;
        properties = config.static_properties;
        group_by = none;
        metrics = none;
      })
      | none ↦ do table ← sanitized collection_id; get_metrics_table_queryables table
    ]

    -- the route of the schema
    abbrev pub get_collection_queryables : String → Result Raised CollectionSchema
    get_collection_queryables = build_collection_schema
