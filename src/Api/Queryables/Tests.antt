-- ===== src/Api/Queryables/Tests.antt =====
-- The schema of a metrics table, and the values of one of its fields.
use teehr_cloud_core.Base.{ℕ, String, ◌≡◌, false, none, some, List, [], ◌∷◌, Result, ok}
use teehr_cloud_core.Api.Sql.{Raised}
use teehr_cloud_core.Api.Queryables.{TableProperties, CollectionSchema, metrics_schema}
use teehr_cloud_core.Api.Queryables.Values.{get_queryable_values}
use teehr_cloud_core.Api.Queryables.Refines.{Faithful, get_values_live, get_queryable_values-live}

abbrev meta : TableProperties
meta = record {
  group_by = some ("primary_location_id" ∷ "geometry" ∷ []);
  metrics = some ("kling_gupta" ∷ []);
  description = none;
}

abbrev execute : String → Result Raised (List ℕ)
execute query = ok (1 ∷ 2 ∷ [])

abbrev build : String → Result Raised CollectionSchema
build collection_id = ok (metrics_schema (λ s. s) collection_id meta)

abbrev message : Raised → String
message e = "failed"

faithful : Faithful "iceberg" "teehr" false execute (λ n. n)
faithful collection property_name filters safe conditions value values built made found = found

get_queryable_values-live_example :
    get_queryable_values "iceberg" "teehr" false execute
      (λ n. n)
      build
      message
      "sim_metrics"
      "primary_location_id"
      []
    ≡ get_values_live "iceberg" "teehr" false execute
        (λ n. n)
        build
        message
        "sim_metrics"
        "primary_location_id"
        []
get_queryable_values-live_example =
    get_queryable_values-live "iceberg" "teehr" false execute (λ n. n) faithful build message
      "sim_metrics" "primary_location_id" []
