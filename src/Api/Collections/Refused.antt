-- ===== src/Api/Collections/Refused.antt =====
-- Filters that api/src/routes/metrics.py refuses.
use teehr_cloud_core.Base.{
  ℕ, String, ◌≡◌, refl, ◌∙◌, Bool, true, false, not, some, List, [], ◌∷◌, contains, difference,
  contains-keep, ◌<>◌, Result, ok, err, http,
}
use teehr_cloud_core.Base.Sort.{sorted}
use teehr_cloud_core.Base.Dict.{Dict, keys}
use teehr_cloud_core.Api.Identity.{Limits}
use teehr_cloud_core.Api.Features.{Geometry}
use teehr_cloud_core.Api.Queryables.{CollectionSchema, filter_schema}
use teehr_cloud_core.Api.Sql.{
  Raised, http_exception, sanitized, join, Schema, get_filterable_columns, verify_filtered_columns,
}
use teehr_cloud_core.Api.Collections.{
  SchemaCache, get_collection_schema, Frame, ItemsRequest, last_values, without_reserved, query_for,
  answer_items, get_collection_items,
}

-- Names of which one is not available are refused.
verify_filtered_columns-refused :
    (schema : Schema) (names : List String) (name : String) (default_to_properties : Bool)
    → contains name names ≡ true
    → contains name (get_filterable_columns schema default_to_properties) ≡ false
    → (detail : String) × (verify_filtered_columns schema names default_to_properties
        ≡ err (http_exception (http 400 detail)))
unfolding verify_filtered_columns
verify_filtered_columns-refused schema names name default_to_properties asked missing =
    let available = get_filterable_columns schema default_to_properties in
    let listed : contains name (difference names available) ≡ true =
      contains-keep (λ n. not (contains n available)) name names ∙ rw (asked, missing) refl in
    split (difference names available) listed refl
  where
    split :
        (invalid : List String)
        → contains name invalid ≡ true
        → difference names (get_filterable_columns schema default_to_properties) ≡ invalid
        → (detail : String) × (verify_filtered_columns schema names default_to_properties
            ≡ err (http_exception (http 400 detail)))
    split [] listed e = cc
    split (c ∷ cs) listed e = (
      "Unsupported filters: " <> join ", " (sorted (c ∷ cs)),
      rw (verify_filtered_columns, e) refl,
    )

module _ (describe : String → Result Raised CollectionSchema) (now stored_at : ℕ) (limits : Limits)
    (catalog schema_name : String) (lower : String → String) {Value Number Bytes : Type 0}
    (execute : String → Result Raised (Frame Value Bytes)) (prepare : Dict Value → Dict Value)
    (from_wkb : Bytes → Geometry Number) (round : Number → Number) (number_id : ℕ → Value)
    (chunk_size : ℕ) (str_of : Raised → String) where
  -- A request with a parameter that is neither one of the endpoint's own nor a column that the collection is
  -- grouped by is answered with status 400, whatever the database would answer.
  pub get_collection_items-refused :
      (collection_id table name : String) (request : ItemsRequest) (cache : SchemaCache)
      (schema : CollectionSchema) (group_by : List String)
      → sanitized collection_id ≡ ok table
      → (get_collection_schema describe now stored_at table cache).1 ≡ ok schema
      → schema.group_by ≡ some group_by
      → contains name (keys (without_reserved (last_values [] request.query))) ≡ true
      → contains name group_by ≡ false
      → (detail : String) × ((get_collection_items limits catalog schema_name lower execute prepare
            from_wkb round number_id chunk_size describe str_of now stored_at collection_id request
            cache).1
          ≡ err (http_exception (http 400 detail)))
  unfolding get_collection_items answer_items query_for get_filterable_columns
  get_collection_items-refused collection_id table name request cache schema group_by a b c d e =
      let (detail, refused) =
        verify_filtered_columns-refused (filter_schema schema)
          (keys (without_reserved (last_values [] request.query))) name false d (rw c e) in
      (detail, rw (get_collection_items, a, b, answer_items, query_for, refused) refl)
