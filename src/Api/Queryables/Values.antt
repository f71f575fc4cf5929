-- ===== src/Api/Queryables/Values.antt =====
-- api/src/routes/queryables.py: the distinct values of a property, and the table of combinations that
-- answers for it. `execute` is the column of a query's frame, `prepare` a value as pandas makes it for JSON.
-- Where the source breaks a query over lines, the model has single spaces.
use teehr_cloud_core.Base.{
  String, Bool, true, ◌||◌, Option, none, some, List, [], ◌∷◌, ◌++◌, map, if◌then◌else◌, contains,
  or_default, ◌==◌, ◌<>◌, Result, ok, err, ◌>>=◌, ◌>>◌, raise_if, http,
}
use teehr_cloud_core.Base.Dict.{Dict, keys, has_key}
use teehr_cloud_core.Api.Sql.{
  Raised, http_exception, exception, sanitized, join, quoted, verify_filtered_columns,
  build_equality_filter_conditions,
}
use teehr_cloud_core.Api.Queryables.{CollectionSchema, filter_schema}

unfoldable pub validate_queryable_property : CollectionSchema → String → Result Raised (Unit {0})
validate_queryable_property schema property_name =
    if has_key property_name schema.properties
    then ok tt
    else err (http_exception (http 400 ("Unsupported property: " <> property_name)))

-- the condition on one dimension
abbrev pub dimension : String → String → String
dimension key value =
    let element = "element_at(dimensions, '" <> (key <> "')") in
    if value == "null" then element <> " IS NULL" else element <> (" = " <> quoted value)

-- the conditions on the dimensions of a combination
unfoldable pub dimension_conditions : Dict String → Result Raised (List String)
dimension_conditions [] = ok []
dimension_conditions ((key, value) ∷ filters) = do
  sanitized_value ← sanitized value
  rest ← dimension_conditions filters
  ok (dimension key sanitized_value ∷ rest)

abbrev pub has_dimension : String → String
has_dimension key = "contains(map_keys(dimensions), '" <> (key <> "')")

abbrev pub where_text : List String → String
where_text [] = ""
where_text (c ∷ conditions) = " WHERE " <> join " AND " (c ∷ conditions)

unfoldable pub live_query : String → String → String → String → List String → String
live_query catalog schema collection property_name conditions =
    "SELECT DISTINCT "
    <> (property_name
        <> (" FROM "
            <> (catalog
                <> ("."
                    <> (schema
                        <> ("."
                            <> (collection
                                <> (where_text conditions <> (" ORDER BY " <> property_name)))))))))

-- an answer that is empty or an error is none
abbrev pub held :
    {Value : Type 0} → (Value → Value) → Result Raised (List Value) → Option (List Value)
held prepare (ok []) = none
held prepare (ok (value ∷ values)) = some (map prepare (value ∷ values))
held prepare (err e) = none

abbrev pub or_live :
    {Value : Type 0} → Option (List Value) → Result Raised (List Value) → Result Raised (List Value)
or_live (some values) live = ok values
or_live none live = live

-- an HTTP error passes, any other exception becomes a 500
abbrev pub or_500 {ℓ} :
    {A : Type ℓ} → (Raised → String) → String → Result Raised A → Result Raised A
or_500 str_of detail (ok a) = ok a
or_500 str_of detail (err (http_exception e)) = err (http_exception e)
or_500 str_of detail (err (exception e)) =
    err (http_exception (http 500 (detail <> (": " <> str_of (exception e)))))

module _ (catalog schema : String) (requires_current_snapshot : Bool) where
  abbrev pub snapshot_conditions : String → List String
  snapshot_conditions collection =
      if requires_current_snapshot
      then ("source_snapshot_id = ( SELECT CAST(value AS BIGINT) FROM "
          <> (catalog
              <> ("."
                  <> (schema
                      <> (".\""
                          <> (collection
                              <> "$properties\" WHERE key = 'current-snapshot-id' )"))))))
        ∷ []
      else []

  unfoldable pub cached_query : String → String → Dict String → Result Raised String
  cached_query collection property_name filters = do
    dimensions ← dimension_conditions filters
    let conditions =
        (("source_table = " <> quoted collection)
          ∷ map has_dimension (property_name ∷ keys filters))
        ++ (dimensions ++ snapshot_conditions collection)
    ok (
        "SELECT DISTINCT element_at(dimensions, '"
        <> (property_name
            <> ("') AS "
                <> (property_name
                    <> (" FROM "
                        <> (catalog
                            <> ("."
                                <> (schema
                                    <> (".queryable_combinations WHERE "
                                        <> (join " AND " conditions
                                            <> (" ORDER BY " <> property_name)))))))))))

  module _ {Value : Type 0} (execute : String → Result Raised (List Value))
      (prepare : Value → Value) where
    unfoldable pub query_cached_values :
        String → String → Dict String → Result Raised (Option (List Value))
    query_cached_values collection property_name filters = do
      query ← cached_query collection property_name filters
      ok (held prepare (execute query))

    -- the query of the table itself
    unfoldable pub query_values :
        String → String → Dict String → List String → Result Raised (List Value)
    query_values collection property_name filters conditions = do
      values ← execute (live_query catalog schema collection property_name conditions)
      ok (map prepare values)

    unfoldable pub values_of :
        CollectionSchema → String → String → Dict String → List String → Result Raised (List Value)
    values_of described collection property_name filters conditions =
        let live = query_values collection property_name filters conditions in
        if contains property_name (or_default described.group_by [])
        then (query_cached_values collection property_name filters >>= λ cached.
            or_live cached live)
        else live

    -- `build` is `_build_collection_schema`
    unfoldable pub answer_values :
        (String → Result Raised CollectionSchema)
        → String
        → String
        → String
        → String
        → Dict String
        → Result Raised (List Value)
    answer_values build collection_id property_name collection safe_property filters = do
      described ← build collection_id
      validate_queryable_property described property_name
      verify_filtered_columns (filter_schema described) (keys filters) true
      conditions ← build_equality_filter_conditions filters
      values_of described collection safe_property filters conditions

    -- The sanitiser accepts no empty text, so the second test never fails.
    unfoldable pub get_queryable_values :
        (String → Result Raised CollectionSchema)
        → (Raised → String)
        → String
        → String
        → Dict String
        → Result Raised (List Value)
    get_queryable_values build str_of collection_id property_name query_params = do
      collection ← sanitized collection_id
      safe_property ← sanitized property_name
      raise_if (collection == "" || safe_property == "")
          (http_exception (http 400 "Invalid collection or property name"))
      or_500 str_of ("Failed to get values for " <> property_name)
          (answer_values build collection_id property_name collection safe_property query_params)
