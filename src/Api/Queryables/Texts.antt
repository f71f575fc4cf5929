-- ===== src/Api/Queryables/Texts.antt =====
-- What api/src/routes/queryables.py asks for the values of a property, written out apart from its code.
use teehr_cloud_core.Base.{
  map, ◌++◌, if◌then◌else◌, String, ◌≡◌, refl, ap, Bool, List, [], ◌∷◌, ◌==◌, ◌<>◌, Result, ok,
  ◌>>=◌, >>=-passed,
}
use teehr_cloud_core.Base.Dict.{Dict, keys}
use teehr_cloud_core.Api.Sql.{Raised, sanitized, join, quoted, build_equality_filter_conditions}
use teehr_cloud_core.Api.Queryables.Values.{dimension_conditions, cached_query, live_query}

-- The values of the filters as they stand in a query.
unfoldable pub safe_filters : Dict String → Result Raised (Dict String)
safe_filters [] = ok []
safe_filters ((key, value) ∷ filters) = do
  safe_value ← sanitized value
  rest ← safe_filters filters
  ok ((key, safe_value) ∷ rest)

-- The test that a combination has a dimension, and that it has the value, where "null" is none.
abbrev pub has_key_test : String → String
has_key_test key = "contains(map_keys(dimensions), '" <> (key <> "')")

abbrev pub value_test : String × String → String
value_test (key, value) =
    let element = "element_at(dimensions, '" <> (key <> "')") in
    if value == "null" then element <> " IS NULL" else element <> (" = " <> quoted value)

safe_filters-cons :
    (column value safe_value : String) (filters safe : Dict String)
    → sanitized value ≡ ok safe_value
    → safe_filters filters ≡ ok safe
    → safe_filters ((column, value) ∷ filters) ≡ ok ((column, safe_value) ∷ safe)
unfolding safe_filters
safe_filters-cons column value safe_value filters safe f h = rw (f, h) refl

dimension_conditions-cons :
    (column value safe_value : String) (filters : Dict String) (dimensions : List String)
    → sanitized value ≡ ok safe_value
    → dimension_conditions filters ≡ ok dimensions
    → dimension_conditions ((column, value) ∷ filters)
      ≡ ok (value_test (column, safe_value) ∷ dimensions)
unfolding dimension_conditions
dimension_conditions-cons column value safe_value filters dimensions f h = rw (f, h) refl

-- Filters whose conditions are built have safe values, and so the conditions on the dimensions.
pub dimension_conditions-safe_filters :
    (filters : Dict String) (conditions : List String)
    → build_equality_filter_conditions filters ≡ ok conditions
    → (safe : Dict String) × (safe_filters filters ≡ ok safe)
      × (dimension_conditions filters ≡ ok (map value_test safe))
      × (keys filters ≡ keys safe)
unfolding build_equality_filter_conditions dimension_conditions safe_filters
dimension_conditions-safe_filters [] conditions e = ([], refl, refl, refl)
dimension_conditions-safe_filters ((column, value) ∷ filters) conditions e =
    let (_, _, e1) = >>=-passed (sanitized column) _ e in
    let (safe_value, f, e2) = >>=-passed (sanitized value) _ e1 in
    let (rest, g, _) = >>=-passed (build_equality_filter_conditions filters) _ e2 in
    let (safe, h, k, names) = dimension_conditions-safe_filters filters rest g in
    (
      (column, safe_value) ∷ safe,
      safe_filters-cons column value safe_value filters safe f h,
      dimension_conditions-cons column value safe_value filters (map value_test safe) f k,
      ap (◌∷◌ column) names,
    )

module _ (catalog schema : String) (requires_current_snapshot : Bool) where
  -- The test that a combination is of the current snapshot of its table.
  abbrev pub snapshot_tests : String → List String
  snapshot_tests collection =
      if requires_current_snapshot
      then ("source_snapshot_id = ( SELECT CAST(value AS BIGINT) FROM "
          <> (catalog
              <> ("."
                  <> (schema
                      <> (".\""
                          <> (collection
                              <> "$properties\" WHERE key = 'current-snapshot-id' )"))))))
        ∷ []
      else []

  -- What is asked of the table of combinations: the values of a dimension in the combinations of the
  -- collection that have that dimension and those of the filters, with the values of the filters.
  abbrev pub combinations_text : String → String → Dict String → String
  combinations_text collection property_name safe =
      let tests =
        (("source_table = " <> quoted collection)
          ∷ has_key_test property_name
          ∷ map has_key_test (keys safe))
        ++ (map value_test safe ++ snapshot_tests collection) in
      "SELECT DISTINCT element_at(dimensions, '"
      <> (property_name
          <> ("') AS "
              <> (property_name
                  <> (" FROM "
                      <> (catalog
                          <> ("."
                              <> (schema
                                  <> (".queryable_combinations WHERE "
                                      <> (join " AND " tests
                                          <> (" ORDER BY " <> property_name))))))))))

  -- What is asked of the table itself, where there are conditions and where there are none.
  abbrev pub table_text : String → String → List String → String
  table_text collection property_name conditions =
      let where_part : String = elim conditions [
        | [] ↦ ""
        | c ∷ others ↦ " WHERE " <> join " AND " (c ∷ others)
      ] in
      "SELECT DISTINCT "
      <> (property_name
          <> (" FROM "
              <> (catalog
                  <> ("."
                      <> (schema
                          <> ("."
                              <> (collection
                                  <> (where_part <> (" ORDER BY " <> property_name)))))))))

  pub live_query-text :
      (collection property_name : String) (conditions : List String)
      → live_query catalog schema collection property_name conditions
        ≡ table_text collection property_name conditions
  unfolding live_query
  live_query-text collection property_name [] = refl
  live_query-text collection property_name (c ∷ conditions) = refl

  pub cached_query-text :
      (collection property_name : String) (filters safe : Dict String)
      → dimension_conditions filters ≡ ok (map value_test safe)
      → keys filters ≡ keys safe
      → cached_query catalog schema requires_current_snapshot collection property_name filters
        ≡ ok (combinations_text collection property_name safe)
  unfolding cached_query
  cached_query-text collection property_name filters safe d names = rw (cached_query, d, names) refl
