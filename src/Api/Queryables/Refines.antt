-- ===== src/Api/Queryables/Refines.antt =====
-- The table of combinations against the tables themselves.
use teehr_cloud_core.Base.{
  map, ◌∙◌, String, ◌≡◌, refl, ap, inl, inr, Bool, true, List, [], ◌∷◌, Bool-cases, contains,
  or_default, ◌==◌, ◌<>◌, ◌||◌, Result, ok, err, ◌>>=◌, ◌>>◌, raise_if, http,
}
use mathlib.Core.Path.{fun_ext}
use teehr_cloud_core.Base.Dict.{Dict, keys}
use teehr_cloud_core.Api.Sql.{
  Raised, http_exception, sanitized, verify_filtered_columns, build_equality_filter_conditions,
}
use teehr_cloud_core.Api.Queryables.{CollectionSchema, filter_schema}
use teehr_cloud_core.Api.Queryables.Values.{
  validate_queryable_property, cached_query, query_cached_values, query_values, values_of,
  answer_values, or_500, get_queryable_values,
}
use teehr_cloud_core.Api.Queryables.Texts.{
  safe_filters, dimension_conditions-safe_filters, combinations_text, table_text, live_query-text,
  cached_query-text,
}

module _ (catalog schema : String) (requires_current_snapshot : Bool) {Value : Type 0}
    (execute : String → Result Raised (List Value)) (prepare : Value → Value) where
  -- Where the table of combinations answers this question with values, the table itself answers with the
  -- same.
  abbrev pub Faithful : Type 0
  Faithful =
      (collection property_name : String) (filters safe : Dict String) (conditions : List String)
      (value : Value) (values : List Value)
      → build_equality_filter_conditions filters ≡ ok conditions
      → safe_filters filters ≡ ok safe
      → execute
          (combinations_text catalog schema requires_current_snapshot collection property_name safe)
        ≡ ok (value ∷ values)
      → execute
          (table_text catalog schema requires_current_snapshot collection property_name conditions)
        ≡ ok (value ∷ values)

  -- The handler without the table of combinations.
  abbrev pub answer_live :
      (String → Result Raised CollectionSchema)
      → String
      → String
      → String
      → String
      → Dict String
      → Result Raised (List Value)
  answer_live build collection_id property_name collection safe_property filters = do
    described ← build collection_id
    validate_queryable_property described property_name
    verify_filtered_columns (filter_schema described) (keys filters) true
    conditions ← build_equality_filter_conditions filters
    values ←
        execute
          (table_text catalog schema requires_current_snapshot collection safe_property conditions)
    ok (map prepare values)

  abbrev pub get_values_live :
      (String → Result Raised CollectionSchema)
      → (Raised → String)
      → String
      → String
      → Dict String
      → Result Raised (List Value)
  get_values_live build str_of collection_id property_name query_params = do
    collection ← sanitized collection_id
    safe_property ← sanitized property_name
    raise_if (collection == "" || safe_property == "")
        (http_exception (http 400 "Invalid collection or property name"))
    or_500 str_of ("Failed to get values for " <> property_name)
        (answer_live build collection_id property_name collection safe_property query_params)

  query_values-text :
      (collection property_name : String) (filters : Dict String) (conditions : List String)
      → query_values catalog schema requires_current_snapshot execute prepare collection
          property_name filters conditions
        ≡ (execute (
              table_text catalog schema requires_current_snapshot collection property_name
                conditions)
            >>= λ values. ok (map prepare values))
  unfolding query_values
  query_values-text collection property_name filters conditions =
      rw
        (live_query-text catalog schema requires_current_snapshot collection property_name
          conditions)
        refl

  module _ (faithful : Faithful) where
    answered :
        (described : CollectionSchema) (collection property_name : String)
        (filters safe : Dict String) (conditions : List String)
        → build_equality_filter_conditions filters ≡ ok conditions
        → safe_filters filters ≡ ok safe
        → contains property_name (or_default described.group_by []) ≡ true
        → cached_query catalog schema requires_current_snapshot collection property_name filters
          ≡ ok (
              combinations_text catalog schema requires_current_snapshot collection property_name
                safe)
        → (answer : Result Raised (List Value))
        → execute (
            combinations_text catalog schema requires_current_snapshot collection property_name
              safe)
          ≡ answer
        → values_of catalog schema requires_current_snapshot execute prepare described collection
            property_name filters conditions
          ≡ query_values catalog schema requires_current_snapshot execute prepare collection
              property_name filters conditions
    unfolding values_of query_cached_values query_values
    answered described collection property_name filters safe conditions built s e f (err fault) g =
        rw (values_of, e, query_cached_values, f, g) refl
    answered described collection property_name filters safe conditions built s e f (ok []) g =
        rw (values_of, e, query_cached_values, f, g) refl
    answered described collection property_name filters safe conditions built s e f
          (ok (value ∷ values)) g =
        let same =
          faithful collection property_name filters safe conditions value values built s g in
        rw
          (
            values_of,
            e,
            query_cached_values,
            f,
            g,
            query_values,
            live_query-text catalog schema requires_current_snapshot collection property_name
                conditions,
            same,
          )
          refl

    values_of-live :
        (described : CollectionSchema) (collection property_name : String) (filters : Dict String)
        (conditions : List String)
        → build_equality_filter_conditions filters ≡ ok conditions
        → values_of catalog schema requires_current_snapshot execute prepare described collection
            property_name filters conditions
          ≡ query_values catalog schema requires_current_snapshot execute prepare collection
              property_name filters conditions
    unfolding values_of query_cached_values query_values cached_query
    values_of-live described collection property_name filters conditions built =
        elim (Bool-cases (contains property_name (or_default described.group_by []))) [
          | inr e ↦ rw (values_of, e) refl
          | inl e ↦
              let (safe, s, d, names) =
                dimension_conditions-safe_filters filters conditions built in
              let asked : cached_query catalog schema requires_current_snapshot collection
                    property_name filters
                  ≡ ok (
                      combinations_text catalog schema requires_current_snapshot collection
                        property_name safe) =
                cached_query-text catalog schema requires_current_snapshot collection property_name
                  filters safe d names in
              answered described collection property_name filters safe conditions built s e asked
                (execute (
                  combinations_text catalog schema requires_current_snapshot collection
                    property_name safe))
                refl
        ]

    answer_values-live :
        (build : String → Result Raised CollectionSchema)
        (collection_id property_name collection safe_property : String) (filters : Dict String)
        → answer_values catalog schema requires_current_snapshot execute prepare build collection_id
            property_name collection safe_property filters
          ≡ answer_live build collection_id property_name collection safe_property filters
    unfolding answer_values
    answer_values-live build collection_id property_name collection safe_property filters =
        ap (λ rest. build collection_id >>= rest)
          (fun_ext (λ described.
            ap
              (λ (rest : Result Raised (List Value)).
                validate_queryable_property described property_name
                >> (verify_filtered_columns (filter_schema described) (keys filters) true >> rest))
              (last described (build_equality_filter_conditions filters) refl)))
      where
        last :
            (described : CollectionSchema) (built : Result Raised (List String))
            → build_equality_filter_conditions filters ≡ built
            → (built >>= λ conditions.
                values_of catalog schema requires_current_snapshot execute prepare described
                  collection safe_property filters conditions)
              ≡ (built >>= λ conditions.
                  (execute (
                      table_text catalog schema requires_current_snapshot collection safe_property
                        conditions)
                    >>= λ values. ok (map prepare values)))
        last described (err fault) e = refl
        last described (ok conditions) e =
            values_of-live described collection safe_property filters conditions e
            ∙ query_values-text collection safe_property filters conditions

    -- If the table of combinations, wherever it has values of a dimension in the combinations of a collection
    -- that have the dimensions and the values of the filters, has those that the collection's table has
    -- under the same filters, then the handler of a property's values gives, for every request, what it
    -- would give by asking the collection's table alone.
    pub get_queryable_values-live :
        (build : String → Result Raised CollectionSchema) (str_of : Raised → String)
        (collection_id property_name : String) (query_params : Dict String)
        → get_queryable_values catalog schema requires_current_snapshot execute prepare build str_of
            collection_id property_name query_params
          ≡ get_values_live build str_of collection_id property_name query_params
    unfolding get_queryable_values
    get_queryable_values-live build str_of collection_id property_name query_params =
        ap (λ rest. sanitized collection_id >>= rest)
          (fun_ext (λ collection.
            ap (λ rest. sanitized property_name >>= rest)
              (fun_ext (λ safe_property.
                ap
                  (λ (answer : Result Raised (List Value)).
                    raise_if (collection == "" || safe_property == "")
                      (http_exception (http 400 "Invalid collection or property name"))
                    >> or_500 str_of ("Failed to get values for " <> property_name) answer)
                  (answer_values-live build collection_id property_name collection safe_property
                    query_params)))))
