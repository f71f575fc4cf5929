-- ===== src/Api/Collections/SchemaCache.antt =====
-- The cache of the schemas of api/src/routes/metrics.py against the descriptions of the tables.
use mathlib.Core.Option.{some-injective}
use teehr_cloud_core.Base.{
  ℕ, ◌+◌, ◌-◌, ◌≤◌, ◌<◌, String, ◌≡◌, refl, sym, ap, ◌∙◌, inl, inr, Option, none, some, arith,
  eq_iff, ltb, Bool-cases, Option-cases, ◌==◌, Result, ok, err, Result-cases, ok-injective,
  >>=-passed,
}
use teehr_cloud_core.Base.Dict.{Dict, lookup, insert, lookup-insert}
use teehr_cloud_core.Api.Identity.{Limits}
use teehr_cloud_core.Api.Features.{Geometry}
use teehr_cloud_core.Api.Queryables.{CollectionSchema}
use teehr_cloud_core.Api.Queryables.Values.{or_500}
use teehr_cloud_core.Api.Sql.{Raised, http_exception, exception, sanitized}
use teehr_cloud_core.Api.Collections.{
  schema_cache_ttl_seconds, SchemaCache, fresh_schema, get_collection_schema, Frame, ItemsRequest,
  ItemsResponse, answer_items, get_collection_items,
}

module _ (Described : ℕ → String → CollectionSchema → Type 0) where
  -- Every schema of the cache is a description of its table from the time at which it was kept.
  abbrev pub Sound : SchemaCache → Type 0
  Sound cache =
      (table : String) (at : ℕ) (schema : CollectionSchema)
      → lookup table cache ≡ some (at, schema)
      → Described at table schema

  abbrev pub Recent : ℕ → String → CollectionSchema → Type 0
  Recent now table schema =
      (at : ℕ) × (now < at + schema_cache_ttl_seconds) × Described at table schema

  fresh_schema-Recent :
      (now : ℕ) (table : String) (entry : Option (ℕ × CollectionSchema)) (schema : CollectionSchema)
      → ((at : ℕ) (s : CollectionSchema) → entry ≡ some (at, s) → Described at table s)
      → fresh_schema now entry ≡ some schema
      → Recent now table schema
  fresh_schema-Recent now table none schema source e = cc
  fresh_schema-Recent now table (some (at, s)) schema source e =
      elim (Bool-cases (ltb (now - at) schema_cache_ttl_seconds)) [
        | inl f ↦
            let same : s ≡ schema = some-injective _ _ (rw f at e) in
            (at, ground arith, rw (← same) (source at s refl))
        | inr f ↦ absurd (ground (arith, rw f at e))
      ]

  module _ (describe : String → Result Raised CollectionSchema) (now stored_at : ℕ)
      (in_order : now ≤ stored_at)
      (answers : (table : String) (schema : CollectionSchema)
        → describe table ≡ ok schema
        → Described stored_at table schema) where
    insert-Sound :
        (cache : SchemaCache) (table : String) (schema : CollectionSchema)
        → Sound cache
        → describe table ≡ ok schema
        → Sound (insert table (stored_at, schema) cache)
    insert-Sound cache table schema sound e t at s f =
        let g = sym (lookup-insert table t (stored_at, schema) cache) ∙ f in
        elim (Bool-cases (table == t)) [
          | inl same ↦
              let pair : (stored_at, schema) ≡ (at, s) = some-injective _ _ (rw same at g) in
              let here : table ≡ t = (eq_iff table t).0 same in
              rw (← here, ← ap (λ p. p.0) pair, ← ap (λ p. p.1) pair) (answers table schema e)
          | inr other ↦ sound t at s (rw other at g)
        ]

    schema-Sound :
        (table : String) (cache : SchemaCache)
        → Sound cache
        → Sound (get_collection_schema describe now stored_at table cache).0
          × ((schema : CollectionSchema)
              → (get_collection_schema describe now stored_at table cache).1 ≡ ok schema
              → Recent now table schema)
    unfolding get_collection_schema
    schema-Sound table cache sound = elim (Option-cases (fresh_schema now (lookup table cache))) [
      | inr (s, e) ↦
          rw (get_collection_schema, e)
            (
              sound,
              λ schema f.
                  rw (← ok-injective _ _ f)
                    (fresh_schema-Recent now table (lookup table cache) s (sound table) e),
            )
      | inl e ↦ elim (Result-cases (describe table)) [
        | inl (s, f) ↦
            rw (get_collection_schema, e, f)
              (
                insert-Sound cache table s sound f,
                λ schema g. (stored_at, omega arith, rw (← ok-injective _ _ g) (answers table s f)),
              )
        | inr (fault, f) ↦ rw (get_collection_schema, e, f) (sound, λ schema g. cc)
      ]
    ]

    or_500_ok {ℓ} :
        {A : Type ℓ} (str_of : Raised → String) (detail : String) (r : Result Raised A) (a : A)
        → or_500 str_of detail r ≡ ok a
        → r ≡ ok a
    or_500_ok str_of detail (ok b) a e = e
    or_500_ok str_of detail (err (http_exception h)) a e = cc
    or_500_ok str_of detail (err (exception text)) a e = cc

    module _ (limits : Limits) (catalog schema_name : String) (lower : String → String)
        {Value Number Bytes : Type 0} (execute : String → Result Raised (Frame Value Bytes))
        (prepare : Dict Value → Dict Value) (from_wkb : Bytes → Geometry Number)
        (round : Number → Number) (number_id : ℕ → Value) (chunk_size : ℕ)
        (str_of : Raised → String) where
      -- If a description of a table holds at the time at which it is kept, then a cache of descriptions
      -- remains one whatever the request and its outcome, and a response is the answer for a
      -- description of the collection's table that is less than 60 seconds old when the request is
      -- tested against the cache.
      pub get_collection_items-Sound :
          (collection_id : String) (request : ItemsRequest) (cache : SchemaCache)
          → Sound cache
          → Sound
              (get_collection_items limits catalog schema_name lower execute prepare from_wkb round
                number_id chunk_size describe str_of now stored_at collection_id request cache).0
            × ((response : ItemsResponse Value Number)
                → (get_collection_items limits catalog schema_name lower execute prepare from_wkb
                    round number_id chunk_size describe str_of now stored_at collection_id request
                    cache).1
                  ≡ ok response
                → (table : String) × (schema : CollectionSchema) × (sanitized collection_id
                    ≡ ok table)
                  × Recent now table schema
                  × (answer_items limits catalog schema_name lower execute prepare from_wkb round
                        number_id chunk_size collection_id table request schema
                      ≡ ok response))
      unfolding get_collection_items
      get_collection_items-Sound collection_id request cache sound =
          elim (Result-cases (sanitized collection_id)) [
            | inr (fault, e) ↦
                rw (get_collection_items, e)
                  (sound, λ response f. cc (or_500_ok str_of _ (err fault) response f))
            | inl (table, e) ↦
                let (kept, recent) = schema-Sound table cache sound in
                rw (get_collection_items, e)
                  (
                    kept,
                    λ response f.
                        let (schema, got, answered) =
                          >>=-passed (get_collection_schema describe now stored_at table cache).1 _
                            (or_500_ok str_of _ _ response f) in
                        (table, schema, refl, recent schema got, answered),
                  )
          ]
