-- ===== src/Api/Queryables/Schemas.antt =====
-- The properties of the schema of a metrics table.
use teehr_cloud_core.Base.{
  String, ◌≡◌, refl, ap, ◌∙◌, inl, inr, not, ◌&&◌, ◌||◌, Option, List, [], ◌∷◌, arith, eq_iff,
  eq_refl, if◌then◌else◌, Bool-cases, contains, or_default, ◌==◌,
}
use teehr_cloud_core.Base.Dict.{Dict, lookup, insert, has_key, lookup-insert}
use teehr_cloud_core.Api.FixedCollections.{Property, primary_geometry}
use teehr_cloud_core.Api.Links.{get_id_column}
use teehr_cloud_core.Api.Queryables.{
  TableProperties, add_group_fields, add_metric_fields, group_property, metric_property,
  metrics_schema,
}

has_key-insert :
    (name field : String) (value : Property) (d : Dict Property)
    → has_key name (insert field value d) ≡ (field == name || has_key name d)
has_key-insert name field value d =
    rw (lookup-insert field name value d)
      (elim (Bool-cases (field == name)) [ inl e ↦ rw e refl | inr e ↦ rw e refl ])

-- the geometry is listed before the other fields
geometry-first :
    (name : String) (fields : List String)
    → (has_key name (if contains "geometry" fields then ("geometry", primary_geometry) ∷ [] else [])
        || (contains name fields && not (name == "geometry")))
      ≡ contains name fields
unfolding lookup
geometry-first name fields = elim (Bool-cases (contains "geometry" fields)) [
  | inl e ↦ rw e (elim (Bool-cases (name == "geometry")) [
    | inl f ↦
        let same : name ≡ "geometry" = (eq_iff name "geometry").0 f in
        rw same (rw (eq_refl "geometry", e) refl)
    | inr f ↦ ground (arith, f, eq_iff name "geometry", eq_iff "geometry" name)
  ])
  | inr e ↦ rw e (elim (Bool-cases (name == "geometry")) [
    | inl f ↦ let same : name ≡ "geometry" = (eq_iff name "geometry").0 f in rw same (rw e refl)
    | inr f ↦
        rw f (elim (Bool-cases (contains name fields)) [ inl g ↦ rw g refl | inr g ↦ rw g refl ])
  ])
]

module _ (title : String → String) where
  add_metric_fields-has_key :
      (name : String) (d : Dict Property) (fields : List String)
      → has_key name (add_metric_fields title d fields) ≡ (has_key name d || contains name fields)
  unfolding add_metric_fields
  add_metric_fields-has_key name d [] = ground arith
  add_metric_fields-has_key name d (field ∷ fields) =
      add_metric_fields-has_key name (insert field (metric_property title field) d) fields
      ∙ rw (has_key-insert name field (metric_property title field) d)
          (ground (arith, eq_iff field name, eq_iff name field))

  add_group_fields-has_key :
      (name : String) (id : Option String) (d : Dict Property) (fields : List String)
      → has_key name (add_group_fields title id d fields)
        ≡ (has_key name d || (contains name fields && not (name == "geometry")))
  unfolding add_group_fields
  add_group_fields-has_key name id d [] = ground arith
  add_group_fields-has_key name id d (field ∷ fields) = elim (Bool-cases (field == "geometry")) [
    | inl e ↦ rw e (
        add_group_fields-has_key name id d fields
        ∙ ground (
          arith,
          eq_iff field name,
          eq_iff name field,
          eq_iff field "geometry",
          eq_iff name "geometry",
        ))
    | inr e ↦ rw e (
        add_group_fields-has_key name id (insert field (group_property title id field) d) fields
        ∙ rw (has_key-insert name field (group_property title id field) d) (
            ground (
              arith,
              eq_iff field name,
              eq_iff name field,
              eq_iff field "geometry",
              eq_iff name "geometry",
            )))
  ]

  -- The properties of the schema of a metrics table are exactly the fields that the table is grouped by
  -- and its metrics.
  pub metrics_schema-properties :
      (table_name : String) (meta : TableProperties) (name : String)
      → has_key name (metrics_schema title table_name meta).properties ≡ (
          contains name (or_default meta.group_by []) || contains name (or_default meta.metrics []))
  unfolding metrics_schema
  metrics_schema-properties table_name meta name =
      let group_by = or_default meta.group_by [] in
      let metrics = or_default meta.metrics [] in
      let geometry =
        if contains "geometry" group_by then ("geometry", primary_geometry) ∷ [] else [] in
      add_metric_fields-has_key name
        (add_group_fields title (get_id_column group_by) geometry group_by) metrics
      ∙ ap (λ b. b || contains name metrics)
          (add_group_fields-has_key name (get_id_column group_by) geometry group_by
            ∙ geometry-first name group_by)
