-- ===== src/Api/Features/Ids.antt =====
-- The ids of the features of a collection.
use mathlib.Core.Option.{some-injective}
use teehr_cloud_core.Base.{
  ℕ, suc, String, ◌≡◌, refl, ap, ◌∙◌, inl, inr, true, false, Option, some, List, [], ◌∷◌, map,
  arith, Bool-cases, Option-cases, contains, All,
}
use teehr_cloud_core.Base.Dict.{Dict, lookup, keys, has_key-contains}
use teehr_cloud_core.Api.Links.{get_id_column}
use teehr_cloud_core.Api.Features.{
  Geometry, Feature, id_from, set_feature_id, rounded, features_from, features_of,
}

-- a column that is there gives the id, another leaves it
id_from-there :
    {Value : Type 0} (name : String) (row : Dict Value) (id : Option Value)
    → contains name (keys row) ≡ true
    → id_from name row id ≡ lookup name row
id_from-there name row id e = elim (Option-cases (lookup name row)) [
  | inl f ↦ absurd (ground (arith, has_key-contains name row, f))
  | inr (value, f) ↦ rw f refl
]

id_from-absent :
    {Value : Type 0} (name : String) (row : Dict Value) (id : Option Value)
    → contains name (keys row) ≡ false
    → id_from name row id ≡ id
id_from-absent name row id e = elim (Option-cases (lookup name row)) [
  | inl f ↦ rw f refl
  | inr (value, f) ↦ absurd (ground (arith, has_key-contains name row, f))
]

-- What the rows of a collection have in common.
abbrev pub HaveIdColumn : {Value : Type 0} → String → List (Dict Value) → Type 0
HaveIdColumn column rows = All (λ row. get_id_column (keys row) ≡ some column) rows

module _ {Value Number : Type 0} where
  pub set_feature_id-column :
      (feature : Feature Value Number) (column : String)
      → get_id_column (keys feature.properties) ≡ some column
      → (set_feature_id feature).id ≡ lookup column feature.properties
  unfolding get_id_column set_feature_id
  set_feature_id-column feature column e =
      let names = keys feature.properties in
      elim (Bool-cases (contains "location_id" names)) [
        | inl f ↦
            let same : "location_id" ≡ column = some-injective _ _ (rw (get_id_column, f) at e) in
            id_from-there "location_id" feature.properties _ f
            ∙ ap (λ c. lookup c feature.properties) same
        | inr f ↦ elim (Bool-cases (contains "primary_location_id" names)) [
          | inl g ↦
              let same : "primary_location_id" ≡ column =
                some-injective _ _ (rw (get_id_column, f, g) at e) in
              id_from-absent "location_id" feature.properties _ f
              ∙ id_from-there "primary_location_id" feature.properties _ g
              ∙ ap (λ c. lookup c feature.properties) same
          | inr g ↦ cc (rw (get_id_column, f, g) at e)
        ]
      ]

  finished_ids :
      (round : Number → Number) (number_id : ℕ → Value) (column : String) (n : ℕ)
      (rows : List (Dict Value)) (shapes : List (Geometry Number))
      → HaveIdColumn column rows
      → All
          (λ (feature : Feature Value Number). feature.id ≡ lookup column feature.properties)
          (map
            (λ feature.
              set_feature_id (record feature { geometry = rounded round feature.geometry }))
            (features_from number_id n rows shapes))
  unfolding features_from set_feature_id
  finished_ids round number_id column n [] shapes h = tt
  finished_ids round number_id column n (row ∷ rows) [] h = tt
  finished_ids round number_id column n (row ∷ rows) (shape ∷ shapes) (e, h) = (
    set_feature_id-column
        (record { id = some (number_id n); properties = row; geometry = rounded round shape })
        column e,
    finished_ids round number_id column (suc n) rows shapes h,
  )

  -- If the id column of every row of a collection is the same column, then the id of every feature of the
  -- response is its value in that column.
  pub features_of-ids :
      {Bytes : Type 0} (from_wkb : Bytes → Geometry Number) (round : Number → Number)
      (number_id : ℕ → Value) (chunk_size first_label : ℕ) (column : String)
      (rows : List (Dict Value)) (geometries : List Bytes)
      → HaveIdColumn column rows
      → All
          (λ (feature : Feature Value Number). feature.id ≡ lookup column feature.properties)
          (features_of from_wkb round number_id chunk_size first_label rows geometries)
  unfolding features_of
  features_of-ids from_wkb round number_id chunk_size first_label column rows geometries h =
      finished_ids round number_id column first_label rows _ h
