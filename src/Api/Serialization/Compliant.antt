-- ===== src/Api/Serialization/Compliant.antt =====
-- What the frames of api/src/routes/utils.py hold when they are serialized.
use teehr_cloud_core.Base.{
  String, ◌≡◌, refl, ◌⊎◌, inl, inr, Bool, true, false, Option, List, [], ◌∷◌, map, All, Bool-cases,
  or_default,
}
use teehr_cloud_core.Api.Serialization.{
  format_columns, null_if, null_cells, prepare_for_serialization,
}

module _ {Cell Time : Type 0} (null : Cell) (to_datetime : Cell → Option Time)
    (strftime : Time → Cell) (is_na is_inf : Cell → Bool) where
  -- JSON has a value for the cell.
  abbrev pub IsCompliant : Cell → Type 0
  IsCompliant cell = (cell ≡ null) ⊎ ((is_na cell ≡ false) × (is_inf cell ≡ false))

  null_if-twice :
      (cell : Cell)
      → IsCompliant (
          null_if null to_datetime strftime is_na is_inf is_inf
            (null_if null to_datetime strftime is_na is_inf is_na cell))
  null_if-twice cell = elim (Bool-cases (is_na cell)) [
    | inl na ↦
        rw na
          (elim (Bool-cases (is_inf null)) [ inl t ↦ rw t (inl refl) | inr f ↦ rw f (inl refl) ])
    | inr n ↦
        rw n
          (elim (Bool-cases (is_inf cell)) [ inl t ↦ rw t (inl refl) | inr f ↦ rw f (inr (n, f)) ])
  ]

  cells-IsCompliant :
      (cells : List Cell)
      → All IsCompliant (
          map
            (null_if null to_datetime strftime is_na is_inf is_inf)
            (map (null_if null to_datetime strftime is_na is_inf is_na) cells))
  cells-IsCompliant [] = tt
  cells-IsCompliant (cell ∷ cells) = (null_if-twice cell, cells-IsCompliant cells)

  columns-IsCompliant :
      (df : List (String × List Cell))
      → All
          (λ (column : String × List Cell). All IsCompliant column.1)
          (map
            (null_cells null to_datetime strftime is_na is_inf is_inf)
            (map (null_cells null to_datetime strftime is_na is_inf is_na) df))
  columns-IsCompliant [] = tt
  columns-IsCompliant ((column, cells) ∷ df) = (cells-IsCompliant cells, columns-IsCompliant df)

  -- Every cell that is serialized is null, or is neither missing nor infinite.
  pub prepare_for_serialization-IsCompliant :
      (datetime_columns : Option (List String)) (df : List (String × List Cell))
      → All
          (λ (column : String × List Cell). All IsCompliant column.1)
          (prepare_for_serialization null to_datetime strftime is_na is_inf datetime_columns true
            true df)
  unfolding prepare_for_serialization
  prepare_for_serialization-IsCompliant datetime_columns df = columns-IsCompliant (
      format_columns null to_datetime strftime is_na is_inf
        (or_default datetime_columns ("created_at" ∷ "updated_at" ∷ [])) df)
