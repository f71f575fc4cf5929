-- ===== src/Api/Serialization.antt =====
-- api/src/routes/utils.py: prepare_for_serialization, on a frame as its columns. What pandas makes of a cell
-- is a parameter; `none` of `to_datetime` is NaT.
pub mod Compliant
mod Tests
use teehr_cloud_core.Base.{
  String, Bool, true, false, Option, none, some, List, [], ◌∷◌, map, if◌then◌else◌, ◌==◌,
  or_default,
}

module _ {Cell Time : Type 0} (null : Cell) (to_datetime : Cell → Option Time)
    (strftime : Time → Cell) (is_na is_inf : Cell → Bool) where
  abbrev pub format_cell : Cell → Cell
  format_cell cell = elim (to_datetime cell) [ none ↦ null | some t ↦ strftime t ]

  -- `df[col] = ...` if the frame has the column
  abbrev pub format_column : String → String × List Cell → String × List Cell
  format_column name (column, cells) =
      if column == name then (column, map format_cell cells) else (column, cells)

  -- the loop over `datetime_columns`
  unfoldable pub format_columns :
      List String → List (String × List Cell) → List (String × List Cell)
  format_columns [] df = df
  format_columns (name ∷ columns) df = format_columns columns (map (format_column name) df)

  abbrev pub null_if : (Cell → Bool) → Cell → Cell
  null_if test cell = if test cell then null else cell

  abbrev pub null_cells : (Cell → Bool) → String × List Cell → String × List Cell
  null_cells test (column, cells) = (column, map (null_if test) cells)

  abbrev pub replaced : Bool → (Cell → Bool) → List (String × List Cell) → List (String × List Cell)
  replaced true test df = map (null_cells test) df
  replaced false test df = df

  unfoldable pub prepare_for_serialization :
      Option (List String) → Bool → Bool → List (String × List Cell) → List (String × List Cell)
  unfolding format_columns
  prepare_for_serialization datetime_columns replace_nan replace_inf df =
      replaced replace_inf is_inf (
        replaced replace_nan is_na
          (format_columns (or_default datetime_columns ("created_at" ∷ "updated_at" ∷ [])) df))
