-- ===== src/Api/Features/Chunks.antt =====
-- The geometries that are read in chunks, in terms of those of the column.
use mathlib.Core.List.{map-append}
use native.Mathlib.Nat.{div-add-mod', mod-lt, suc-mul, zero-mul}
use teehr_cloud_core.Base.{
  min, if◌then◌else◌, ℕ, zero, suc, ◌+◌, ◌-◌, ◌*◌, ◌≤◌, ◌<◌, ◌≡◌, refl, sym, ap, ◌∙◌, inl, inr,
  List, [], ◌∷◌, ◌++◌, map, arith, ltb, Bool-cases, length,
}
use teehr_cloud_core.Api.Records.Pages.{take, drop, take-drop, drop-drop}
use teehr_cloud_core.Api.Features.{
  Geometry, chunks_from, range_length, read_geometries, shape_at, aligned, no_geometry,
}

length-drop : {A : Type 0} (n : ℕ) (xs : List A) → length (drop n xs) ≡ length xs - n
length-drop zero xs = omega arith
length-drop (suc n) [] = omega arith
length-drop (suc n) (x ∷ xs) = omega (arith, length-drop n xs)

none_left : {A : Type 0} (xs : List A) → length xs ≤ 0 → xs ≡ []
none_left [] h = refl
none_left (x ∷ xs) h = absurd (omega arith)

length-map : {A B : Type 0} (f : A → B) (xs : List A) → length (map f xs) ≡ length xs
length-map f [] = refl
length-map f (x ∷ xs) = omega (arith, length-map f xs)

enough_chunks : (n step : ℕ) → 0 < step → n ≤ range_length n step * step
enough_chunks n step positive =
    let m = n + (step - 1) in omega (arith, div-add-mod' m step, mod-lt m positive)

module _ {Number : Type 0} where
  -- Rows without a geometry.
  unfoldable pub missing : ℕ → List (Geometry Number)
  missing zero = []
  missing (suc n) = no_geometry ∷ missing n

  shape_at-drop :
      (label : ℕ) (shapes : List (Geometry Number))
      → shape_at label shapes ≡ shape_at 0 (drop label shapes)
  unfolding shape_at
  shape_at-drop zero shapes = refl
  shape_at-drop (suc label) [] = refl
  shape_at-drop (suc label) (shape ∷ shapes) = shape_at-drop label shapes

  drop-suc : (n : ℕ) (xs : List (Geometry Number)) → drop (suc n) xs ≡ drop 1 (drop n xs)
  drop-suc zero xs = refl
  drop-suc (suc n) [] = refl
  drop-suc (suc n) (x ∷ xs) = drop-suc n xs

  aligned-missing :
      (label rows absent : ℕ) (shapes rest : List (Geometry Number))
      → drop label shapes ≡ rest
      → length rest + absent ≡ rows
      → aligned label rows shapes ≡ rest ++ missing absent
  unfolding aligned missing shape_at
  aligned-missing label zero zero shapes [] e h = refl
  aligned-missing label zero (suc absent) shapes [] e h = absurd (omega arith)
  aligned-missing label zero absent shapes (shape ∷ rest) e h = absurd (omega arith)
  aligned-missing label (suc rows) zero shapes [] e h = absurd (omega arith)
  aligned-missing label (suc rows) (suc absent) shapes [] e h =
      let first = shape_at-drop label shapes ∙ ap (shape_at 0) e in
      let later =
        aligned-missing (suc label) rows absent shapes [] (drop-suc label shapes ∙ ap (drop 1) e)
          (omega arith) in
      rw (first, later) refl
  aligned-missing label (suc rows) absent shapes (shape ∷ rest) e h =
      let first = shape_at-drop label shapes ∙ ap (shape_at 0) e in
      let later =
        aligned-missing (suc label) rows absent shapes rest (drop-suc label shapes ∙ ap (drop 1) e)
          (omega arith) in
      rw (first, later) refl

module _ {Number Bytes : Type 0} (from_wkb : Bytes → Geometry Number) where
  chunks_from_lem :
      (left i chunk_size : ℕ) (column : List Bytes)
      → length (drop i column) ≤ left * chunk_size
      → chunks_from from_wkb left i chunk_size column ≡ map from_wkb (drop i column)
  unfolding chunks_from
  chunks_from_lem zero i chunk_size column h =
      ap (map from_wkb) (sym (none_left _ (omega (arith, h, zero-mul chunk_size))))
  chunks_from_lem (suc left) i chunk_size column h =
      let xs = drop i column in
      let rest : length (drop (i + chunk_size) column) ≤ left * chunk_size =
        rw (← drop-drop i chunk_size column)
          (omega (arith, h, length-drop chunk_size xs, suc-mul left chunk_size)) in
      ap (λ l. map from_wkb (take chunk_size xs) ++ l)
        (chunks_from_lem left (i + chunk_size) chunk_size column rest)
      ∙ ap (λ l. map from_wkb (take chunk_size xs) ++ map from_wkb l)
          (sym (drop-drop i chunk_size column))
      ∙ sym (map-append from_wkb (take chunk_size xs) (drop chunk_size xs))
      ∙ ap (map from_wkb) (take-drop chunk_size xs)

  map-drop :
      (n : ℕ) (column : List Bytes) → drop n (map from_wkb column) ≡ map from_wkb (drop n column)
  map-drop zero column = refl
  map-drop (suc n) [] = refl
  map-drop (suc n) (bytes ∷ column) = map-drop n column

  aligned-map :
      (label : ℕ) (column : List Bytes)
      → aligned label (length column) (map from_wkb column)
        ≡ map from_wkb (drop label column) ++ missing (min label (length column))
  aligned-map label column =
      aligned-missing label (length column) _ (map from_wkb column) _ (map-drop label column)
        (omega (arith, length-map from_wkb (drop label column), length-drop label column))

  -- With a positive chunk size, the geometries of a frame that fits in a chunk are those of its rows. In a
  -- longer one whose rows are labelled from some number on, each row has the geometry of the row that many
  -- places further, and the rows for which there is none have no geometry; so each has its own if the
  -- labels begin at 0.
  pub read_geometries-drop :
      (first_label chunk_size : ℕ) (column : List Bytes)
      → 0 < chunk_size
      → read_geometries from_wkb first_label chunk_size column ≡ (
          if ltb chunk_size (length column)
          then map from_wkb (drop first_label column) ++ missing (min first_label (length column))
          else map from_wkb column)
  unfolding read_geometries
  read_geometries-drop first_label chunk_size column positive =
      elim (Bool-cases (ltb chunk_size (length column))) [
        | inr e ↦ rw e refl
        | inl e ↦ rw e (
            ap (aligned first_label (length column)) (
              chunks_from_lem _ 0 chunk_size column
                (enough_chunks (length column) chunk_size positive))
            ∙ aligned-map first_label column)
      ]
