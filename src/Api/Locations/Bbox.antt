-- ===== src/Api/Locations/Bbox.antt =====
-- Bounding boxes of api/src/routes/locations.py that are no boxes.
use teehr_cloud_core.Base.{
  ℕ, String, ◌≡◌, refl, ◌≢◌, inl, inr, Option, none, some, List, [], ◌∷◌, length, Bool-cases, ◌==◌,
  Result, ok,
}
use teehr_cloud_core.Base.Dict.{Dict}
use teehr_cloud_core.Base.Split.{split_on}
use teehr_cloud_core.Api.Identity.{Limits}
use teehr_cloud_core.Api.Features.{Geometry}
use teehr_cloud_core.Api.Collections.{Frame}
use teehr_cloud_core.Api.Sql.{Raised}
use teehr_cloud_core.Api.Locations.{
  LocationsRequest, floats, filter_of, spatial_filter, locations_query, page_of, respond,
  locations_page, get_locations_items,
}

module _ (float : String → Option String) where
  filter_of_others : (coords : List String) → length coords ≢ 4 → filter_of float coords ≡ ""
  unfolding filter_of
  filter_of_others [] h = refl
  filter_of_others (a ∷ []) h = refl
  filter_of_others (a ∷ b ∷ []) h = refl
  filter_of_others (a ∷ b ∷ c ∷ []) h = refl
  filter_of_others (a ∷ b ∷ c ∷ d ∷ []) h = absurd (h refl)
  filter_of_others (a ∷ b ∷ c ∷ d ∷ e ∷ coords) h = refl

  spatial_filter-ignored :
      (box : String) (coords : List String)
      → floats float (split_on b',' box) ≡ some coords
      → length coords ≢ 4
      → spatial_filter float (some box) ≡ ok ""
  unfolding spatial_filter
  spatial_filter-ignored box coords e h = elim (Bool-cases (box == "")) [
    | inl f ↦ rw (spatial_filter, f) refl
    | inr f ↦ rw (spatial_filter, f, e, filter_of_others coords h) refl
  ]

  without_box : spatial_filter float none ≡ ok ""
  unfolding spatial_filter
  without_box = refl

module _ (limits : Limits) (catalog schema : String) (float : String → Option String)
    {Value Number Bytes : Type 0} (execute : String → Result Raised (Frame Value Bytes))
    (pivot : Frame Value Bytes → Result Raised (Frame Value Bytes))
    (prepare : Dict Value → Dict Value) (from_wkb : Bytes → Geometry Number)
    (round : Number → Number) (number_id : ℕ → Value) (chunk_size : ℕ)
    (str_of : Raised → String) where
  -- A bounding box of numbers that are not four is no error: the request is answered as if it had no
  -- bounding box.
  pub get_locations_items-unbounded :
      (request : LocationsRequest) (box : String) (coords : List String)
      → request.bbox ≡ some box
      → floats float (split_on b',' box) ≡ some coords
      → length coords ≢ 4
      → get_locations_items limits catalog schema float execute pivot prepare from_wkb round
          number_id chunk_size str_of request
        ≡ get_locations_items limits catalog schema float execute pivot prepare from_wkb round
            number_id chunk_size str_of
            (record request { bbox = none })
  unfolding get_locations_items locations_page locations_query page_of respond
  get_locations_items-unbounded request box coords given read other =
      rw
        (
          get_locations_items,
          locations_page,
          locations_query,
          given,
          spatial_filter-ignored float box coords read other,
          without_box float,
        )
        refl
