-- ===== src/Api/Foundation/Linked.antt =====
-- The links of the collections of api/src/routes/ogc_foundation.py.
use mathlib.Core.Option.{some-injective}
use teehr_cloud_core.Base.{
  String, ◌≡◌, refl, sym, ap, ◌∙◌, ◌⊎◌, inl, inr, true, false, Option, none, some, List, [], ◌∷◌,
  map, eq_iff, arith, Bool-cases, Option-cases, All, contains, ◌==◌, ◌<>◌, Result, ok, err, http,
}
use teehr_cloud_core.Api.Sql.{Raised}
use teehr_cloud_core.Api.Foundation.{Link, SpatialExtent, TemporalExtent, read_extents, or_none}
use teehr_cloud_core.Api.Foundation.Catalogue.{
  Collection, path_of, collections, find_collection, get_collections, get_collection,
}

abbrev pub hrefs : List Link → List String
hrefs links = map (λ (l : Link). l.href) links

module _ {Number : Type 0} where
  -- A collection links to itself and to its items, by its id.
  abbrev pub Linked : Collection Number → Type 0
  Linked c =
      (contains (path_of c.id) (hrefs c.links) ≡ true)
      × (contains (path_of c.id <> "/items") (hrefs c.links) ≡ true)

  abbrev pub collection_ids : List (Collection Number) → List String
  collection_ids cs = map (λ (c : Collection Number). c.id) cs

  collections-Linked :
      (extents : Option (SpatialExtent Number × TemporalExtent)) → All Linked (collections extents)
  unfolding collections
  collections-Linked extents = ground arith

  find_collection-found :
      (id : String) (cs : List (Collection Number)) (c : Collection Number)
      → All Linked cs
      → find_collection id cs ≡ some c
      → (contains id (collection_ids cs) ≡ true) × (c.id ≡ id) × Linked c
  unfolding find_collection
  find_collection-found id [] c linked e = cc
  find_collection-found id (d ∷ cs) c (here, linked) e = elim (Bool-cases (d.id == id)) [
    | inl f ↦
        let same : d ≡ c = some-injective _ _ (rw (f, find_collection) at e) in
        let named : d.id ≡ id = (eq_iff d.id id).0 f in
        rw (← same) (ground (arith, eq_iff id d.id), named, here)
    | inr f ↦
        let (found, named, linked_c) =
          find_collection-found id cs c linked (rw (f, find_collection) at e) in
        (ground arith, named, linked_c)
  ]

  find_collection-absent :
      (id : String) (cs : List (Collection Number))
      → find_collection id cs ≡ none
      → contains id (collection_ids cs) ≡ false
  unfolding find_collection
  find_collection-absent id [] e = refl
  find_collection-absent id (d ∷ cs) e = elim (Bool-cases (d.id == id)) [
    | inl f ↦ cc (rw (f, find_collection) at e)
    | inr f ↦ ground (
      arith,
      f,
      find_collection-absent id cs (rw (f, find_collection) at e),
      eq_iff d.id id,
      eq_iff id d.id,
    )
  ]

-- The ids of the collections.
abbrev pub known_ids : List String
known_ids =
    "locations" ∷ "location_crosswalks" ∷ "location_id_aliases" ∷ "configuration_pairs"
    ∷ "primary_timeseries" ∷ "secondary_timeseries" ∷ "sim_metrics_by_location"
    ∷ "fcst_metrics_by_location" ∷ "fcst_metrics_by_lead_time_bins" ∷ "configurations_by_location"
    ∷ "configurations_summary" ∷ "configurations" ∷ "units" ∷ "variables" ∷ "attributes"
    ∷ "location_attributes" ∷ []

collection_ids_lem :
    {Number : Type 0} (extents : Option (SpatialExtent Number × TemporalExtent))
    → collection_ids (collections extents) ≡ known_ids
unfolding collections
collection_ids_lem extents = refl

module _ (catalog schema : String) {Frame Number : Type 0} (execute : String → Result Raised Frame)
    (float_at : Frame → String → Result Raised Number)
    (iso_at : Frame → String → Result Raised String) where
  -- Whatever the database answers, and also if it fails, a collection with a known id is found: it has
  -- this id, and links to itself and to its items by it; any other id is answered with status 404.
  pub get_collection-Linked :
      (id : String)
      → ((c : Collection Number) × (get_collection catalog schema execute float_at iso_at id ≡ ok c)
          × (contains id known_ids ≡ true)
          × (c.id ≡ id)
          × Linked c)
        ⊎ ((get_collection catalog schema execute float_at iso_at id
              ≡ err (http 404 ("Collection '" <> (id <> "' not found"))))
            × (contains id known_ids ≡ false))
  unfolding get_collection get_collections
  get_collection-Linked id =
      let extents = or_none (read_extents catalog schema execute float_at iso_at) in
      elim (Option-cases (find_collection id (collections extents))) [
        | inl e ↦ inr (
          rw (get_collection, get_collections, e) refl,
          sym (ap (contains id) (collection_ids_lem extents))
              ∙ find_collection-absent id (collections extents) e,
        )
        | inr (c, e) ↦
            let (known, named, linked) =
              find_collection-found id (collections extents) c (collections-Linked extents) e in
            inl (
              c,
              rw (get_collection, get_collections, e) refl,
              sym (ap (contains id) (collection_ids_lem extents)) ∙ known,
              named,
              linked,
            )
      ]
