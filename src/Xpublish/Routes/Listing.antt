-- ===== src/Xpublish/Routes/Listing.antt =====
-- The list of the vector-tile archives against the gate of their paths.
use Prim.Native.String.{count}
use mathlib.Core.Option.{some-injective}
use text.Mathlib.TextLemmas.{cons-append, append_assoc, append_cancel_right, nil-append}
use teehr_cloud_core.Base.{
  ℕ, zero, suc, String, ◌≡◌, refl, sym, ap, ◌∙◌, ◌≢◌, inl, inr, Bool, true, false, ◌&&◌, ◌||◌,
  Option, none, some, List, [], ◌∷◌, ◌++◌, map, arith, eq_iff, Bool-cases, contains, keep,
  contains-keep, ◌==◌, ◌<>◌, strip_prefix, has_char, strip_prefix-append, strip_prefix-append_both,
  strip_suffix-append, has_char-append, last_part, last_part-has_char, ends_with, ok, ok-injective,
  Option-cases,
}
use teehr_cloud_core.Xpublish.Identity.{AuthIdentity}
use teehr_cloud_core.Xpublish.Authz.{
  AccessRules, Kind, reads, is_permitted, archive_target, request_target, is_request_permitted,
}
use teehr_cloud_core.Xpublish.Authz.Requests.{is_request_permitted_lem}
use teehr_cloud_core.Xpublish.Credentials.{take_chars}
use teehr_cloud_core.Xpublish.Storage.{drop_last, files_of_page, list_storage_files, StorageFile}
use teehr_cloud_core.Xpublish.Routes.{Layer, layer_of, list_pmtiles_layers, ids, list_vector_tiles}

abbrev pub archive_path : String → String
archive_path id = "/api/vector-tiles/" <> (id <> ".pmtiles")

not_datasets :
    (s : String)
    → (("/api/vector-tiles/" <> s) == "/api/datasets"
        || ("/api/vector-tiles/" <> s) == "/api/datasets/")
      ≡ false
unfolding strip_prefix
not_datasets s = elim (Bool-cases (("/api/vector-tiles/" <> s) == "/api/datasets")) [
  | inl e ↦ absurd (other "/api/datasets" refl ((eq_iff _ _).0 e))
  | inr e ↦ elim (Bool-cases (("/api/vector-tiles/" <> s) == "/api/datasets/")) [
    | inl f ↦ absurd (other "/api/datasets/" refl ((eq_iff _ _).0 f))
    | inr f ↦ rw (e, f)
  ]
]
  where
    other :
        (t : String)
        → strip_prefix "/api/vector-tiles/" t ≡ none
        → "/api/vector-tiles/" <> s ≡ t
        → ⊥
    other t n e = cc (strip_prefix-append "/api/vector-tiles/" s)

other_route :
    (route s : String)
    → strip_prefix ("/api/" <> route) ("/api/vector-tiles/" <> s)
      ≡ strip_prefix route (String.◌∷◌ "v" ("ector-tiles/" <> s))
other_route route s =
    ap (strip_prefix ("/api/" <> route)) (append_assoc "/api/" "vector-tiles/" s)
    ∙ strip_prefix-append_both "/api/" route ("vector-tiles/" <> s)
    ∙ ap (strip_prefix route) (cons-append "v" "ector-tiles/" s)

request_target-archive :
    (archive : String) → request_target ("/api/vector-tiles/" <> archive) ≡ archive_target archive
unfolding request_target strip_prefix
request_target-archive archive =
    let datasets : strip_prefix "/api/datasets/" ("/api/vector-tiles/" <> archive) ≡ none =
      other_route "datasets/" archive in
    let variables : strip_prefix "/api/dataset-variables/" ("/api/vector-tiles/" <> archive)
        ≡ none =
      other_route "dataset-variables/" archive in
    rw (
      not_datasets archive,
      request_target,
      datasets,
      variables,
      strip_prefix-append "/api/vector-tiles/" archive,
    )

archive_target_lem :
    (id : String)
    → id ≢ ""
    → has_char b'/' id ≡ false
    → archive_target (id <> ".pmtiles") ≡ reads Kind.layers (id ∷ [])
unfolding archive_target has_char
archive_target_lem id nonempty plain = elim (Bool-cases ((id <> ".pmtiles") == ".pmtiles")) [
  | inl e ↦ absurd (
      nonempty (
        append_cancel_right id "" ".pmtiles"
          ((eq_iff (id <> ".pmtiles") ".pmtiles").0 e ∙ sym (nil-append ".pmtiles"))))
  | inr e ↦
      rw
        (
          archive_target,
          strip_suffix-append ".pmtiles" id,
          has_char-append b'/' id ".pmtiles",
          plain,
          e,
        )
        refl
]

take_chars-has_char :
    (k n : ℕ) (s : String) → has_char k s ≡ false → has_char k (take_chars n s) ≡ false
unfolding take_chars has_char
take_chars-has_char k zero s h = refl
take_chars-has_char k (suc n) String.[] h = refl
take_chars-has_char k (suc n) (String.◌∷◌ c s) h = ground (arith, take_chars-has_char k n s)

module _ (id : String) where
  contains-append_ids :
      (xs ys : List StorageFile)
      → contains id (ids (map layer_of (xs ++ ys)))
        ≡ (contains id (ids (map layer_of xs)) || contains id (ids (map layer_of ys)))
  contains-append_ids [] ys = refl
  contains-append_ids (x ∷ xs) ys = ground (arith, contains-append_ids xs ys)

  files_of_page-plain :
      (page : List String)
      → contains id (ids (map layer_of (files_of_page ".pmtiles" page))) ≡ true
      → has_char b'/' id ≡ false
  unfolding files_of_page
  files_of_page-plain [] h = cc
  files_of_page-plain (key ∷ page) h = elim (Bool-cases (ends_with key ".pmtiles")) [
    | inr e ↦ files_of_page-plain page (rw e at h)
    | inl e ↦
        let name = drop_last (count ".pmtiles") (last_part b'/' key) in
        let g : contains id (name ∷ ids (map layer_of (files_of_page ".pmtiles" page))) ≡ true =
          rw e at h in
        elim (Bool-cases (id == name)) [
          | inl f ↦
              rw ((eq_iff id name).0 f) (take_chars-has_char b'/' _ _ (last_part-has_char b'/' key))
          | inr f ↦ files_of_page-plain page (ground (arith, f, eq_iff id name))
        ]
  ]

  list_storage_files-plain :
      (pages : List (List String))
      → contains id (ids (map layer_of (list_storage_files ".pmtiles" pages))) ≡ true
      → has_char b'/' id ≡ false
  unfolding list_storage_files
  list_storage_files-plain [] h = cc
  list_storage_files-plain (page ∷ pages) h =
      let g =
        sym (
          contains-append_ids (files_of_page ".pmtiles" page) (list_storage_files ".pmtiles" pages))
        ∙ h in
      elim (Bool-cases (contains id (ids (map layer_of (files_of_page ".pmtiles" page))))) [
        | inl e ↦ files_of_page-plain page e
        | inr e ↦ list_storage_files-plain pages (rw e at g)
      ]

ids-keep :
    (p : String → Bool) (items : List Layer)
    → ids (keep (λ (item : Layer). p item.id) items) ≡ keep p (ids items)
ids-keep p [] = refl
ids-keep p (item ∷ items) = elim (Bool-cases (p item.id)) [
  | inl e ↦ rw e (ap (λ xs. item.id ∷ xs) (ids-keep p items))
  | inr e ↦ rw e (ids-keep p items)
]

layers_of_listing :
    (pages : String → String → Option (List (List String))) (location : Option (String × String))
    (items : List Layer) (id : String)
    → list_pmtiles_layers pages location ≡ some items
    → contains id (ids items) ≡ true
    → has_char b'/' id ≡ false
unfolding list_pmtiles_layers
layers_of_listing pages none items id e h = cc
layers_of_listing pages (some (bucket, prefix)) items id e h =
    elim (Option-cases (pages bucket prefix)) [
      | inl f ↦ cc (rw (f, list_pmtiles_layers) at e)
      | inr (listed, f) ↦
          let same = some-injective _ _ (rw (f, list_pmtiles_layers) at e) in
          list_storage_files-plain id listed (rw (← same) at h)
    ]

module _ (rules : AccessRules) (identity : AuthIdentity) where
  archive_permitted :
      (id : String)
      → id ≢ ""
      → has_char b'/' id ≡ false
      → is_request_permitted rules identity (archive_path id)
        ≡ is_permitted rules identity Kind.layers id
  archive_permitted id nonempty plain =
      rw
        (
          is_request_permitted_lem rules identity (archive_path id),
          request_target-archive (id <> ".pmtiles"),
          archive_target_lem id nonempty plain,
        )
        (ground arith)

  -- The archives that the route lists for a user are those of the listing whose request path the gate
  -- lets the user read, except for an archive without a name.
  pub list_vector_tiles-permitted :
      (pages : String → String → Option (List (List String))) (location : Option (String × String))
      (known : List String) (items shown : List Layer) (id : String)
      → list_pmtiles_layers pages location ≡ some items
      → (list_vector_tiles rules known (list_pmtiles_layers pages location) identity).answer
        ≡ ok shown
      → id ≢ ""
      → contains id (ids shown)
        ≡ (contains id (ids items) && is_request_permitted rules identity (archive_path id))
  unfolding list_vector_tiles
  list_vector_tiles-permitted pages location known items shown id e answered nonempty =
      let same : keep (λ (item : Layer). is_permitted rules identity Kind.layers item.id) items
          ≡ shown =
        ok-injective _ _ (rw (e, list_vector_tiles) at answered) in
      let kept : contains id (ids shown)
          ≡ (contains id (ids items) && is_permitted rules identity Kind.layers id) =
        rw (← same) (
          ap (contains id) (ids-keep (λ n. is_permitted rules identity Kind.layers n) items)
          ∙ contains-keep (λ n. is_permitted rules identity Kind.layers n) id (ids items)) in
      elim (Bool-cases (contains id (ids items))) [
        | inl f ↦
            kept
            ∙ rw (f, archive_permitted id nonempty (layers_of_listing pages location items id e f))
                refl
        | inr f ↦ kept ∙ rw f refl
      ]
