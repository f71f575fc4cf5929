-- ===== src/Xpublish/Routes/Tests.antt =====
-- An analyst and two archives, of which one is restricted.
use teehr_cloud_core.Base.{
  String, ◌≡◌, refl, ◌&&◌, Option, none, some, List, [], ◌∷◌, contains, err, strip_prefix,
  strip_suffix, has_char, last_part,
}
use teehr_cloud_core.Base.Dict.{lookup, insert}
use teehr_cloud_core.Base.Sort.{sorted}
use teehr_cloud_core.Api.Database.{is_infix}
use teehr_cloud_core.Xpublish.Identity.{AuthIdentity}
use teehr_cloud_core.Xpublish.Authz.{
  AccessRules, is_permitted, holds_any, has_default, unmatched, is_request_permitted,
}
use teehr_cloud_core.Xpublish.Credentials.{take_chars}
use teehr_cloud_core.Xpublish.Storage.{files_of_page, list_storage_files}
use teehr_cloud_core.Xpublish.Provider.Grid.{
  number, unknown_layout_version, grid_spec, written_coord_values, pos, negsuc,
}
use teehr_cloud_core.Xpublish.Routes.{
  Layer, list_pmtiles_layers, ids, list_vector_tiles, tile_cache_headers,
}
use teehr_cloud_core.Xpublish.Routes.Listing.{archive_path, list_vector_tiles-permitted}

abbrev rules : AccessRules
rules = record { default = none; repo_items = []; layer_items = ("huc10", "admin" ∷ []) ∷ [] }

abbrev analyst : AuthIdentity
analyst = record {
  subject = "u1";
  auth_type = "jwt";
  roles = "analyst" ∷ [];
  scopes = [];
  preferred_username = some "ann";
}

abbrev pages : String → String → Option (List (List String))
pages bucket prefix = some (("t/basins.pmtiles" ∷ "t/huc10.pmtiles" ∷ "t/notes.md" ∷ []) ∷ [])

abbrev basins : Layer
basins = record { id = "basins"; source_layer = some "basins" }

abbrev huc10 : Layer
huc10 = record { id = "huc10"; source_layer = some "huc10" }

list_vector_tiles-permitted_example : contains "huc10" (ids (basins ∷ [])) ≡ (
    contains "huc10" (ids (basins ∷ huc10 ∷ []))
    && is_request_permitted rules analyst (archive_path "huc10"))
unfolding list_pmtiles_layers list_storage_files files_of_page strip_suffix last_part has_char
    take_chars list_vector_tiles unmatched sorted is_permitted holds_any lookup has_default
list_vector_tiles-permitted_example =
    list_vector_tiles-permitted rules analyst pages (some ("warehouse", "t")) []
      (basins ∷ huc10 ∷ []) (basins ∷ []) "huc10" refl refl (λ e. cc)

unknown_version : grid_spec (some (("layout_version", number 3) ∷ [])) ≡ err unknown_layout_version
unfolding grid_spec lookup
unknown_version = refl

written_lead :
    written_coord_values {Value = String}
      ("0h" ∷ "1h" ∷ "2h" ∷ [])
      (some ((pos 0 ∷ []) ∷ (negsuc 0 ∷ negsuc 1 ∷ []) ∷ (negsuc 0 ∷ pos 4 ∷ []) ∷ []))
    ≡ "0h" ∷ "2h" ∷ []
unfolding written_coord_values
written_lead = refl

cached_tile :
    tile_cache_headers 200 "/datasets/a/tiles/1/2/3" []
    ≡ ("cache-control", "private, max-age=300") ∷ []
unfolding tile_cache_headers is_infix strip_prefix lookup insert
cached_tile = refl
