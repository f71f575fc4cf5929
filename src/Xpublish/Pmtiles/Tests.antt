-- ===== src/Xpublish/Pmtiles/Tests.antt =====
-- The key of a layer.
use teehr_cloud_core.Base.{String, ◌≡◌, refl, false, ◌<>◌, strip_prefix, has_char, rstrip_where}
use teehr_cloud_core.Xpublish.Storage.{normalize_storage_prefix}
use teehr_cloud_core.Xpublish.Pmtiles.{matches_tail, matches_layer_name, has_parent, layer_key}
use teehr_cloud_core.Xpublish.Pmtiles.Keys.{layer_key-within}

layer_key-within_example :
    (◌≡◌ {A = String} "tiles/usgs-basins.pmtiles"
      (normalize_storage_prefix "tiles" <> ("usgs-basins" <> ".pmtiles")))
    × (has_char b'/' "usgs-basins" ≡ false)
    × (has_parent "usgs-basins" ≡ false)
unfolding layer_key matches_layer_name matches_tail has_parent normalize_storage_prefix rstrip_where
    strip_prefix
layer_key-within_example = layer_key-within "tiles" "usgs-basins" "tiles/usgs-basins.pmtiles" refl
