-- ===== src/Api/Features/Tests.antt =====
-- A collection of two points in chunks of one.
use teehr_cloud_core.Base.{ℕ, ◌≡◌, refl, [], ◌∷◌, map, arith}
use teehr_cloud_core.Api.Features.{
  Geometry, point, no_geometry, shape_at, aligned, chunks_from, read_geometries,
}
use teehr_cloud_core.Api.Features.Chunks.{missing, read_geometries-drop}

abbrev from_wkb : ℕ → Geometry ℕ
from_wkb bytes = point (bytes ∷ bytes ∷ [])

read_geometries-drop_example :
    read_geometries from_wkb 1 1 (3 ∷ 4 ∷ []) ≡ from_wkb 4 ∷ no_geometry ∷ []
unfolding missing
read_geometries-drop_example = read_geometries-drop from_wkb 1 1 (3 ∷ 4 ∷ []) (omega arith)

from_zero : read_geometries from_wkb 0 1 (3 ∷ 4 ∷ []) ≡ map from_wkb (3 ∷ 4 ∷ [])
unfolding read_geometries aligned shape_at chunks_from
from_zero = refl
