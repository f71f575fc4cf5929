-- ===== src/Api/Locations/Tests.antt =====
-- A request for the locations within three numbers.
use teehr_cloud_core.Base.{
  ℕ, String, ◌≡◌, refl, Option, none, some, [], ◌∷◌, true, false, Result, ok, arith,
}
use teehr_cloud_core.Base.Dict.{Dict}
use teehr_cloud_core.Base.Split.{split_on, split_where}
use teehr_cloud_core.Api.Identity.{default_limits}
use teehr_cloud_core.Api.Features.{Geometry, point}
use teehr_cloud_core.Api.Collections.{Frame}
use teehr_cloud_core.Api.Sql.{Raised}
use teehr_cloud_core.Api.Locations.{
  LocationsRequest, filter_of, floats, spatial_filter, get_locations_items,
}
use teehr_cloud_core.Api.Locations.Bbox.{get_locations_items-unbounded}

abbrev request : LocationsRequest
request = record {
  identity = none;
  query = ("bbox", "1,2,3") ∷ [];
  bbox = some "1,2,3";
  id = none;
  prefix = some "usgs";
  include_attributes = false;
  include_geometry = true;
  limit = some 10;
  offset = none;
}

abbrev float : String → Option String
float s = some s

abbrev execute : String → Result Raised (Frame String ℕ)
execute query =
    ok (record { first_label = 0; rows = (("id", "usgs-1") ∷ []) ∷ []; geometry = some (7 ∷ []) })

abbrev pivot : Frame String ℕ → Result Raised (Frame String ℕ)
pivot frame = ok frame

abbrev same_row : Dict String → Dict String
same_row row = row

abbrev from_wkb : ℕ → Geometry ℕ
from_wkb bytes = point (bytes ∷ [])

abbrev same_number : ℕ → ℕ
same_number n = n

abbrev number_id : ℕ → String
number_id n = "0"

abbrev message : Raised → String
message e = "failed"

get_locations_items-unbounded_example :
    get_locations_items default_limits "iceberg" "teehr" float execute pivot same_row from_wkb
      same_number number_id 1000 message request
    ≡ get_locations_items default_limits "iceberg" "teehr" float execute pivot same_row from_wkb
        same_number number_id 1000 message
        (record request { bbox = none })
unfolding split_on split_where floats
get_locations_items-unbounded_example =
    get_locations_items-unbounded default_limits "iceberg" "teehr" float execute pivot same_row
      from_wkb same_number number_id 1000 message request "1,2,3" ("1" ∷ "2" ∷ "3" ∷ []) refl refl
      (λ e. absurd (omega (arith, e)))

box_of_four :
    spatial_filter float (some "-105,39,-104,40")
    ≡ ok
        " AND ST_Within( ST_GeomFromBinary(geometry), ST_Envelope( ST_GeometryFromText( 'LINESTRING( -105 39, -104 40 )' ) ) )"
unfolding spatial_filter split_on split_where floats filter_of
box_of_four = refl
