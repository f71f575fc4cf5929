-- ===== src/Api/Collections/Tests.antt =====
-- The items of a metrics table with one row.
use teehr_cloud_core.Base.{ℕ, String, ◌≡◌, refl, none, some, [], ◌∷◌, arith, Result, ok, err, http}
use teehr_cloud_core.Base.Dict.{Dict, lookup, insert}
use teehr_cloud_core.Api.Identity.{default_limits}
use teehr_cloud_core.Api.Features.{Geometry, point}
use teehr_cloud_core.Api.Queryables.{CollectionSchema}
use teehr_cloud_core.Api.Sql.{Raised, http_exception, sanitized}
use teehr_cloud_core.Api.Database.{sanitize_string, matches_safe, matches_rest}
use teehr_cloud_core.Api.Collections.{
  Frame, ItemsRequest, ItemsResponse, last_values, get_collection_schema, get_collection_items,
  answer_items,
}
use teehr_cloud_core.Api.Collections.SchemaCache.{Sound, Recent, get_collection_items-Sound}
use teehr_cloud_core.Api.Collections.Refused.{get_collection_items-refused}

abbrev schema : CollectionSchema
schema = record {
  title = "sim_metrics";
  description = "metrics";
  properties = [];
  group_by = some ("primary_location_id" ∷ "configuration" ∷ []);
  metrics = some ("bias" ∷ []);
}

abbrev describe : String → Result Raised CollectionSchema
describe table = ok schema

abbrev Described : ℕ → String → CollectionSchema → Type 0
Described at table s = s ≡ schema

abbrev same : String → String
same s = s

abbrev keep_row : Dict String → Dict String
keep_row row = row

abbrev keep_number : ℕ → ℕ
keep_number n = n

abbrev execute : String → Result Raised (Frame String ℕ)
execute query =
    ok (record { first_label = 0; rows = (("bias", "0.1") ∷ []) ∷ []; geometry = some (7 ∷ []) })

abbrev from_wkb : ℕ → Geometry ℕ
from_wkb bytes = point (bytes ∷ [])

abbrev number_id : ℕ → String
number_id n = "0"

abbrev message : Raised → String
message e = "failed"

abbrev request : ItemsRequest
request = record {
  identity = none;
  query = ("configuration", "nwm30") ∷ ("bias", "0.1") ∷ [];
  limit = some 10;
  offset = none;
  f = none;
}

sound : Sound Described []
unfolding lookup
sound table at s e = cc

answers : (table : String) (s : CollectionSchema) → describe table ≡ ok s → Described 105 table s
answers table s e = cc e

get_collection_items-Sound_example :
    Sound Described
      (get_collection_items default_limits "iceberg" "teehr" same execute keep_row from_wkb
        keep_number number_id 1000 describe message 100 105 "sim_metrics" request []).0
    × ((response : ItemsResponse String ℕ)
        → (get_collection_items default_limits "iceberg" "teehr" same execute keep_row from_wkb
            keep_number number_id 1000 describe message 100 105 "sim_metrics" request []).1
          ≡ ok response
        → (table : String) × (s : CollectionSchema) × (sanitized "sim_metrics" ≡ ok table)
          × Recent Described 100 table s
          × (answer_items default_limits "iceberg" "teehr" same execute keep_row from_wkb
                keep_number number_id 1000 "sim_metrics" table request s
              ≡ ok response))
get_collection_items-Sound_example =
    get_collection_items-Sound Described describe 100 105 (omega arith) answers default_limits
      "iceberg" "teehr" same execute keep_row from_wkb keep_number number_id 1000 message
      "sim_metrics" request [] sound

get_collection_items-refused_example :
    (detail : String) × ((get_collection_items default_limits "iceberg" "teehr" same execute
        keep_row from_wkb keep_number number_id 1000 describe message 100 105 "sim_metrics" request
        []).1
      ≡ err (http_exception (http 400 detail)))
unfolding sanitized sanitize_string matches_safe matches_rest get_collection_schema lookup
    last_values insert
get_collection_items-refused_example =
    get_collection_items-refused describe 100 105 default_limits "iceberg" "teehr" same execute
      keep_row from_wkb keep_number number_id 1000 message "sim_metrics" "sim_metrics" "bias"
      request [] schema ("primary_location_id" ∷ "configuration" ∷ []) refl refl refl refl refl
