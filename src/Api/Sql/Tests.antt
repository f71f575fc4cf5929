-- ===== src/Api/Sql/Tests.antt =====
-- A condition of two values.
use teehr_cloud_core.Base.{◌≡◌, refl, some, [], ◌∷◌, has_char}
use teehr_cloud_core.Api.Database.{sanitize_string, matches_safe, matches_rest}
use teehr_cloud_core.Api.Sql.{sanitized, sanitize_all, join, in_condition, given}
use teehr_cloud_core.Api.Sql.Conditions.{literals_of, in_condition-literals}

in_condition-literals_example :
    literals_of ("location_id IN ('usgs-1', 'usgs-2')" ∷ [])
    ≡ given (some ("usgs-1" ∷ "usgs-2" ∷ []))
unfolding in_condition sanitize_all sanitized sanitize_string matches_safe matches_rest join
    has_char
in_condition-literals_example =
    in_condition-literals "location_id" (some ("usgs-1" ∷ "usgs-2" ∷ []))
      ("location_id IN ('usgs-1', 'usgs-2')" ∷ []) refl refl
