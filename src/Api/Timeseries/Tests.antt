-- ===== src/Api/Timeseries/Tests.antt =====
-- Requests of api/src/routes/timeseries.py.
use teehr_cloud_core.Base.{
  ℕ, String, ◌≡◌, refl, ◌≢◌, none, some, List, [], ◌∷◌, arith, eq_iff, strip_prefix, Result, ok,
  err,
}
use teehr_cloud_core.Api.Identity.{default_limits}
use teehr_cloud_core.Api.Sql.{Raised}
use teehr_cloud_core.Api.Timeseries.{
  take_number, component, match_duration, unsupported, parse_iso_duration_to_seconds,
}
use teehr_cloud_core.Api.Timeseries.Handlers.{
  SeriesRequest, get_primary_timeseries_items, get_secondary_timeseries_items,
}
use teehr_cloud_core.Api.Timeseries.Errors.{FailsWith500, bad_duration_fails_with_500}

abbrev execute : String → Result Raised (List ℕ)
execute sql = ok (7 ∷ [])

abbrev request : SeriesRequest
request = record {
  page = record { identity = none; limit = none; offset = none; query = [] };
  datetime_range = none;
  variable_name = none;
  configuration_name = none;
  timestep_duration = some "P1Y";
  f = some "json";
}

p1y_nonempty : ◌≢◌ {A = String} "P1Y" ""
p1y_nonempty e = absurd (ground (arith, (eq_iff "P1Y" "").1 e))

p1y_unsupported : parse_iso_duration_to_seconds "P1Y" ≡ err unsupported
unfolding parse_iso_duration_to_seconds match_duration component take_number strip_prefix
p1y_unsupported = refl

bad_duration_fails_with_500_example :
    FailsWith500 (
      get_primary_timeseries_items "iceberg" "teehr" default_limits
        (λ d. some d)
        execute
        (λ row. row)
        (λ e. "error")
        ("usgs-1" ∷ [])
        request)
    × FailsWith500 (
        get_secondary_timeseries_items "iceberg" "teehr" default_limits
          (λ d. some d)
          execute
          (λ row. row)
          (λ e. "error")
          (some ("usgs-1" ∷ []))
          none
          none
          request)
bad_duration_fails_with_500_example =
    bad_duration_fails_with_500 "iceberg" "teehr" default_limits (λ d. some d) execute (λ row. row)
      (λ e. "error") ("usgs-1" ∷ []) (some ("usgs-1" ∷ [])) none none request
      ("P1Y", refl, p1y_nonempty, (unsupported, p1y_unsupported))
