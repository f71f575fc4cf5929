-- ===== src/Api/Timeseries/Handlers.antt =====
-- The two handlers of api/src/routes/timeseries.py. `execute` is `execute_query` with its rows, and
-- `prepare` what pandas makes of a row for JSON or GeoJSON.
use teehr_cloud_core.Base.{
  ℕ, String, Bool, true, false, Option, none, some, List, [], ◌∷◌, ◌++◌, map, if◌then◌else◌, length,
  ◌<>◌, Result, ok, err, ◌>>=◌, HttpError, http,
}
use teehr_cloud_core.Api.Identity.{Limits}
use teehr_cloud_core.Api.Sql.{Raised, sanitize_all, in_list, join, pagination}
use teehr_cloud_core.Api.Records.{
  Link, self_link, collection_link, PageRequest, next_page, all_values, limit_of,
}
use teehr_cloud_core.Api.Timeseries.{
  duration_conditions, is_geojson, names_conditions, interval_conditions, secondary_locations,
}

-- What the two requests share.
pub record SeriesRequest : Type 0 where
  pub page : PageRequest
  pub datetime_range : Option String
  pub variable_name : Option (List String)
  pub configuration_name : Option (List String)
  pub timestep_duration : Option String
  pub f : Option String

pub record SeriesResponse (Row : Type 0) : Type 0 where
  pub geojson : Bool
  pub items : List Row
  pub number_returned : ℕ
  pub links : List Link

module _ (catalog schema : String) where
  abbrev pub table_of : String → String
  table_of name = catalog <> ("." <> (schema <> ("." <> name)))

  abbrev pub primary_select : Bool → String
  primary_select true =
      "SELECT pt.location_id as primary_location_id, pt.reference_time, pt.configuration_name, pt.variable_name, pt.unit_name, pt.value_time, pt.value, pt.created_at, pt.updated_at, l.geometry FROM "
      <> (table_of "primary_timeseries"
          <> (" pt JOIN " <> (table_of "locations" <> " l ON pt.location_id = l.id WHERE ")))
  primary_select false =
      "SELECT 'primary' as series_type, location_id as primary_location_id, reference_time, configuration_name, variable_name, unit_name, value_time, value, created_at, updated_at FROM "
      <> (table_of "primary_timeseries" <> " WHERE ")

  abbrev pub primary_order : Bool → String
  primary_order geojson = if geojson then " ORDER BY pt.value_time" else " ORDER BY value_time"

  abbrev pub secondary_select : Bool → String
  secondary_select true =
      "SELECT st.value_time, st.value, st.configuration_name, st.variable_name, st.unit_name, st.member, st.reference_time, st.created_at, st.updated_at, lc.primary_location_id, lc.secondary_location_id, l.geometry FROM "
      <> (table_of "secondary_timeseries"
          <> (" st JOIN "
              <> (table_of "location_crosswalks"
                  <> (" lc ON st.location_id = lc.secondary_location_id JOIN "
                      <> (table_of "locations" <> " l ON lc.primary_location_id = l.id WHERE ")))))
  secondary_select false =
      "SELECT st.value_time, st.value, st.configuration_name, st.variable_name, st.unit_name, st.member, st.reference_time, st.created_at, st.updated_at, lc.primary_location_id, 'secondary' as series_type, lc.secondary_location_id FROM "
      <> (table_of "secondary_timeseries"
          <> (" st JOIN "
              <> (table_of "location_crosswalks"
                  <> " lc ON st.location_id = lc.secondary_location_id WHERE ")))

  module _ (limits : Limits) (parse_date : String → Option String) {Row : Type 0}
      (execute : String → Result Raised (List Row)) (prepare : Row → Row)
      (str_of : Raised → String) where
    abbrev pub effective : SeriesRequest → Option ℕ
    effective request = limit_of limits catalog schema request.page

    -- Only a non-empty answer as records has a next link.
    unfoldable pub series_response : String → SeriesRequest → List Row → SeriesResponse Row
    series_response collection_id request rows =
        let paging = if is_geojson request.f then [] else elim rows [
          | [] ↦ []
          | r ∷ rs ↦
              next_page limits catalog schema all_values (effective request) request.page.offset
                (length (r ∷ rs)) request.page.query
        ] in
        record {
          geojson = is_geojson request.f;
          items = map prepare rows;
          number_returned = length rows;
          links = self_link ∷ collection_link collection_id ∷ paging;
        }

    -- the filters by name and by alignment, the end of both lists of conditions
    unfoldable pub common_conditions :
        SeriesRequest → String → Option String → Result Raised (List String)
    common_conditions request time_column table_alias = do
      variables ← names_conditions "variable_name" request.variable_name table_alias
      configurations ← names_conditions "configuration_name" request.configuration_name table_alias
      durations ← duration_conditions time_column request.timestep_duration
      ok (variables ++ (configurations ++ durations))

    unfoldable pub primary_conditions : List String → SeriesRequest → Result Raised (List String)
    primary_conditions primary_location_id request = do
      locations ← sanitize_all primary_location_id
      times ← interval_conditions parse_date "value_time" request.datetime_range
      more ← common_conditions request "value_time" none
      ok (in_list "location_id" locations ∷ (times ++ more))

    unfoldable pub secondary_conditions :
        Option (List String)
        → Option (List String)
        → Option String
        → SeriesRequest
        → Result Raised (List String)
    secondary_conditions primary_location_id secondary_location_id reference_time request = do
      location ← secondary_locations primary_location_id secondary_location_id
      times ← interval_conditions parse_date "st.value_time" request.datetime_range
      references ← interval_conditions parse_date "st.reference_time" reference_time
      more ← common_conditions request "st.value_time" (some "st")
      ok (location ∷ (times ++ (references ++ more)))

    -- `except Exception as e: raise HTTPException(500, ...) from e`
    abbrev pub or_failed {ℓ} : {A : Type ℓ} → String → Result Raised A → Result HttpError A
    or_failed detail (ok a) = ok a
    or_failed detail (err e) = err (http 500 (detail <> (": " <> str_of e)))

    unfoldable pub get_primary_timeseries_items :
        List String → SeriesRequest → Result HttpError (SeriesResponse Row)
    get_primary_timeseries_items primary_location_id request =
        or_failed "Failed to load primary timeseries" (do
          conditions ← primary_conditions primary_location_id request
          rows ← execute (
              primary_select (is_geojson request.f)
              <> (join " AND " conditions
                  <> (primary_order (is_geojson request.f)
                      <> pagination request.page.offset (effective request))))
          ok (series_response "primary_timeseries" request rows))

    unfoldable pub get_secondary_timeseries_items :
        Option (List String)
        → Option (List String)
        → Option String
        → SeriesRequest
        → Result HttpError (SeriesResponse Row)
    get_secondary_timeseries_items primary_location_id secondary_location_id reference_time
          request =
        or_failed "Failed to load secondary timeseries" (do
          conditions ←
              secondary_conditions primary_location_id secondary_location_id reference_time request
          rows ← execute (
              secondary_select (is_geojson request.f)
              <> (join " AND " conditions
                  <> (" ORDER BY st.value_time"
                      <> pagination request.page.offset (effective request))))
          ok (series_response "secondary_timeseries" request rows))
