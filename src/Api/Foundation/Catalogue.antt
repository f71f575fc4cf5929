-- ===== src/Api/Foundation/Catalogue.antt =====
-- The collections of api/src/routes/ogc_foundation.py, and one of them by its id.
use teehr_cloud_core.Base.{
  String, Option, none, some, List, [], ◌∷◌, ◌++◌, ◌==◌, ◌<>◌, if◌then◌else◌, Result, ok, err,
  HttpError, http,
}
use teehr_cloud_core.Api.Sql.{Raised}
use teehr_cloud_core.Api.Foundation.{
  Link, link, rel_queryables, crs84, Extent, SpatialExtent, TemporalExtent, read_extents, or_none,
  spatial_only, both_extents,
}

pub record Collection (Number : Type 0) : Type 0 where
  pub id : String
  pub title : String
  pub description : String
  pub links : List Link
  pub extent : Option (Extent Number)
  pub item_type : Option String
  pub crs : Option (List String)

abbrev pub path_of : String → String
path_of id = "/collections/" <> id

abbrev pub items_links : String → String → List Link
items_links id type_of =
    link (path_of id) "self" "application/json" ∷ link (path_of id <> "/items") "items" type_of ∷ []

abbrev pub queryables_link : String → List Link
queryables_link id =
    link (path_of id <> "/queryables") rel_queryables "application/schema+json" ∷ []

module _ {Number : Type 0} where
  abbrev pub record_collection : String → String → String → Collection Number
  record_collection id title description = record {
    id = id;
    title = title;
    description = description;
    links = items_links id "application/json";
    extent = none;
    item_type = some "record";
    crs = none;
  }

  abbrev pub summary_collection : String → String → String → Collection Number
  summary_collection id title description = record (record_collection id title description) {
    links = items_links id "application/json" ++ queryables_link id;
  }

  module _ (extents : Option (SpatialExtent Number × TemporalExtent)) where
    abbrev pub timeseries_collection : String → String → String → Collection Number
    timeseries_collection id title description = record {
      id = id;
      title = title;
      description = description;
      links = items_links id "application/json" ++ queryables_link id;
      extent = both_extents extents;
      item_type = none;
      crs = some (crs84 ∷ []);
    }

    abbrev pub feature_collection : String → String → String → Collection Number
    feature_collection id title description = record {
      id = id;
      title = title;
      description = description;
      links = items_links id "application/geo+json" ++ queryables_link id;
      extent = spatial_only extents;
      item_type = some "feature";
      crs = some (crs84 ∷ []);
    }

    -- the entries of the list, in its order
    abbrev pub location_collections : List (Collection Number)
    location_collections =
        feature_collection "locations" "Observation Locations"
          "Geographic locations where observations are collected"
        ∷ record_collection "location_crosswalks" "Location Crosswalks"
            "Mappings between primary (e.g., USGS) and secondary (e.g., NWM) location identifiers"
        ∷ record_collection "location_id_aliases" "Location ID Aliases"
            "Alternate IDs that map to a location ID; primary timeseries may be stored under either"
        ∷ record_collection "configuration_pairs" "Configuration Pairs"
            "Primary configurations each secondary configuration is evaluated against"
        ∷ []

    abbrev pub timeseries_collections : List (Collection Number)
    timeseries_collections =
        timeseries_collection "primary_timeseries" "Primary Timeseries"
          "Observed timeseries data at monitoring locations"
        ∷ timeseries_collection "secondary_timeseries" "Secondary Timeseries"
            "Forecast/simulated timeseries data"
        ∷ []

    abbrev pub metrics_collections : List (Collection Number)
    metrics_collections =
        feature_collection "sim_metrics_by_location" "Simulation Metrics by Location"
          "Performance metrics for simulations by location"
        ∷ feature_collection "fcst_metrics_by_location" "Forecast Metrics by Location"
            "Performance metrics for forecasts by location"
        ∷ feature_collection "fcst_metrics_by_lead_time_bins" "Forecast Metrics by Lead Time"
            "Performance metrics for forecasts by lead time bins"
        ∷ []

    abbrev pub configuration_collections : List (Collection Number)
    configuration_collections =
        feature_collection "configurations_by_location" "Configurations by Location"
          "Configurations, variables and units available at each primary location, with timeseries time ranges and ensemble member counts"
        ∷ summary_collection "configurations_summary" "Configurations Summary"
            "Per-configuration summary of available timeseries: variables, units, time ranges and location counts"
        ∷ record_collection "configurations" "Configurations"
            "Data source configurations (e.g., nwm30_retrospective, usgs_observations)"
        ∷ []

    abbrev pub attribute_collections : List (Collection Number)
    attribute_collections =
        record_collection "units" "Units" "Measurement unit definitions (e.g., m^3/s, ft^3/s)"
        ∷ record_collection "variables" "Variables"
            "Variable/parameter definitions (e.g., streamflow_hourly_inst)"
        ∷ record_collection "attributes" "Attributes"
            "Location attribute definitions (e.g., drainage_area_km2, state, huc8)"
        ∷ record_collection "location_attributes" "Location Attributes"
            "Attribute values for each location (location_id, attribute_name, value)"
        ∷ []

    unfoldable pub collections : List (Collection Number)
    collections =
        location_collections ++ timeseries_collections ++ metrics_collections
        ++ configuration_collections ++ attribute_collections

  -- the loop of `get_collection`
  unfoldable pub find_collection : String → List (Collection Number) → Option (Collection Number)
  find_collection id [] = none
  find_collection id (c ∷ cs) = if c.id == id then some c else find_collection id cs

pub record CollectionsResponse (Number : Type 0) : Type 0 where
  pub links : List Link
  pub members : List (Collection Number)

module _ (catalog schema : String) {Frame Number : Type 0} (execute : String → Result Raised Frame)
    (float_at : Frame → String → Result Raised Number)
    (iso_at : Frame → String → Result Raised String) where
  unfoldable pub get_collections : CollectionsResponse Number
  unfolding collections
  get_collections = record {
    links = link "/collections" "self" "application/json" ∷ link "/" "root" "application/json" ∷ [];
    members = collections (or_none (read_extents catalog schema execute float_at iso_at));
  }

  unfoldable pub get_collection : String → Result HttpError (Collection Number)
  unfolding get_collections find_collection
  get_collection collection_id = elim (find_collection collection_id get_collections.members) [
    | some c ↦ ok c
    | none ↦ err (http 404 ("Collection '" <> (collection_id <> "' not found")))
  ]
