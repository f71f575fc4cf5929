-- ===== src/Api/Foundation.antt =====
-- api/src/routes/ogc_foundation.py: the landing page, the conformance classes and the collections with
-- their extents. Trino is a parameter. Where the source breaks a query over lines, the model has single
-- spaces.
pub mod Catalogue
pub mod Linked
mod Tests
use teehr_cloud_core.Base.{
  String, Bool, Option, none, some, List, [], ◌∷◌, ◌++◌, ◌<>◌, if◌then◌else◌, Result, ok, err,
  ◌>>=◌,
}
use teehr_cloud_core.Api.Sql.{Raised}

pub record Link : Type 0 where
  pub href : String
  pub rel : String
  pub type_of : Option String
  pub title : Option String

pub record LandingPage : Type 0 where
  pub title : String
  pub description : String
  pub links : List Link

abbrev pub link : String → String → String → Link
link href rel type_of = record { href = href; rel = rel; type_of = some type_of; title = none }

abbrev pub titled : String → String → String → String → Link
titled href rel type_of title = record {
  href = href;
  rel = rel;
  type_of = some type_of;
  title = some title;
}

unfoldable pub root : LandingPage
root = record {
  title = "TEEHR Dashboard API";
  description = "OGC-compliant API for hydrological timeseries and metrics data";
  links =
      titled "/" "self" "application/json" "This document"
      ∷ titled "/api" "service-desc" "application/vnd.oai.openapi+json;version=3.0" "API definition"
      ∷ titled "/docs" "service-doc" "text/html" "API documentation"
      ∷ titled "/conformance" "conformance" "application/json" "OGC API conformance classes"
      ∷ titled "/collections" "data" "application/json" "Collections"
      ∷ [];
}

unfoldable pub conformance : List String
conformance =
    "http://www.opengis.net/spec/ogcapi-common-1/1.0/conf/core"
    ∷ "http://www.opengis.net/spec/ogcapi-common-1/1.0/conf/landing-page"
    ∷ "http://www.opengis.net/spec/ogcapi-common-1/1.0/conf/json"
    ∷ "http://www.opengis.net/spec/ogcapi-features-1/1.0/conf/core"
    ∷ "http://www.opengis.net/spec/ogcapi-features-1/1.0/conf/geojson"
    ∷ "http://www.opengis.net/spec/ogcapi-features-3/1.0/conf/queryables" ∷ []

abbrev pub crs84 : String
crs84 = "http://www.opengis.net/def/crs/OGC/1.3/CRS84"

abbrev pub rel_queryables : String
rel_queryables = "http://www.opengis.net/def/rel/ogc/1.0/queryables"

pub record SpatialExtent (Number : Type 0) : Type 0 where
  pub bbox : List (List Number)
  pub crs : String

pub record TemporalExtent : Type 0 where
  pub interval : List (List String)
  pub trs : String

-- An extent has the spatial one, the temporal one is there for the timeseries.
pub record Extent (Number : Type 0) : Type 0 where
  pub spatial : SpatialExtent Number
  pub temporal : Option TemporalExtent

module _ (catalog schema : String) where
  abbrev pub table : String → String
  table name = catalog <> ("." <> (schema <> ("." <> name)))

  unfoldable pub spatial_query : String
  spatial_query =
      "SELECT MIN(ST_X(ST_GeomFromBinary(geometry))) as min_lon, "
      <> ("MAX(ST_X(ST_GeomFromBinary(geometry))) as max_lon, "
          <> ("MIN(ST_Y(ST_GeomFromBinary(geometry))) as min_lat, "
              <> ("MAX(ST_Y(ST_GeomFromBinary(geometry))) as max_lat FROM "
                  <> (table "locations" <> " WHERE id LIKE 'usgs-%'"))))

  unfoldable pub temporal_query : String
  temporal_query =
      "SELECT MIN(value_time) as min_time, MAX(value_time) as max_time FROM ( SELECT value_time FROM "
      <> (table "primary_timeseries"
          <> (" UNION ALL SELECT value_time FROM " <> (table "secondary_timeseries" <> " )")))

  -- `execute` limits the query to one row; `float_at` and `iso_at` read a column of that row as
  -- `float(...)` and as `.isoformat()`.
  module _ {Frame Number : Type 0} (execute : String → Result Raised Frame)
      (float_at : Frame → String → Result Raised Number)
      (iso_at : Frame → String → Result Raised String) where
    unfoldable pub read_extents : Result Raised (SpatialExtent Number × TemporalExtent)
    unfolding spatial_query temporal_query
    read_extents = do
      spatial ← execute spatial_query
      temporal ← execute temporal_query
      min_lon ← float_at spatial "min_lon"
      min_lat ← float_at spatial "min_lat"
      max_lon ← float_at spatial "max_lon"
      max_lat ← float_at spatial "max_lat"
      min_time ← iso_at temporal "min_time"
      max_time ← iso_at temporal "max_time"
      ok (
        record { bbox = (min_lon ∷ min_lat ∷ max_lon ∷ max_lat ∷ []) ∷ []; crs = crs84 },
        record {
          interval = ((min_time <> "Z") ∷ (max_time <> "Z") ∷ []) ∷ [];
          trs = "http://www.opengis.net/def/uom/ISO-8601/0/Gregorian";
        },
      )

-- Both extents, or none of them after any exception.
abbrev pub or_none {ℓ} : {A : Type ℓ} → Result Raised A → Option A
or_none (ok a) = some a
or_none (err e) = none

module _ {Number : Type 0} where
  abbrev pub spatial_only : Option (SpatialExtent Number × TemporalExtent) → Option (Extent Number)
  spatial_only none = none
  spatial_only (some (spatial, temporal)) = some (record { spatial = spatial; temporal = none })

  abbrev pub both_extents : Option (SpatialExtent Number × TemporalExtent) → Option (Extent Number)
  both_extents none = none
  both_extents (some (spatial, temporal)) =
      some (record { spatial = spatial; temporal = some temporal })
