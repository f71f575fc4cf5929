-- ===== src/Api/FixedCollections.antt =====
-- api/src/routes/queryables.py: COLLECTION_CONFIGS, the collections whose properties are fixed. A
-- property is the dict of its keywords.
use teehr_cloud_core.Base.{String, [], ◌∷◌}
use teehr_cloud_core.Base.Dict.{Dict}

abbrev pub Property : Type 0
Property = Dict String

abbrev text : String → Property
text title = ("title", title) ∷ ("type", "string") ∷ []

abbrev number : String → Property
number title = ("title", title) ∷ ("type", "number") ∷ []

abbrev extra : String → Property
extra title = ("title", title) ∷ ("type", "object") ∷ []

abbrev identifier : String → Property
identifier title = ("title", title) ∷ ("type", "string") ∷ ("x-ogc-role", "id") ∷ []

abbrev date_time : String → Property
date_time title = ("title", title) ∷ ("type", "string") ∷ ("format", "date-time") ∷ []

abbrev pub primary_geometry : Property
primary_geometry =
    ("$ref", "https://geojson.org/schema/Point.json") ∷ ("x-ogc-role", "primary-geometry") ∷ []

abbrev pub locations_properties : Dict Property
locations_properties =
    ("id", identifier "Location ID")
    ∷ ("name", text "Location Name")
    ∷ ("geometry", primary_geometry)
    ∷ ("properties", extra "Additional Properties")
    ∷ ("created_at", date_time "Created At")
    ∷ ("updated_at", date_time "Updated At")
    ∷ []

abbrev pub primary_timeseries_properties : Dict Property
primary_timeseries_properties =
    ("location_id", identifier "Location ID")
    ∷ ("value_time", date_time "Value Time")
    ∷ ("value", number "Observed Value")
    ∷ ("variable_name", text "Variable/Parameter")
    ∷ ("configuration_name", text "Configuration")
    ∷ ("unit_name", text "Unit")
    ∷ ("created_at", date_time "Created At")
    ∷ ("updated_at", date_time "Updated At")
    ∷ []

abbrev pub secondary_timeseries_properties : Dict Property
secondary_timeseries_properties =
    ("location_id", identifier "Location ID")
    ∷ ("value_time", date_time "Value Time")
    ∷ ("reference_time", date_time "Reference/Forecast Time")
    ∷ ("value", number "Forecast Value")
    ∷ ("variable_name", text "Variable/Parameter")
    ∷ ("configuration_name", text "Configuration")
    ∷ ("member", text "Ensemble Member")
    ∷ ("unit_name", text "Unit")
    ∷ ("created_at", date_time "Created At")
    ∷ ("updated_at", date_time "Updated At")
    ∷ []

abbrev pub location_crosswalks_properties : Dict Property
location_crosswalks_properties =
    ("primary_location_id", text "Primary Location ID")
    ∷ ("secondary_location_id", text "Secondary Location ID")
    ∷ ("properties", extra "Additional Properties")
    ∷ ("created_at", date_time "Created At")
    ∷ ("updated_at", date_time "Updated At")
    ∷ []

abbrev pub location_id_aliases_properties : Dict Property
location_id_aliases_properties =
    ("location_id", text "Location ID")
    ∷ ("location_id_alias", text "Location ID Alias")
    ∷ ("properties", extra "Additional Properties")
    ∷ ("created_at", date_time "Created At")
    ∷ ("updated_at", date_time "Updated At")
    ∷ []

abbrev pub configuration_pairs_properties : Dict Property
configuration_pairs_properties =
    ("primary_configuration_name", text "Primary Configuration Name")
    ∷ ("secondary_configuration_name", text "Secondary Configuration Name")
    ∷ ("properties", extra "Additional Properties")
    ∷ ("created_at", date_time "Created At")
    ∷ ("updated_at", date_time "Updated At")
    ∷ []

abbrev pub configurations_properties : Dict Property
configurations_properties =
    ("name", identifier "Configuration Name")
    ∷ ("timeseries_type", text "Type")
    ∷ ("description", text "Description")
    ∷ ("properties", extra "Additional Properties")
    ∷ ("created_at", date_time "Created At")
    ∷ ("updated_at", date_time "Updated At")
    ∷ []

abbrev pub units_properties : Dict Property
units_properties =
    ("name", identifier "Unit Name")
    ∷ ("long_name", text "Long Name")
    ∷ ("created_at", date_time "Created At")
    ∷ ("updated_at", date_time "Updated At")
    ∷ []

abbrev pub variables_properties : Dict Property
variables_properties =
    ("name", identifier "Variable Name")
    ∷ ("long_name", text "Long Name")
    ∷ ("created_at", date_time "Created At")
    ∷ ("updated_at", date_time "Updated At")
    ∷ []

abbrev pub attributes_properties : Dict Property
attributes_properties =
    ("name", identifier "Attribute Name")
    ∷ ("description", text "Description")
    ∷ ("type", text "Type")
    ∷ ("created_at", date_time "Created At")
    ∷ ("updated_at", date_time "Updated At")
    ∷ []

abbrev pub location_attributes_properties : Dict Property
location_attributes_properties =
    ("location_id", text "Location ID")
    ∷ ("attribute_name", text "Attribute Name")
    ∷ ("value", text "Value")
    ∷ ("properties", extra "Additional Properties")
    ∷ ("created_at", date_time "Created At")
    ∷ ("updated_at", date_time "Updated At")
    ∷ []

pub record CollectionConfig : Type 0 where
  pub description : String
  pub static_properties : Dict Property

abbrev fixed : String → Dict Property → CollectionConfig
fixed description properties = record { description = description; static_properties = properties }

unfoldable pub collection_configs : Dict CollectionConfig
collection_configs =
    (
      "locations",
      fixed "Geographic locations where observations are collected" locations_properties,
    )
    ∷ (
      "primary_timeseries",
      fixed "Observed timeseries data at monitoring locations" primary_timeseries_properties,
    )
    ∷ (
      "secondary_timeseries",
      fixed "Forecast/simulated timeseries data" secondary_timeseries_properties,
    )
    ∷ (
      "location_crosswalks",
      fixed "Crosswalk mapping between primary and secondary location identifiers"
          location_crosswalks_properties,
    )
    ∷ (
      "location_id_aliases",
      fixed "Alternate IDs that map to a location ID" location_id_aliases_properties,
    )
    ∷ (
      "configuration_pairs",
      fixed "Primary configurations each secondary configuration is evaluated against"
          configuration_pairs_properties,
    )
    ∷ (
      "configurations",
      fixed "Configuration definitions for data sources" configurations_properties,
    )
    ∷ ("units", fixed "Unit definitions for measurements" units_properties)
    ∷ ("variables", fixed "Variable definitions for measured quantities" variables_properties)
    ∷ (
      "attributes",
      fixed "Attribute definitions for location attribute types" attributes_properties,
    )
    ∷ (
      "location_attributes",
      fixed "Attribute values associated with locations" location_attributes_properties,
    )
    ∷ []
