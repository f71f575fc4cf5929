-- ===== src/Api/Records.antt =====
-- The collections that are served as records: api/src/routes/crosswalks.py and reference_data.py.
-- `execute` is `execute_query` with its rows, `prepare` what pandas makes of a row for JSON, `str_of`
-- the text of an exception. A link to a page holds its offset and limit, and the query of its URL, which
-- is the request's with both set in it.
pub mod Pages
pub mod Paging
pub mod Filters
pub mod NextLinks
mod Tests
use teehr_cloud_core.Base.{
  ℕ, zero, suc, ◌+◌, ◌-◌, ◌*◌, ◌/◌, ◌%◌, ◌^◌, ◌≤◌, ◌<◌, min, String, ◌≡◌, refl, sym, ap, ◌∙◌, ◌≢◌,
  ◌↔◌, ◌⊎◌, inl, inr, true, false, ◌&&◌, ◌||◌, Option, none, some, List, [], ◌∷◌, ◌++◌, map, arith,
  eqb, if◌then◌else◌, Bool-cases, Option-cases, or_default, length, ◌==◌, ◌<>◌, Result, ok, err,
  ◌>>=◌, ◌>>◌, HttpError, http, >>=-passed,
}
use teehr_cloud_core.Api.Identity.{AuthIdentity, Limits, effective_limit_for_request}
use teehr_cloud_core.Base.Dict.{Dict}
use teehr_cloud_core.Api.Links.{Query, parse_qs, first_values, set_page}
use teehr_cloud_core.Api.Sql.{
  Raised, sanitized, in_condition, prefix_condition, where_clause, pagination, given,
}

pub data Link : Type 0 where
  self_link : Link
  collection_link : String → Link
  next_link : ℕ → ℕ → Query → Link

pub record Response (Row : Type 0) : Type 0 where
  pub items : List Row
  pub number_returned : ℕ
  pub links : List Link

-- The caller, the page that the request asks for, and the query of its URL.
pub record PageRequest : Type 0 where
  pub identity : Option AuthIdentity
  pub limit : Option ℕ
  pub offset : Option ℕ
  pub query : Query

-- `urlencode(query_params, doseq=True)`, with every value of each name
unfoldable pub all_values : Dict (List String) → Query
all_values [] = []
all_values ((name, values) ∷ params) = map (λ value. (name, value)) values ++ all_values params

-- `if name: where_conditions.append(f"{column} = '{sanitize_string(name)}'")`
unfoldable pub name_condition : String → Option String → Result Raised (List String)
name_condition column value =
    if or_default value "" == ""
    then ok []
    else do safe ← sanitized (or_default value ""); ok ((column <> (" = '" <> (safe <> "'"))) ∷ [])

-- `if prefix: where_conditions.append(f"{column} LIKE '{sanitize_string(prefix)}-%'")`
unfoldable pub one_prefix_condition : String → Option String → Result Raised (List String)
one_prefix_condition column value = if or_default value "" == "" then ok [] else do
  safe ← sanitized (or_default value "")
  ok ((column <> (" LIKE '" <> (safe <> "-%'"))) ∷ [])

module _ (limits : Limits) (catalog schema : String) where
  abbrev pub limit_of : PageRequest → Option ℕ
  limit_of page = effective_limit_for_request limits page.identity page.limit

  abbrev pub select_records : String → List String → String → Option ℕ → Option ℕ → String
  select_records collection_id conditions order_by offset limit =
      "SELECT * FROM "
      <> (catalog
          <> ("."
              <> (schema
                  <> ("."
                      <> (collection_id
                          <> (" WHERE "
                              <> (where_clause conditions
                                  <> (" ORDER BY " <> (order_by <> pagination offset limit)))))))))

  -- a full page has a next link, whose query the handler encodes with every value of each name or the first
  abbrev pub next_page : (Dict (List String) → Query) → Option ℕ → Option ℕ → ℕ → Query → List Link
  next_page urlencode none offset number_returned query = []
  next_page urlencode (some limit) offset number_returned query =
      let next_offset = or_default offset 0 + limit in
      if eqb number_returned limit
      then next_link next_offset limit (urlencode (set_page next_offset limit (parse_qs query)))
        ∷ []
      else []

  module _ {Row : Type 0} (execute : String → Result Raised (List Row)) (prepare : Row → Row)
      (str_of : Raised → String) where
    abbrev pub records_response : String → Option ℕ → Option ℕ → Query → List Row → Response Row
    records_response collection_id limit offset query [] = record {
      items = [];
      number_returned = 0;
      links = self_link ∷ [];
    }
    records_response collection_id limit offset query (row ∷ rows) = record {
      items = map prepare (row ∷ rows);
      number_returned = length (row ∷ rows);
      links =
          self_link
          ∷ collection_link collection_id
          ∷ next_page all_values limit offset (length (row ∷ rows)) query;
    }

    unfoldable pub query_records :
        PageRequest → String → String → List String → Result Raised (Response Row)
    query_records page collection_id order_by conditions = do
      rows ← execute (select_records collection_id conditions order_by page.offset (limit_of page))
      ok (records_response collection_id (limit_of page) page.offset page.query rows)

    -- `except Exception as e: raise HTTPException(500, ...) from e`
    abbrev pub or_failed {ℓ} : {A : Type ℓ} → String → Result Raised A → Result HttpError A
    or_failed detail (ok a) = ok a
    or_failed detail (err e) = err (http 500 (detail <> (": " <> str_of e)))

    unfoldable pub get_crosswalk_items :
        PageRequest
        → Option (List String)
        → Option (List String)
        → Option (List String)
        → Option (List String)
        → Result HttpError (Response Row)
    get_crosswalk_items page primary secondary primary_prefix secondary_prefix =
        or_failed "Failed to load crosswalks" (do
          c1 ← in_condition "primary_location_id" primary
          c2 ← in_condition "secondary_location_id" secondary
          c3 ← prefix_condition "primary_location_id" primary_prefix
          c4 ← prefix_condition "secondary_location_id" secondary_prefix
          query_records page "location_crosswalks" "primary_location_id, secondary_location_id"
              (c1 ++ (c2 ++ (c3 ++ c4))))

    unfoldable pub get_location_id_alias_items :
        PageRequest
        → Option (List String)
        → Option (List String)
        → Option (List String)
        → Option (List String)
        → Result HttpError (Response Row)
    get_location_id_alias_items page location alias location_prefix alias_prefix =
        or_failed "Failed to load location ID aliases" (do
          c1 ← in_condition "location_id" location
          c2 ← in_condition "location_id_alias" alias
          c3 ← prefix_condition "location_id" location_prefix
          c4 ← prefix_condition "location_id_alias" alias_prefix
          query_records page "location_id_aliases" "location_id, location_id_alias"
              (c1 ++ (c2 ++ (c3 ++ c4))))

    unfoldable pub get_configuration_pair_items :
        PageRequest → Option (List String) → Option (List String) → Result HttpError (Response Row)
    get_configuration_pair_items page primary secondary =
        or_failed "Failed to load configuration pairs" (do
          c1 ← in_condition "primary_configuration_name" primary
          c2 ← in_condition "secondary_configuration_name" secondary
          query_records page "configuration_pairs"
              "primary_configuration_name, secondary_configuration_name" (c1 ++ c2))

    -- The other reference collections have no link to a page.
    unfoldable pub query_reference :
        PageRequest → String → String → List String → Result Raised (Response Row)
    query_reference page collection_id order_by conditions = do
      rows ← execute (select_records collection_id conditions order_by page.offset (limit_of page))
      ok (record {
        items = map prepare rows;
        number_returned = length rows;
        links = self_link ∷ collection_link collection_id ∷ [];
      })

    unfoldable pub get_configuration_items :
        PageRequest → Option String → Option String → Result HttpError (Response Row)
    get_configuration_items page name timeseries_type =
        or_failed "Failed to load configurations" (do
          c1 ← name_condition "name" name
          c2 ← name_condition "timeseries_type" timeseries_type
          query_reference page "configurations" "name" (c1 ++ c2))

    -- what the three handlers below share
    unfoldable pub get_named_items :
        String → PageRequest → Option String → Result HttpError (Response Row)
    get_named_items collection_id page name =
        or_failed ("Failed to load " <> collection_id)
          (do c1 ← name_condition "name" name; query_reference page collection_id "name" c1)

    unfoldable pub get_unit_items : PageRequest → Option String → Result HttpError (Response Row)
    get_unit_items page name = get_named_items "units" page name

    unfoldable pub get_variable_items :
        PageRequest → Option String → Result HttpError (Response Row)
    get_variable_items page name = get_named_items "variables" page name

    unfoldable pub get_attribute_items :
        PageRequest → Option String → Result HttpError (Response Row)
    get_attribute_items page name = get_named_items "attributes" page name

    unfoldable pub get_location_attribute_items :
        PageRequest
        → Option (List String)
        → Option String
        → Option (List String)
        → Result HttpError (Response Row)
    get_location_attribute_items page location prefix attribute_name =
        or_failed "Failed to load location attributes" (do
          c1 ← in_condition "location_id" location
          c2 ← one_prefix_condition "location_id" prefix
          c3 ← in_condition "attribute_name" attribute_name
          rows ← execute (
              select_records "location_attributes" (c1 ++ (c2 ++ c3)) "location_id, attribute_name"
                page.offset (limit_of page))
          ok (record {
            items = map prepare rows;
            number_returned = length rows;
            links =
                self_link
                ∷ collection_link "location_attributes"
                ∷ next_page first_values (limit_of page) page.offset (length rows) page.query;
          }))
