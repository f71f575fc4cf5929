-- ===== src/Api/Links.antt =====
-- api/src/routes/utils.py: the id column of a collection, the page links of a response, and the envelope
-- of records. A link to a page holds the pairs of its query; the rest of its URL is that of the request.
pub mod Queries
pub mod Steps
mod Tests
use teehr_cloud_core.Base.{
  ℕ, ◌+◌, ◌-◌, String, Option, none, some, List, [], ◌∷◌, ◌++◌, ltb, eqb, if◌then◌else◌, length,
  contains, or_default, ◌==◌,
}
use teehr_cloud_core.Base.Decimal.{decimal}
use teehr_cloud_core.Base.Dict.{Dict, lookup, insert}

abbrev pub id_columns : List String
id_columns = "location_id" ∷ "primary_location_id" ∷ []

-- `next((c for c in ID_COLUMNS if c in group_by), None)`
abbrev pub first_in : List String → List String → Option String
first_in [] group_by = none
first_in (c ∷ columns) group_by = if contains c group_by then some c else first_in columns group_by

unfoldable pub get_id_column : List String → Option String
get_id_column group_by = first_in id_columns group_by

-- The pairs of a query.
abbrev pub Query : Type 0
Query = List (String × String)

-- `parse_qs`: the values of each name, without the empty ones
unfoldable pub group_values : Dict (List String) → Query → Dict (List String)
group_values d [] = d
group_values d ((name, value) ∷ query) =
    let added = insert name (or_default (lookup name d) [] ++ value ∷ []) d in
    group_values (if value == "" then d else added) query

unfoldable pub parse_qs : Query → Dict (List String)
unfolding group_values
parse_qs query = group_values [] query

-- `{k: v[0] for k, v in query_params.items()}`
unfoldable pub first_values : Dict (List String) → Query
first_values [] = []
first_values ((name, []) ∷ params) = first_values params
first_values ((name, value ∷ values) ∷ params) = (name, value) ∷ first_values params

-- the parameters with a page set in them
unfoldable pub set_page : ℕ → ℕ → Dict (List String) → Dict (List String)
set_page offset limit params =
    insert "limit" (decimal limit ∷ []) (insert "offset" (decimal offset ∷ []) params)

pub data Target : Type 0 where
  request_itself : Target
  collection_document : String → Target
  page : Query → Target

pub record Link : Type 0 where
  pub target : Target
  pub rel : String
  pub media_type : String
  pub title : String

abbrev pub self_link : String → Link
self_link media_type = record {
  target = request_itself;
  rel = "self";
  media_type = media_type;
  title = "This document";
}

-- `if collection_id:`
abbrev pub collection_links : Option String → List Link
collection_links none = []
collection_links (some id) =
    if id == ""
    then []
    else record {
      target = collection_document id;
      rel = "collection";
      media_type = "application/json";
      title = "The collection document";
    }
      ∷ []

abbrev pub page_link : String → String → String → Dict (List String) → Link
page_link rel media_type title params = record {
  target = page (first_values params);
  rel = rel;
  media_type = media_type;
  title = title;
}

-- The links of a page at an offset. The parameters are one dict, which both links set.
unfoldable pub page_links : String → ℕ → ℕ → ℕ → Query → List Link
page_links media_type limit offset number_returned query =
    let next_params = set_page (offset + limit) limit (parse_qs query) in
    let is_full = eqb number_returned limit in
    let prev_params =
      set_page (offset - limit) limit (if is_full then next_params else parse_qs query) in
    (if is_full then page_link "next" media_type "Next page" next_params ∷ [] else [])
    ++ (if ltb 0 offset then page_link "prev" media_type "Previous page" prev_params ∷ [] else [])

-- the pages of GeoJSON, where both parameters are given
abbrev pub geojson_page_links : Option ℕ → Option ℕ → ℕ → Query → List Link
geojson_page_links none offset number_returned query = []
geojson_page_links (some limit) none number_returned query = []
geojson_page_links (some limit) (some offset) number_returned query =
    page_links "application/geo+json" limit offset number_returned query

-- the pages of records: an absent offset is the first page
abbrev pub records_page_links : Option ℕ → Option ℕ → ℕ → Query → List Link
records_page_links none offset number_returned query = []
records_page_links (some limit) offset number_returned query =
    page_links "application/json" limit (or_default offset 0) number_returned query

pub record RecordsResponse (Item : Type 0) : Type 0 where
  pub items : List Item
  pub number_returned : ℕ
  pub number_matched : Option ℕ
  pub links : List Link

unfoldable pub create_ogc_records_response :
    {Item : Type 0}
    → List Item
    → Query
    → Option ℕ
    → Option String
    → Option ℕ
    → Option ℕ
    → RecordsResponse Item
create_ogc_records_response items query number_matched collection_id limit offset = record {
  items = items;
  number_returned = length items;
  number_matched = number_matched;
  links =
      self_link "application/json" ∷ collection_links collection_id
      ++ records_page_links limit offset (length items) query;
}
