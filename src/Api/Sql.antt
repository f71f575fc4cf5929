-- ===== src/Api/Sql.antt =====
-- The conditions of a query, from api/src/routes/filtering.py, crosswalks.py and timeseries.py. Where
-- the source breaks a query over lines, the model has single spaces.
pub mod Literals
pub mod Conditions
mod Tests
use teehr_cloud_core.Base.{
  ℕ, ◌+◌, ◌-◌, ◌*◌, ◌/◌, ◌%◌, ◌^◌, ◌≤◌, ◌<◌, Char, code, String, ◌≡◌, refl, sym, ap, ◌∙◌, ◌≢◌, ◌↔◌,
  ◌⊎◌, inl, inr, Bool, true, false, not, ◌&&◌, ◌||◌, Option, none, some, List, [], ◌∷◌, ◌++◌, map,
  arith, eqb, if◌then◌else◌, or_default, keep, All, difference, ◌==◌, ◌<>◌, has_char, Result, ok,
  err, ◌>>=◌, ◌>>◌, HttpError, http, Result-cases, >>=-passed, ok-injective,
}
use teehr_cloud_core.Base.Decimal.{decimal}
use teehr_cloud_core.Base.Dict.{
  Dict, lookup, insert, erase, keys, has_key, lookup-insert, lookup-erase, has_key-contains,
  HasDistinctKeys, lookup_of_absent,
}
use teehr_cloud_core.Base.Sort.{sorted}
use teehr_cloud_core.Api.Database.{ValueError, none_value, invalid_characters, sanitize_string}

-- What a handler's body raises: an HTTP error, or another exception with its text.
pub data Raised : Type 0 where
  http_exception : HttpError → Raised
  exception : String → Raised

abbrev pub value_error : String → ValueError → Raised
value_error value none_value = exception "Value cannot be None"
value_error value invalid_characters = exception (
    "Invalid characters in value: "
    <> (value <> ". Only alphanumeric characters, underscores, hyphens, and dots are allowed."))

unfoldable pub sanitized : String → Result Raised String
sanitized value = elim (sanitize_string (some value)) [
  | ok s ↦ ok s
  | err e ↦ err (value_error value e)
]

-- `[sanitize_string(v) for v in values]`
unfoldable pub sanitize_all : List String → Result Raised (List String)
sanitize_all [] = ok []
sanitize_all (value ∷ values) = do
  first ← sanitized value
  rest ← sanitize_all values
  ok (first ∷ rest)

-- `separator.join(parts)`
unfoldable pub join : String → List String → String
join separator [] = ""
join separator (part ∷ []) = part
join separator (part ∷ next ∷ parts) = part <> (separator <> join separator (next ∷ parts))

abbrev pub quoted : String → String
quoted value = "'" <> (value <> "'")

abbrev pub in_list : String → List String → String
in_list column values = column <> (" IN (" <> (join ", " (map quoted values) <> ")"))

abbrev pub like_prefix : String → String → String
like_prefix column prefix = column <> (" LIKE '" <> (prefix <> "-%'"))

-- `none` is a parameter that is not given
abbrev pub given : Option (List String) → List String
given values = or_default values []

unfoldable pub in_condition : String → Option (List String) → Result Raised (List String)
in_condition column values = elim (given values) [
  | [] ↦ ok []
  | v ∷ vs ↦ do safe_values ← sanitize_all (v ∷ vs); ok (in_list column safe_values ∷ [])
]

unfoldable pub prefix_condition : String → Option (List String) → Result Raised (List String)
prefix_condition column prefixes = elim (given prefixes) [
  | [] ↦ ok []
  | p ∷ ps ↦ do
    safe_prefixes ← sanitize_all (p ∷ ps)
    ok (("(" <> (join " OR " (map (like_prefix column) safe_prefixes) <> ")")) ∷ [])
]

abbrev pub non_empty : List String → List String
non_empty values = keep (λ v. not (v == "")) values

abbrev pub qualified : String → Option String → String
qualified column none = column
qualified column (some table_alias) = table_alias <> ("." <> column)

unfoldable pub build_string_in_condition :
    String → List String → Option String → Result Raised (Option String)
build_string_in_condition column values table_alias = do
  safe_values ← sanitize_all (non_empty values)
  elim safe_values [
    | [] ↦ ok none
    | v ∷ vs ↦ elim vs [
      | [] ↦ ok (some (qualified column table_alias <> (" = " <> quoted v)))
      | w ∷ ws ↦ ok (some (in_list (qualified column table_alias) (v ∷ w ∷ ws)))
    ]
  ]

abbrev pub equality : String → String → String
equality column value =
    if value == "null" then column <> " IS NULL" else column <> (" = " <> quoted value)

unfoldable pub build_equality_filter_conditions : Dict String → Result Raised (List String)
build_equality_filter_conditions [] = ok []
build_equality_filter_conditions ((column, value) ∷ filters) = do
  safe_column ← sanitized column
  safe_value ← sanitized value
  rest ← build_equality_filter_conditions filters
  ok (equality safe_column safe_value ∷ rest)

-- `schema.get("x-teehr-group-by")` and the names of the schema's properties
pub record Schema : Type 0 where
  pub group_by : Option (List String)
  pub properties : List String

unfoldable pub get_filterable_columns : Schema → Bool → List String
get_filterable_columns schema default_to_properties = elim schema.group_by [
  | some columns ↦ columns
  | none ↦ if default_to_properties then schema.properties else []
]

unfoldable pub verify_filtered_columns : Schema → List String → Bool → Result Raised (Unit {0})
verify_filtered_columns schema filtered_columns default_to_properties =
    elim (difference filtered_columns (get_filterable_columns schema default_to_properties)) [
      | [] ↦ ok tt
      | c ∷ cs ↦
          err (http_exception (http 400 ("Unsupported filters: " <> join ", " (sorted (c ∷ cs)))))
    ]

unfoldable pub where_clause : List String → String
where_clause conditions = elim conditions [ [] ↦ "1=1" | c ∷ cs ↦ join " AND " (c ∷ cs) ]

unfoldable pub pagination : Option ℕ → Option ℕ → String
pagination offset limit =
    elim offset [ none ↦ "" | some n ↦ " OFFSET " <> decimal n ]
    <> elim limit [ none ↦ "" | some n ↦ " LIMIT " <> decimal n ]
