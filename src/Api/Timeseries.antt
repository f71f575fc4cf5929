-- ===== src/Api/Timeseries.antt =====
-- api/src/routes/timeseries.py: the queries of the primary and the secondary timeseries. The ISO dates
-- are a parameter: `parse_date` is `fromisoformat` with `strftime`, `none` where it raises. Digits are
-- those of ASCII, and a number of seconds is read without rounding.
pub mod Durations
pub mod Handlers
pub mod Errors
mod Tests
use mathlib.Core.Option
use teehr_cloud_core.Base.{
  ℕ, zero, ◌+◌, ◌-◌, ◌*◌, ◌/◌, ◌%◌, ◌^◌, ◌≤◌, ◌<◌, Char, code, String, ◌≡◌, refl, ap, ◌∙◌, ◌≢◌, ◌↔◌,
  ◌⊎◌, inl, inr, Bool, true, false, not, ◌&&◌, ◌||◌, Option, none, some, List, [], ◌∷◌, ◌++◌, map,
  arith, eq_iff, leb, eqb, if◌then◌else◌, Bool-cases, Option-cases, or_default, length, ◌==◌, ◌<>◌,
  strip_prefix, has_char, partition, Result, ok, err, ◌>>=◌, ◌>>◌, HttpError, http, >>=-passed,
  ok-injective,
}
use teehr_cloud_core.Base.Decimal.{decimal}
use teehr_cloud_core.Api.Identity.{AuthIdentity, Limits, effective_limit_for_request, strip_bearer}
use teehr_cloud_core.Api.Sql.{
  Raised, http_exception, exception, sanitize_all, in_list, build_string_in_condition, given, join,
  pagination,
}
use teehr_cloud_core.Api.Records.{
  Link, self_link, collection_link, PageRequest, next_page, limit_of,
}

abbrev pub is_digit : Char → Bool
is_digit c = leb b'0' (code c) && leb (code c) b'9'

-- the value of `\d*`, and what follows
unfoldable pub take_number : ℕ → String → ℕ × String
take_number n String.[] = (n, "")
take_number n (String.◌∷◌ c s) =
    let rest = take_number (n * 10 + (code c - b'0')) s in
    if is_digit c then rest else (n, String.◌∷◌ c s)

abbrev pub starts_with_digit : String → Bool
starts_with_digit String.[] = false
starts_with_digit (String.◌∷◌ c s) = is_digit c

-- `(?:(\d+)U)?`, with 0 where the group is not there
unfoldable pub component : String → String → ℕ × String
component unit s =
    let number = take_number 0 s in
    if starts_with_digit s
    then elim (strip_prefix unit number.1) [ none ↦ (0, s) | some rest ↦ (number.0, rest) ]
    else (0, s)

-- `(?:\.\d+)?`
unfoldable pub skip_fraction : String → String
skip_fraction s = elim (strip_prefix "." s) [
  | none ↦ s
  | some rest ↦ if starts_with_digit rest then (take_number 0 rest).1 else s
]

-- `(?:(\d+(?:\.\d+)?)S)?`, cut to whole seconds
unfoldable pub seconds_component : String → ℕ × String
seconds_component s =
    let number = take_number 0 s in
    if starts_with_digit s
    then elim (strip_prefix "S" (skip_fraction number.1)) [
      | none ↦ (0, s)
      | some rest ↦ (number.0, rest)
    ]
    else (0, s)

-- the part after "T"
unfoldable pub time_part : String → Option ℕ
time_part s =
    let hours = component "H" s in
    let minutes = component "M" hours.1 in
    let seconds = seconds_component minutes.1 in
    if seconds.1 == "" then some (hours.0 * 3600 + minutes.0 * 60 + seconds.0) else none

-- the seconds of a text that matches; `none` where it does not
unfoldable pub match_duration : String → Option ℕ
match_duration s = elim (strip_prefix "P" s) [
  | none ↦ none
  | some rest ↦
      let days = component "D" rest in
      elim (strip_prefix "T" days.1) [
        | none ↦ if days.1 == "" then some (days.0 * 86400) else none
        | some time ↦ Option.map (λ t. days.0 * 86400 + t) (time_part time)
      ]
]

pub data DurationError : Type 0 where
  unsupported zero_seconds : DurationError

unfoldable pub parse_iso_duration_to_seconds : String → Result DurationError ℕ
parse_iso_duration_to_seconds s = elim (match_duration s) [
  | none ↦ err unsupported
  | some total ↦ if eqb total 0 then err zero_seconds else ok total
]

abbrev pub duration_message : String → DurationError → String
duration_message s unsupported =
    "Invalid or unsupported ISO 8601 duration: '"
    <> (s <> "'. Year and month components (P[n]Y, P[n]M) are not supported.")
duration_message s zero_seconds = "Duration '" <> (s <> "' resolves to zero seconds.")

abbrev pub duration_text : String → ℕ → String
duration_text column seconds =
    "CAST(to_unixtime(" <> (column <> (") AS BIGINT) % " <> (decimal seconds <> " = 0")))

-- `if timestep_duration:`, with the ValueError turned into an HTTP error
unfoldable pub duration_conditions : String → Option String → Result Raised (List String)
duration_conditions column duration =
    let text = or_default duration "" in
    if text == "" then ok [] else elim (parse_iso_duration_to_seconds text) [
      | ok seconds ↦ ok (duration_text column seconds ∷ [])
      | err e ↦ err (http_exception (http 400 (duration_message text e)))
    ]

abbrev pub is_geojson : Option String → Bool
is_geojson none = false
is_geojson (some f) = elim (strip_bearer "geojson" f) [ none ↦ false | some rest ↦ rest == "" ]

-- `if variable_name:` and `if variable_condition:`
unfoldable pub names_conditions :
    String → Option (List String) → Option String → Result Raised (List String)
names_conditions column names table_alias = elim (given names) [
  | [] ↦ ok []
  | n ∷ ns ↦ do
    condition ← build_string_in_condition column (n ∷ ns) table_alias
    ok (elim condition [ none ↦ [] | some c ↦ c ∷ [] ])
]

-- `s.replace("Z", "+00:00")`
unfoldable pub replace_z : String → String
replace_z String.[] = ""
replace_z (String.◌∷◌ c s) =
    let rest = replace_z s in if eqb (code c) b'Z' then "+00:00" <> rest else String.◌∷◌ c rest

module _ (parse_date : String → Option String) where
  -- one end of an interval; "" and ".." are open
  unfoldable pub end_condition : String → String → String → Result Raised (List String)
  end_condition column comparison text =
      if text == "" || text == ".." then ok [] else elim (parse_date (replace_z text)) [
        | none ↦ err (exception ("Invalid isoformat string: '" <> (replace_z text <> "'")))
        | some date ↦
            ok ((column <> (" " <> (comparison <> (" TIMESTAMP '" <> (date <> "'"))))) ∷ [])
      ]

  -- an interval, or one date for both ends
  unfoldable pub interval_conditions : String → Option String → Result Raised (List String)
  interval_conditions column interval =
      let text = or_default interval "" in
      let ends = if has_char b'/' text then partition b'/' text else (text, text) in
      if text == "" then ok [] else do
        first ← end_condition column ">=" ends.0
        last ← end_condition column "<=" ends.1
        ok (first ++ last)

-- the locations of the secondary timeseries: one list or the other
unfoldable pub secondary_locations :
    Option (List String) → Option (List String) → Result Raised String
secondary_locations primary secondary = elim (given primary) [
  | [] ↦ elim (given secondary) [
    | [] ↦ err (
        http_exception
          (http 400 "Must provide either primary_location_id or secondary_location_id"))
    | s ∷ ss ↦ do safe ← sanitize_all (s ∷ ss); ok (in_list "lc.secondary_location_id" safe)
  ]
  | p ∷ ps ↦ elim (given secondary) [
    | [] ↦ do safe ← sanitize_all (p ∷ ps); ok (in_list "lc.primary_location_id" safe)
    | s ∷ ss ↦ err (
        http_exception (
          http 400
            "Cannot filter by both primary_location_id and secondary_location_id. Use one or the other."))
  ]
]
