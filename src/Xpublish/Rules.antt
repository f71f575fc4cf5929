-- ===== src/Xpublish/Rules.antt =====
-- xpublish-api/src/authz.py: the parsing of the access rules. `json.loads` is a parameter; the rules do
-- not read numbers, so a number is kept as its text.
pub mod Printing
mod Tests
use teehr_cloud_core.Base.{
  ℕ, ◌+◌, ◌-◌, ◌*◌, ◌/◌, ◌%◌, ◌^◌, ◌≤◌, ◌<◌, String, ◌≡◌, refl, ◌∙◌, ◌≢◌, ◌↔◌, ◌⊎◌, Bool, true,
  false, ◌&&◌, ◌||◌, Option, none, some, List, [], ◌∷◌, ◌++◌, map, if◌then◌else◌, difference, ◌==◌,
  ◌<>◌, Result, ok, err, ◌>>=◌, ◌>>◌, raise_if, or_raise, >>=-passed,
}
use teehr_cloud_core.Base.Dict.{
  Dict, lookup, insert, erase, keys, has_key, lookup-insert, lookup-erase, has_key-contains,
  HasDistinctKeys, lookup_of_absent,
}
use mathlib.Core.Option
use teehr_cloud_core.Base.Sort.{sorted}
use teehr_cloud_core.Xpublish.Authz.{AccessRules}

mutual
  pub data Json : Type 0 where
    null : Json
    boolean : Bool → Json
    number : String → Json
    text : String → Json
    array : Elements → Json
    object : Members → Json

  pub data Elements : Type 0 where
    no_elements : Elements
    element : Json → Elements → Elements

  pub data Members : Type 0 where
    no_members : Members
    member : String → Json → Members → Members

-- An invalid document, a document that is no object, unknown keys, a kind that is no object, and roles
-- that are no list of names, with where they stand.
pub data RulesError : Type 0 where
  not_json not_an_object : RulesError
  unknown_keys : List String → RulesError
  kind_not_an_object : String → RulesError
  not_roles : String → RulesError

-- `list(value)` if every element is a text
unfoldable pub role_names : Elements → Option (List String)
role_names no_elements = some []
role_names (element json elements) =
    let rest = role_names elements in
    elim json [
      | text role ↦ Option.map (λ roles. role ∷ roles) rest
      | null ↦ none
      | boolean b ↦ none
      | number n ↦ none
      | array es ↦ none
      | object ms ↦ none
    ]

-- `_roles`
abbrev pub roles_of : Json → String → Result RulesError (List String)
roles_of (array elements) place = or_raise (role_names elements) (not_roles place)
roles_of null place = err (not_roles place)
roles_of (boolean b) place = err (not_roles place)
roles_of (number n) place = err (not_roles place)
roles_of (text s) place = err (not_roles place)
roles_of (object ms) place = err (not_roles place)

abbrev pub member_keys : Members → List String
member_keys no_members = []
member_keys (member key json members) = key ∷ member_keys members

unfoldable pub find_member : String → Members → Option Json
find_member key no_members = none
find_member key (member k json members) = if k == key then some json else find_member key members

-- the comprehension over `entries.items()`
unfoldable pub read_entries : String → Members → Result RulesError (Dict (List String))
read_entries kind no_members = ok []
read_entries kind (member name json members) = do
  roles ← roles_of json (kind <> ("." <> name))
  rest ← read_entries kind members
  ok ((name, roles) ∷ rest)

-- `data.get(kind, {})`
unfoldable pub read_kind : String → Members → Result RulesError (Dict (List String))
read_kind kind members = elim (find_member kind members) [
  | none ↦ ok []
  | some json ↦ elim json [
    | object entries ↦ read_entries kind entries
    | null ↦ err (kind_not_an_object kind)
    | boolean b ↦ err (kind_not_an_object kind)
    | number n ↦ err (kind_not_an_object kind)
    | text s ↦ err (kind_not_an_object kind)
    | array es ↦ err (kind_not_an_object kind)
  ]
]

unfoldable pub read_default : Members → Result RulesError (Option (List String))
read_default members = elim (find_member "default" members) [
  | none ↦ ok none
  | some json ↦ do roles ← roles_of json "default"; ok (some roles)
]

abbrev pub known_keys : List String
known_keys = "default" ∷ "repos" ∷ "layers" ∷ []

abbrev pub has_unknown : List String → Bool
has_unknown [] = false
has_unknown (k ∷ ks) = true

unfoldable pub read_rules : Members → Result RulesError AccessRules
read_rules members = do
  let unknown = difference (member_keys members) known_keys
  raise_if (has_unknown unknown) (unknown_keys (sorted unknown))
  repo_items ← read_kind "repos" members
  layer_items ← read_kind "layers" members
  default ← read_default members
  ok (record { default = default; repo_items = repo_items; layer_items = layer_items })

unfoldable pub parse_access_rules : (String → Option Json) → String → Result RulesError AccessRules
parse_access_rules loads raw = elim (loads (if raw == "" then "{}" else raw)) [
  | none ↦ err not_json
  | some json ↦ elim json [
    | object members ↦ read_rules members
    | null ↦ err not_an_object
    | boolean b ↦ err not_an_object
    | number n ↦ err not_an_object
    | text s ↦ err not_an_object
    | array es ↦ err not_an_object
  ]
]
