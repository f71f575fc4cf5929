-- ===== src/Xpublish/Authz.antt =====
-- xpublish-api/src/authz.py: read access by realm role to icechunk repos and vector-tile layers, and
-- what a request path reads.
pub mod Reads
pub mod Listed
pub mod Requests
mod Tests
use teehr_cloud_core.Base.{
  String, Bool, true, false, not, ◌&&◌, ◌||◌, Option, none, some, List, [], ◌∷◌, ◌==◌,
  if◌then◌else◌, any, all, contains, difference, strip_prefix, strip_suffix, starts_with, has_char,
  partition,
}
use teehr_cloud_core.Base.Dict.{Dict, lookup, keys}
use teehr_cloud_core.Base.Sort.{sorted}
use teehr_cloud_core.Xpublish.Identity.{AuthIdentity, is_authenticated}

pub data Kind : Type 0 where
  repos layers : Kind

-- `default` is `none` where unlisted items are open to every logged-in user.
pub record AccessRules : Type 0 where
  pub default : Option (List String)
  pub repo_items : Dict (List String)
  pub layer_items : Dict (List String)

-- `rules.items[kind]`
abbrev pub items : AccessRules → Kind → Dict (List String)
items rules repos = rules.repo_items
items rules layers = rules.layer_items

unfoldable pub holds_any : AuthIdentity → List String → Bool
holds_any identity roles = any (λ role. contains role identity.roles) roles

unfoldable pub has_default : AccessRules → AuthIdentity → Bool
has_default rules identity =
    is_authenticated identity
    && elim rules.default [ none ↦ true | some roles ↦ holds_any identity roles ]

unfoldable pub is_permitted : AccessRules → AuthIdentity → Kind → String → Bool
is_permitted rules identity kind name =
    if not (is_authenticated identity) then false else elim (lookup name (items rules kind)) [
      | none ↦ has_default rules identity
      | some listed ↦ holds_any identity listed
    ]

-- `[name for name, roles in entries.items() if p(roles)]`
unfoldable pub names_where : (List String → Bool) → Dict (List String) → List String
names_where p [] = []
names_where p ((name, roles) ∷ entries) =
    if p roles then name ∷ names_where p entries else names_where p entries

unfoldable pub unreadable_listed : AccessRules → AuthIdentity → Kind → List String
unreadable_listed rules identity kind =
    sorted (names_where (λ roles. not (holds_any identity roles)) (items rules kind))

unfoldable pub readable_listed : AccessRules → AuthIdentity → Kind → List String
readable_listed rules identity kind =
    sorted (names_where (λ roles. holds_any identity roles) (items rules kind))

unfoldable pub unmatched : AccessRules → Kind → List String → List String
unmatched rules kind existing = sorted (difference (keys (items rules kind)) existing)

abbrev pub dataset_routes : List String
dataset_routes = "coords/" ∷ "variable-attrs" ∷ "metadata" ∷ "edr/" ∷ "tiles/" ∷ []

abbrev pub data_suffix : String
data_suffix = "_data"

-- What a request reads: `deny` for a path that is not recognised, `open_path` for no repo or layer.
pub data Target : Type 0 where
  deny open_path : Target
  reads : Kind → List String → Target

unfoldable pub repo_candidates : String → List String
repo_candidates dataset_id = elim (strip_suffix data_suffix dataset_id) [
  | none ↦ dataset_id ∷ []
  | some base ↦ if dataset_id == data_suffix then dataset_id ∷ [] else dataset_id ∷ base ∷ []
]

abbrev pub is_dataset_route : String → Bool
is_dataset_route rest =
    rest == "variable-attrs"
    || rest == "metadata"
    || any (λ route. starts_with rest route) dataset_routes

-- the part of `request_target` under "/api/datasets/", after `partition("/")`
unfoldable pub dataset_target : String × String → Target
dataset_target (dataset_id, rest) =
    if dataset_id == "" || not (is_dataset_route rest)
    then deny
    else reads repos (repo_candidates dataset_id)

unfoldable pub variables_target : String → Target
variables_target dataset_id =
    if dataset_id == "" || has_char b'/' dataset_id
    then deny
    else reads repos (repo_candidates dataset_id)

unfoldable pub archive_target : String → Target
archive_target archive = elim (strip_suffix ".pmtiles" archive) [
  | none ↦ deny
  | some layer ↦
      if has_char b'/' archive || archive == ".pmtiles" then deny else reads layers (layer ∷ [])
]

unfoldable pub request_target : String → Target
unfolding dataset_target variables_target archive_target
request_target path =
    if path == "/api/datasets" || path == "/api/datasets/"
    then deny
    else elim (strip_prefix "/api/datasets/" path) [
      | some rest ↦ dataset_target (partition b'/' rest)
      | none ↦ elim (strip_prefix "/api/dataset-variables/" path) [
        | some dataset_id ↦ variables_target dataset_id
        | none ↦ elim (strip_prefix "/api/vector-tiles/" path) [
          | some archive ↦ archive_target archive
          | none ↦ open_path
        ]
      ]
    ]

unfoldable pub is_request_permitted : AccessRules → AuthIdentity → String → Bool
is_request_permitted rules identity path = elim (request_target path) [
  | open_path ↦ true
  | deny ↦ false
  | reads kind names ↦ all (λ name. is_permitted rules identity kind name) names
]
