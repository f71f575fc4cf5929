-- ===== src/Xpublish/Rules/Printing.antt =====
-- A document for each map of rules, which is read back as the rules.
use teehr_cloud_core.Base.{
  String, ◌≡◌, refl, true, Option, none, some, List, [], ◌∷◌, if◌then◌else◌, difference, ◌==◌, ok,
  err, ◌>>=◌,
}
use teehr_cloud_core.Base.Dict.{Dict}
use teehr_cloud_core.Base.Sort.{sorted}
use teehr_cloud_core.Xpublish.Authz.{AccessRules}
use teehr_cloud_core.Xpublish.Rules.{
  Json, text, array, object, Elements, no_elements, element, Members, no_members, member,
  role_names, find_member, read_entries, read_kind, read_default, read_rules, parse_access_rules,
  member_keys, known_keys, has_unknown, unknown_keys,
}

abbrev pub elements_of : List String → Elements
elements_of [] = no_elements
elements_of (role ∷ roles) = element (text role) (elements_of roles)

abbrev pub members_of : Dict (List String) → Members
members_of [] = no_members
members_of ((name, roles) ∷ items) = member name (array (elements_of roles)) (members_of items)

abbrev pub with_default : Option (List String) → Members → Members
with_default none members = members
with_default (some roles) members = member "default" (array (elements_of roles)) members

abbrev pub kinds_of : Dict (List String) → Dict (List String) → Members
kinds_of repo_items layer_items =
    member "repos" (object (members_of repo_items))
      (member "layers" (object (members_of layer_items)) no_members)

abbrev pub document_of : AccessRules → Members
document_of rules = with_default rules.default (kinds_of rules.repo_items rules.layer_items)

role_names-elements_of : (roles : List String) → role_names (elements_of roles) ≡ some roles
unfolding role_names
role_names-elements_of [] = refl
role_names-elements_of (role ∷ roles) = rw (role_names-elements_of roles) refl

read_entries-members_of :
    (kind : String) (items : Dict (List String)) → read_entries kind (members_of items) ≡ ok items
unfolding read_entries
read_entries-members_of kind [] = refl
read_entries-members_of kind ((name, roles) ∷ items) =
    rw (role_names-elements_of roles, read_entries-members_of kind items) refl

read_rules-with_default :
    (default : Option (List String)) (repo_items layer_items : Dict (List String))
    → read_rules (with_default default (kinds_of repo_items layer_items))
      ≡ ok (record { default = default; repo_items = repo_items; layer_items = layer_items })
unfolding read_rules read_kind read_default find_member
read_rules-with_default none repo_items layer_items =
    rw
      (
        read_entries-members_of "repos" repo_items,
        ◌>>=◌,
        read_entries-members_of "layers" layer_items,
      )
      refl
read_rules-with_default (some roles) repo_items layer_items =
    rw
      (
        read_entries-members_of "repos" repo_items,
        ◌>>=◌,
        read_entries-members_of "layers" layer_items,
        ◌>>=◌,
        role_names-elements_of roles,
      )
      refl

-- A document that is read as the JSON object of some rules, with or without a default, is parsed to
-- those rules.
pub parse_access_rules-document_of :
    (loads : String → Option Json) (raw : String) (rules : AccessRules)
    → loads (if raw == "" then "{}" else raw) ≡ some (object (document_of rules))
    → parse_access_rules loads raw ≡ ok rules
unfolding parse_access_rules
parse_access_rules-document_of loads raw rules e =
    rw (parse_access_rules, e)
      (read_rules-with_default rules.default rules.repo_items rules.layer_items)

-- A document with a key other than "default", "repos" and "layers" is refused, whatever else it holds.
pub parse_access_rules-unknown :
    (loads : String → Option Json) (raw : String) (members : Members)
    → loads (if raw == "" then "{}" else raw) ≡ some (object members)
    → has_unknown (difference (member_keys members) known_keys) ≡ true
    → (unknown : List String) × (parse_access_rules loads raw ≡ err (unknown_keys unknown))
unfolding parse_access_rules read_rules
parse_access_rules-unknown loads raw members e h = (
  sorted (difference (member_keys members) known_keys),
  rw (parse_access_rules, e, read_rules, h) refl,
)
