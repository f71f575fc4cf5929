-- ===== src/Xpublish/Rules/Tests.antt =====
-- A document with a default and one restricted repo.
use teehr_cloud_core.Base.{◌≡◌, refl, some, [], ◌∷◌, ok}
use teehr_cloud_core.Xpublish.Authz.{AccessRules}
use teehr_cloud_core.Xpublish.Rules.{object, null, Members, member, no_members, parse_access_rules}
use teehr_cloud_core.Xpublish.Rules.Printing.{document_of, parse_access_rules-document_of}

abbrev rules : AccessRules
rules = record {
  default = some ("analyst" ∷ []);
  repo_items = ("restricted", "admin" ∷ []) ∷ [];
  layer_items = [];
}

parse_access_rules-document_of_example :
    parse_access_rules (λ raw. some (object (document_of rules))) "rules" ≡ ok rules
parse_access_rules-document_of_example =
    parse_access_rules-document_of (λ raw. some (object (document_of rules))) "rules" rules refl

abbrev misspelled : Members
misspelled = member "repo" null no_members
