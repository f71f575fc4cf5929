-- ===== src/Xpublish/Authz/Tests.antt =====
-- The access rules of authz.py on a small catalog.
use teehr_cloud_core.Base.{◌≡◌, ◌↔◌, true, none, some, [], ◌∷◌}
use teehr_cloud_core.Xpublish.Identity.{AuthIdentity}
use teehr_cloud_core.Xpublish.Authz.{AccessRules, Kind, is_permitted}
use teehr_cloud_core.Xpublish.Authz.Reads.{MayRead, is_permitted_iff}

abbrev rules : AccessRules
rules = record {
  default = none;
  repo_items = ("gridded", "analyst" ∷ "admin" ∷ []) ∷ [];
  layer_items = [];
}

abbrev analyst : AuthIdentity
analyst = record {
  subject = "u1";
  auth_type = "jwt";
  roles = "analyst" ∷ [];
  scopes = [];
  preferred_username = some "ann";
}

is_permitted_iff_example :
    is_permitted rules analyst Kind.repos "gridded" ≡ true
    ↔ MayRead rules analyst Kind.repos "gridded"
is_permitted_iff_example = is_permitted_iff rules analyst Kind.repos "gridded"
