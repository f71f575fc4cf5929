-- ===== src/Xpublish/Authz/Listed.antt =====
-- Which listed items a user can and cannot read.
use teehr_cloud_core.Base.{
  String, ◌≡◌, Bool, false, not, Option, none, some, List, [], ◌∷◌, contains, arith, refl, eq_iff,
}
use teehr_cloud_core.Base.Dict.{Dict, lookup, keys, HasDistinctKeys}
use teehr_cloud_core.Base.Sort.{contains-sorted}
use teehr_cloud_core.Xpublish.Identity.{AuthIdentity}
use teehr_cloud_core.Xpublish.Authz.{
  Kind, AccessRules, items, holds_any, names_where, unreadable_listed, readable_listed,
}

abbrev pub found_and : (List String → Bool) → Option (List String) → Bool
found_and p none = false
found_and p (some roles) = p roles

names_where_absent :
    (p : List String → Bool) (name : String) (d : Dict (List String))
    → contains name (keys d) ≡ false
    → contains name (names_where p d) ≡ false
unfolding names_where
names_where_absent p name [] h = refl
names_where_absent p name ((k, roles) ∷ d) h = ground (arith, names_where_absent p name d)

contains-names_where :
    (p : List String → Bool) (name : String) (d : Dict (List String))
    → HasDistinctKeys d
    → contains name (names_where p d) ≡ found_and p (lookup name d)
unfolding names_where lookup
contains-names_where p name [] h = refl
contains-names_where p name ((k, roles) ∷ d) h = ground (
  arith,
  eq_iff k name,
  eq_iff name k,
  names_where_absent p k d,
  contains-names_where p name d h.1,
)

module _ (rules : AccessRules) (identity : AuthIdentity) (kind : Kind) (name : String) where
  pub contains-readable_listed :
      HasDistinctKeys (items rules kind)
      → contains name (readable_listed rules identity kind)
        ≡ found_and (λ roles. holds_any identity roles) (lookup name (items rules kind))
  unfolding readable_listed
  contains-readable_listed h =
      rw (contains-sorted, contains-names_where _ name (items rules kind) h)

  pub contains-unreadable_listed :
      HasDistinctKeys (items rules kind)
      → contains name (unreadable_listed rules identity kind)
        ≡ found_and (λ roles. not (holds_any identity roles)) (lookup name (items rules kind))
  unfolding unreadable_listed
  contains-unreadable_listed h =
      rw (contains-sorted, contains-names_where _ name (items rules kind) h)
