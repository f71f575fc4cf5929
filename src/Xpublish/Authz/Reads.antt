-- ===== src/Xpublish/Authz/Reads.antt =====
-- The access tests of authz.py against the rules stated as a relation.
use teehr_cloud_core.Base.{
  String, ◌≡◌, ◌↔◌, true, none, some, List, contains, arith, Option-cases, inl, inr, any_elim,
  any_intro, eq_iff,
}
use teehr_cloud_core.Base.Dict.{lookup}
use teehr_cloud_core.Xpublish.Identity.{AuthIdentity}
use teehr_cloud_core.Xpublish.Authz.{Kind, AccessRules, items, holds_any, has_default, is_permitted}

-- The user has one of the roles.
pub data Shares (identity : AuthIdentity) (roles : List String) : Type 0 where
  role :
      (r : String)
      → contains r roles ≡ true
      → contains r identity.roles ≡ true
      → Shares identity roles

-- The rule that applies to an item that is not listed.
pub data ByDefault (rules : AccessRules) (identity : AuthIdentity) : Type 0 where
  no_default : rules.default ≡ none → ByDefault rules identity
  default_role :
      (roles : List String)
      → rules.default ≡ some roles
      → Shares identity roles
      → ByDefault rules identity

-- Why a logged-in user may read an item.
pub data MayRead (rules : AccessRules) (identity : AuthIdentity) (kind : Kind) (name : String)
    : Type 0 where
  by_listing :
      (roles : List String)
      → identity.auth_type ≡ "jwt"
      → lookup name (items rules kind) ≡ some roles
      → Shares identity roles
      → MayRead rules identity kind name
  by_default :
      identity.auth_type ≡ "jwt"
      → lookup name (items rules kind) ≡ none
      → ByDefault rules identity
      → MayRead rules identity kind name

holds_any_sound :
    (identity : AuthIdentity) (roles : List String)
    → holds_any identity roles ≡ true
    → Shares identity roles
unfolding holds_any
holds_any_sound identity roles h = let (r, listed, held) = any_elim _ roles h in role r listed held

holds_any_complete :
    {identity : AuthIdentity} {roles : List String}
    → Shares identity roles
    → holds_any identity roles ≡ true
unfolding holds_any
holds_any_complete {roles} (role r listed held) = any_intro _ r roles listed held

has_default_sound :
    (rules : AccessRules) (identity : AuthIdentity)
    → has_default rules identity ≡ true
    → (identity.auth_type ≡ "jwt") × ByDefault rules identity
unfolding has_default
has_default_sound rules identity h =
    let jwt : identity.auth_type ≡ "jwt" = ground (arith, eq_iff identity.auth_type "jwt") in
    elim (Option-cases rules.default) [
      | inl e ↦ (jwt, no_default e)
      | inr (roles, e) ↦ (jwt, default_role roles e (holds_any_sound identity roles (ground arith)))
    ]

has_default_complete :
    (rules : AccessRules) (identity : AuthIdentity)
    → identity.auth_type ≡ "jwt"
    → ByDefault rules identity
    → has_default rules identity ≡ true
unfolding has_default
has_default_complete rules identity jwt (no_default e) =
    ground (arith, eq_iff identity.auth_type "jwt")
has_default_complete rules identity jwt (default_role roles e s) =
    ground (arith, eq_iff identity.auth_type "jwt", holds_any_complete s)

is_permitted_sound :
    (rules : AccessRules) (identity : AuthIdentity) (kind : Kind) (name : String)
    → is_permitted rules identity kind name ≡ true
    → MayRead rules identity kind name
unfolding is_permitted
is_permitted_sound rules identity kind name h =
    let jwt : identity.auth_type ≡ "jwt" = ground (arith, eq_iff identity.auth_type "jwt") in
    elim (Option-cases (lookup name (items rules kind))) [
      | inl e ↦ by_default jwt e (has_default_sound rules identity (ground arith)).1
      | inr (roles, e) ↦ by_listing roles jwt e (holds_any_sound identity roles (ground arith))
    ]

is_permitted_complete :
    (rules : AccessRules) (identity : AuthIdentity) (kind : Kind) (name : String)
    → MayRead rules identity kind name
    → is_permitted rules identity kind name ≡ true
unfolding is_permitted
is_permitted_complete rules identity kind name (by_listing roles jwt e s) =
    ground (arith, eq_iff identity.auth_type "jwt", holds_any_complete s)
is_permitted_complete rules identity kind name (by_default jwt e d) =
    ground (arith, eq_iff identity.auth_type "jwt", has_default_complete rules identity jwt d)

-- `is_permitted` answers yes exactly for a logged-in user (auth type "jwt") who shares a role with
-- the item's own list, or, where the item has no list of its own, when no default list is set or the
-- user shares a role with it.
pub is_permitted_iff :
    (rules : AccessRules) (identity : AuthIdentity) (kind : Kind) (name : String)
    → (is_permitted rules identity kind name ≡ true) ↔ MayRead rules identity kind name
is_permitted_iff rules identity kind name =
    (is_permitted_sound rules identity kind name, is_permitted_complete rules identity kind name)
