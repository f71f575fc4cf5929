-- ===== src/Xpublish/Credentials/Grants.antt =====
-- The session policy of credentials.py grants what the access rules of authz.py permit.
use teehr_cloud_core.Base.{
  String, ◌≡◌, sym, ◌∙◌, inl, inr, Bool, true, false, not, List, arith, eq_iff, if◌then◌else◌,
  Bool-cases, Option-cases, All, contains, All-of_contains,
}
use teehr_cloud_core.Base.Dict.{lookup, keys, has_key-contains, HasDistinctKeys}
use mathlib.Core.Bool.{not-not}
use teehr_cloud_core.Xpublish.Identity.{AuthIdentity, is_authenticated}
use teehr_cloud_core.Xpublish.Authz.{
  AccessRules, Kind, holds_any, has_default, is_permitted, readable_listed, unreadable_listed,
}
use teehr_cloud_core.Xpublish.Authz.Listed.{
  found_and, contains-readable_listed, contains-unreadable_listed,
}
use teehr_cloud_core.Xpublish.Credentials.{policy_for, build_session_policy, Statement}
use teehr_cloud_core.Xpublish.Credentials.Iam.{Iam, IsPlain}
use teehr_cloud_core.Xpublish.Credentials.Policy.{
  IsRepoName, get_object, list_bucket, get_allowed, list_allowed,
}

-- The repos that a mode and its list grant.
abbrev pub grants : Bool × List String → String → Bool
grants (deny_mode, listed) repo =
    if deny_mode then not (contains repo listed) else contains repo listed

module _ (rules : AccessRules) (identity : AuthIdentity) (jwt : identity.auth_type ≡ "jwt")
    (distinct : HasDistinctKeys rules.repo_items) where
  logged_in : is_authenticated identity ≡ true
  logged_in = (eq_iff identity.auth_type "jwt").1 jwt

  policy_for_deny :
      (name : String)
      → has_default rules identity ≡ true
      → not (contains name (unreadable_listed rules identity Kind.repos))
        ≡ is_permitted rules identity Kind.repos name
  unfolding is_permitted
  policy_for_deny name d =
      rw (contains-unreadable_listed rules identity Kind.repos name distinct)
        (elim (Option-cases (lookup name rules.repo_items)) [
          | inl e ↦ rw (e, logged_in) (sym d)
          | inr (roles, e) ↦ rw (e, logged_in) (not-not (holds_any identity roles))
        ])

  policy_for_allow :
      (name : String)
      → has_default rules identity ≡ false
      → contains name (readable_listed rules identity Kind.repos)
        ≡ is_permitted rules identity Kind.repos name
  unfolding is_permitted
  policy_for_allow name d =
      rw (contains-readable_listed rules identity Kind.repos name distinct)
        (elim (Option-cases (lookup name rules.repo_items)) [
          | inl e ↦ rw (e, logged_in) (sym d)
          | inr (roles, e) ↦ rw (e, logged_in)
        ])

  -- For a logged-in user, with rules that list no repo twice, the mode and the list of `policy_for`
  -- grant exactly the repos that `is_permitted` allows.
  pub grants-policy_for :
      (name : String)
      → grants (policy_for rules identity) name ≡ is_permitted rules identity Kind.repos name
  unfolding policy_for
  grants-policy_for name = elim (Bool-cases (has_default rules identity)) [
    | inl d ↦ rw d (policy_for_deny name d)
    | inr d ↦ rw d (policy_for_allow name d)
  ]

  module _
      (listed_names : (r : String) → contains r (keys rules.repo_items) ≡ true → IsRepoName r) where
    listed_key :
        (p : List String → Bool) (r : String)
        → found_and p (lookup r rules.repo_items) ≡ true
        → contains r (keys rules.repo_items) ≡ true
    listed_key p r h = ground (arith, has_key-contains r rules.repo_items)

    policy_names : All IsRepoName (policy_for rules identity).1
    unfolding policy_for
    policy_names = elim (Bool-cases (has_default rules identity)) [
      | inl d ↦ rw d (
          All-of_contains IsRepoName _ (λ r m. listed_names r (
            listed_key _ r
              (sym (contains-unreadable_listed rules identity Kind.repos r distinct) ∙ m))))
      | inr d ↦ rw d (
          All-of_contains IsRepoName _ (λ r m. listed_names r (
            listed_key _ r
              (sym (contains-readable_listed rules identity Kind.repos r distinct) ∙ m))))
    ]

    module _ (iam : Iam) (bucket prefix repo rest : String) (plain_bucket : IsPlain bucket)
        (plain_prefix : IsPlain prefix) (name : IsRepoName repo) where
      abbrev user_policy : List Statement
      user_policy =
          build_session_policy bucket prefix (policy_for rules identity).0
            (policy_for rules identity).1

      -- For a logged-in user, with rules that list no repo twice, and bucket, prefix, listed names and
      -- repo name free of wildcards (the names also of "/"), AWS authorises reading an object under
      -- the repo's prefix exactly if `is_permitted` allows the repo.
      pub get_object_iff_permitted :
          iam.authorize user_policy (get_object bucket prefix repo rest)
          ≡ is_permitted rules identity Kind.repos repo
      get_object_iff_permitted =
          get_allowed iam bucket prefix repo rest plain_bucket plain_prefix name
            (policy_for rules identity).0 (policy_for rules identity).1 policy_names
          ∙ grants-policy_for repo

      -- For a logged-in user, with rules that list no repo twice, and bucket, prefix, listed names and
      -- repo name free of wildcards (the names also of "/"), AWS authorises listing keys below the
      -- repo's prefix exactly if `is_permitted` allows the repo.
      pub list_bucket_iff_permitted :
          iam.authorize user_policy (list_bucket bucket prefix repo rest)
          ≡ is_permitted rules identity Kind.repos repo
      list_bucket_iff_permitted =
          list_allowed iam bucket prefix repo rest plain_bucket plain_prefix name
            (policy_for rules identity).0 (policy_for rules identity).1 policy_names
          ∙ grants-policy_for repo
