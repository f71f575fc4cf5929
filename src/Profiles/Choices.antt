-- ===== src/Profiles/Choices.antt =====
-- The choices of a generated profile of jupyterhub-profiles/generate_profile_list.py.
use teehr_cloud_core.Base.{
  ℕ, ◌+◌, ◌≤◌, String, ◌≡◌, refl, inl, inr, true, false, not, ◌↔◌, [], ◌∷◌, arith, if◌then◌else◌,
  All, Bool-cases, ◌<>◌, Char, code, has_char, strip_prefix, strip_prefix-append, eqb_refl, ap,
}
use text.Mathlib.TextLemmas.{nil-append, cons-append}
use teehr_cloud_core.Base.Dict.{Dict, insert}
use teehr_cloud_core.Api.Database.{is_infix}
use teehr_cloud_core.Profiles.{
  Choice, choice, nodegroup, is_small, standard_choices, hefs_choices, updated, ProjectSpec,
  build_profile,
}

abbrev pub defaults : Dict Choice → ℕ
defaults [] = 0
defaults ((key, c) ∷ choices) = (if c.is_default then 1 else 0) + defaults choices

-- Every profile has exactly one default choice, whether or not it has the HEFS choices.
pub one_default : (spec : ProjectSpec) → defaults (build_profile spec).image_choices ≡ 1
unfolding build_profile updated insert standard_choices hefs_choices choice
one_default spec = elim (Bool-cases spec.include_hefs_choices) [
  | inl e ↦ rw e refl
  | inr e ↦ rw e refl
]

-- Text before a pattern without the pattern's first character does not matter.
is_infix-append :
    (d : Char) (p x s : String)
    → has_char (code d) x ≡ false
    → is_infix (String.◌∷◌ d p) (x <> s) ≡ is_infix (String.◌∷◌ d p) s
unfolding is_infix has_char strip_prefix
is_infix-append d p String.[] s e = ap (is_infix (String.◌∷◌ d p)) (nil-append s)
is_infix-append d p (String.◌∷◌ c x) s e = rw cons-append (ground (arith, is_infix-append d p x s))

is_infix_within :
    (d : Char) (p x s : String) → is_infix (String.◌∷◌ d p) (x <> (String.◌∷◌ d p <> s)) ≡ true
unfolding is_infix strip_prefix
is_infix_within d p String.[] s =
    let found = strip_prefix-append p s in rw (nil-append, cons-append) (rw (eqb_refl, found) refl)
is_infix_within d p (String.◌∷◌ c x) s = rw cons-append (ground (arith, is_infix_within d p x s))

small-of_suffix :
    (suffix : String) → is_small (nodegroup "xlarge" suffix) ≡ not (is_infix "4xlarge" suffix)
unfolding is_small nodegroup has_char
small-of_suffix suffix =
    rw
      (
        is_infix_within "x" "large" "nb-r5-" suffix,
        is_infix-append "4" "xlarge" "nb-r5-" ("xlarge" <> suffix) refl,
        is_infix-append "4" "xlarge" "xlarge" suffix refl,
      )
      refl

large : (suffix : String) → is_small (nodegroup "4xlarge" suffix) ≡ false
unfolding is_small nodegroup
large suffix = rw (is_infix_within "4" "xlarge" "nb-r5-" suffix) (ground arith)

abbrev pub WithinLimit : String × Choice → Type 0
WithinLimit (key, c) = c.cpu_guarantee ≤ c.cpu_limit

-- Every choice of a profile guarantees no more cores than its limit, exactly if the suffix of the
-- project's node groups does not contain "4xlarge".
pub WithinLimit-iff :
    (spec : ProjectSpec)
    → (All WithinLimit (build_profile spec).image_choices)
      ↔ (is_infix "4xlarge" spec.nodegroup_suffix ≡ false)
unfolding build_profile updated insert standard_choices hefs_choices choice
WithinLimit-iff spec =
    let small = small-of_suffix spec.nodegroup_suffix in
    let big = large spec.nodegroup_suffix in
    elim (Bool-cases spec.include_hefs_choices) [
      | inl e ↦ elim (Bool-cases (is_infix "4xlarge" spec.nodegroup_suffix)) [
        | inl f ↦ rw (e, small, big, f) (λ (h, _). absurd (omega (arith, h)), λ g. cc)
        | inr f ↦ rw (e, small, big, f) (λ h. refl, λ g. omega arith)
      ]
      | inr e ↦ elim (Bool-cases (is_infix "4xlarge" spec.nodegroup_suffix)) [
        | inl f ↦ rw (e, small, big, f) (λ (h, _). absurd (omega (arith, h)), λ g. cc)
        | inr f ↦ rw (e, small, big, f) (λ h. refl, λ g. omega arith)
      ]
    ]
