-- ===== src/Xpublish/Authz/Requests.antt =====
-- What a request path reads, by the route that it is for.
use teehr_cloud_core.Base.{
  String, ◌≡◌, refl, ap, ◌∙◌, ◌⊎◌, inl, inr, Bool, true, false, not, ◌||◌, none, some, arith,
  eq_iff, Bool-cases, all, ◌==◌, ◌<>◌, strip_prefix, has_char, partition, strip_prefix-append,
  partition_lem, strip_prefix-append_both, slash-append,
}
use text.Mathlib.TextLemmas.{cons-append, append_assoc}
use teehr_cloud_core.Xpublish.Identity.{AuthIdentity}
use teehr_cloud_core.Xpublish.Authz.{
  AccessRules, Kind, Target, deny, open_path, reads, is_permitted, repo_candidates,
  is_dataset_route, dataset_target, variables_target, request_target, is_request_permitted,
}

abbrev pub dataset_path : String → String → String
dataset_path id rest = "/api/datasets/" <> (id <> ("/" <> rest))

abbrev pub variables_path : String → String
variables_path id = "/api/dataset-variables/" <> id

-- A name that any request for the target reads is permitted.
module _ (rules : AccessRules) (identity : AuthIdentity) where
  abbrev pub permits : Target → Bool
  permits open_path = true
  permits deny = false
  permits (reads kind names) = all (λ name. is_permitted rules identity kind name) names

  pub is_request_permitted_lem :
      (path : String) → is_request_permitted rules identity path ≡ permits (request_target path)
  unfolding is_request_permitted
  is_request_permitted_lem path = refl

-- A dataset path is denied, or has the target of its dataset id and route.
pub request_target-dataset :
    (id rest : String)
    → has_char b'/' id ≡ false
    → (request_target (dataset_path id rest) ≡ deny)
      ⊎ (request_target (dataset_path id rest) ≡ dataset_target (id, rest))
unfolding request_target
request_target-dataset id rest h =
    let path = dataset_path id rest in
    let tail : strip_prefix "/api/datasets/" path ≡ some (id <> ("/" <> rest)) =
      strip_prefix-append "/api/datasets/" _ in
    let parts : partition b'/' (id <> ("/" <> rest)) ≡ (id, rest) =
      rw (slash-append rest) (partition_lem b'/' id rest "/" refl h) in
    elim (Bool-cases (path == "/api/datasets" || path == "/api/datasets/")) [
      | inl e ↦ inl (rw (e, request_target))
      | inr e ↦ inr (rw (e, request_target, tail, parts))
    ]

-- If a request under a dataset's path is permitted, and the dataset id has no "/", then the route
-- is a known one, and every repo that the dataset id can mean is permitted.
pub permitted_dataset :
    (rules : AccessRules) (identity : AuthIdentity) (id rest : String)
    → has_char b'/' id ≡ false
    → is_request_permitted rules identity (dataset_path id rest) ≡ true
    → (is_dataset_route rest ≡ true)
      × (all (λ name. is_permitted rules identity Kind.repos name) (repo_candidates id) ≡ true)
unfolding is_request_permitted dataset_target
permitted_dataset rules identity id rest h e = elim (request_target-dataset id rest h) [
  | inl d ↦ cc (rw (d, is_request_permitted) at e)
  | inr d ↦
      let f : permits rules identity (dataset_target (id, rest)) ≡ true =
        rw (d, is_request_permitted) at e in
      elim (Bool-cases (id == "" || not (is_dataset_route rest))) [
        | inl t ↦ cc (rw (t, dataset_target) at f)
        | inr t ↦ (ground (arith, t), rw (t, dataset_target) at f)
      ]
]

not_datasets :
    (id : String)
    → (variables_path id == "/api/datasets" || variables_path id == "/api/datasets/") ≡ false
unfolding strip_prefix
not_datasets id = elim (Bool-cases (variables_path id == "/api/datasets")) [
  | inl e ↦ absurd (other "/api/datasets" refl ((eq_iff (variables_path id) _).0 e))
  | inr e ↦ elim (Bool-cases (variables_path id == "/api/datasets/")) [
    | inl f ↦ absurd (other "/api/datasets/" refl ((eq_iff (variables_path id) _).0 f))
    | inr f ↦ rw (e, f)
  ]
]
  where
    other :
        (s : String) → strip_prefix "/api/dataset-variables/" s ≡ none → variables_path id ≡ s → ⊥
    other s n e = cc (strip_prefix-append "/api/dataset-variables/" id)

not_dataset_prefix : (id : String) → strip_prefix "/api/datasets/" (variables_path id) ≡ none
unfolding strip_prefix
not_dataset_prefix id =
    ap (strip_prefix "/api/datasets/") (append_assoc "/api/dataset" "-variables/" id)
    ∙ strip_prefix-append_both "/api/dataset" "s/" ("-variables/" <> id)
    ∙ ap (strip_prefix "s/") (cons-append "-" "variables/" id)

pub request_target-variables :
    (id : String) → request_target (variables_path id) ≡ variables_target id
unfolding request_target
request_target-variables id = rw (
  not_datasets id,
  request_target,
  not_dataset_prefix id,
  strip_prefix-append "/api/dataset-variables/" id,
)

pub permitted_variables :
    (rules : AccessRules) (identity : AuthIdentity) (id : String)
    → is_request_permitted rules identity (variables_path id) ≡ true
    → all (λ name. is_permitted rules identity Kind.repos name) (repo_candidates id) ≡ true
unfolding is_request_permitted variables_target
permitted_variables rules identity id e =
    let f : permits rules identity (variables_target id) ≡ true =
      rw (request_target-variables id, is_request_permitted) at e in
    elim (Bool-cases (id == "" || has_char b'/' id)) [
      | inl t ↦ cc (rw (t, variables_target) at f)
      | inr t ↦ rw (t, variables_target) at f
    ]
