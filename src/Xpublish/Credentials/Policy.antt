-- ===== src/Xpublish/Credentials/Policy.antt =====
-- What a session policy lets a user read.
use mathlib.Core.Path.{subst}
use teehr_cloud_core.Base.{
  String, ◌≡◌, refl, sym, ◌∙◌, inl, inr, Bool, true, false, not, ◌||◌, some, List, [], ◌∷◌, arith,
  eq_iff, eq_refl, if◌then◌else◌, Bool-cases, any, All, contains, ◌==◌, ◌<>◌, strip_prefix,
  starts_with, has_char, all_chars, strip_prefix-append, all_chars-append, strip_prefix-append_both,
  starts_with_separated, slash-append,
}
use text.Mathlib.TextLemmas.{append_assoc, append-nil}
use teehr_cloud_core.Xpublish.Credentials.{
  repo_prefix, object_arn, collect_paths, build_session_policy,
}
use teehr_cloud_core.Xpublish.Credentials.Iam.{S3Request, IsPlain, Iam}

abbrev pub IsRepoName : String → Type 0
IsRepoName repo = (has_char b'/' repo ≡ false) × IsPlain repo

-- Reading an object of a repo, and listing under a repo.
abbrev pub get_object : String → String → String → String → S3Request
get_object bucket prefix repo key = record {
  action = "s3:GetObject";
  resource = "arn:aws:s3:::" <> bucket <> "/" <> prefix <> "/" <> repo <> "/" <> key;
  prefix = "";
}

abbrev pub list_bucket : String → String → String → String → S3Request
list_bucket bucket prefix repo rest = record {
  action = "s3:ListBucket";
  resource = "arn:aws:s3:::" <> bucket;
  prefix = prefix <> "/" <> repo <> "/" <> rest;
}

-- A repo's prefix begins a path of a repo only if it is the same repo.
starts_with_repo :
    (x r repo rest : String)
    → has_char b'/' r ≡ false
    → has_char b'/' repo ≡ false
    → starts_with (x <> (repo <> ("/" <> rest))) (x <> (r <> "/")) ≡ (r == repo)
starts_with_repo x r repo rest hr h =
    rw (strip_prefix-append_both x, slash-append rest)
      (starts_with_separated b'/' "/" r repo rest refl hr h)

IsPlain-repo : (x r : String) → IsPlain x → IsPlain r → IsPlain (x <> (r <> "/"))
unfolding all_chars
IsPlain-repo x r hx hr = simp (all_chars-append, hx, hr)

abbrev lead : String → String → String
lead bucket prefix = "arn:aws:s3:::" <> bucket <> "/" <> prefix <> "/"

lead-IsPlain :
    (bucket prefix : String) → IsPlain bucket → IsPlain prefix → IsPlain (lead bucket prefix)
unfolding all_chars
lead-IsPlain bucket prefix hb hp = simp (all_chars-append, hb, hp)

object_arn_lem :
    (bucket prefix r : String)
    → object_arn bucket prefix r ≡ (lead bucket prefix <> (r <> "/")) <> "*"
object_arn_lem bucket prefix r = simp append_assoc

all_objects_lem :
    (bucket prefix : String)
    → ("arn:aws:s3:::" <> bucket) <> "/" <> prefix <> "/*" ≡ lead bucket prefix <> "*"
all_objects_lem bucket prefix = simp append_assoc

resource_lem :
    (bucket prefix repo key : String)
    → (get_object bucket prefix repo key).resource ≡ lead bucket prefix <> (repo <> ("/" <> key))
resource_lem bucket prefix repo key = simp append_assoc

slashed-IsPlain : (prefix : String) → IsPlain prefix → IsPlain (prefix <> "/")
unfolding all_chars
slashed-IsPlain prefix h = simp (all_chars-append, h)

slash_star_lem : (prefix : String) → prefix <> "/*" ≡ (prefix <> "/") <> "*"
slash_star_lem prefix = simp append_assoc

repo_prefix_lem : (prefix r : String) → repo_prefix prefix r ≡ (prefix <> "/") <> (r <> "/")
repo_prefix_lem prefix r = simp append_assoc

listing_lem :
    (bucket prefix repo rest : String)
    → (list_bucket bucket prefix repo rest).prefix ≡ (prefix <> "/") <> (repo <> ("/" <> rest))
listing_lem bucket prefix repo rest = simp append_assoc

starts_with_self : (s : String) → starts_with s s ≡ true
starts_with_self s = rw (strip_self s)
  where
    strip_self : (t : String) → strip_prefix t t ≡ some ""
    strip_self t = subst (λ u. strip_prefix t u ≡ some "") (append-nil t) (strip_prefix-append t "")

module _ (iam : Iam) where
  open iam use {like, like_exact, like_star, authorize, authorize_rule}

  module _ (bucket prefix repo rest : String) (plain_bucket : IsPlain bucket)
      (plain_prefix : IsPlain prefix) (name : IsRepoName repo) where
    like-object_arn :
        (r : String)
        → IsRepoName r
        → like (object_arn bucket prefix r) (get_object bucket prefix repo rest).resource
          ≡ (r == repo)
    like-object_arn r h =
        rw
          (
            object_arn_lem bucket prefix r,
            resource_lem bucket prefix repo rest,
            like_star (lead bucket prefix <> (r <> "/"))
                (lead bucket prefix <> (repo <> ("/" <> rest)))
                (IsPlain-repo _ r (lead-IsPlain bucket prefix plain_bucket plain_prefix) h.1),
          )
          (starts_with_repo (lead bucket prefix) r repo rest h.0 name.0)

    like-object_arns :
        (rs : List String)
        → All IsRepoName rs
        → any
            (λ p. like p (get_object bucket prefix repo rest).resource)
            (collect_paths bucket prefix rs).0
          ≡ contains repo rs
    unfolding collect_paths
    like-object_arns [] h = refl
    like-object_arns (r ∷ rs) (h, hs) =
        ground (arith, like-object_arn r h, like-object_arns rs hs, eq_iff r repo, eq_iff repo r)

    like-all_objects :
        like
          (("arn:aws:s3:::" <> bucket) <> "/" <> prefix <> "/*")
          (get_object bucket prefix repo rest).resource
        ≡ true
    like-all_objects = rw (
      all_objects_lem bucket prefix,
      resource_lem bucket prefix repo rest,
      like_star (lead bucket prefix) (lead bucket prefix <> (repo <> ("/" <> rest)))
          (lead-IsPlain bucket prefix plain_bucket plain_prefix),
      strip_prefix-append (lead bucket prefix) (repo <> ("/" <> rest)),
    )

    pub get_allowed :
        (deny_mode : Bool) (rs : List String)
        → All IsRepoName rs
        → authorize
            (build_session_policy bucket prefix deny_mode rs)
            (get_object bucket prefix repo rest)
          ≡ (if deny_mode then not (contains repo rs) else contains repo rs)
    unfolding build_session_policy
    get_allowed true [] h = rw (authorize_rule, like-all_objects)
    get_allowed true (r ∷ rs) h =
        rw (authorize_rule, like-all_objects) (ground (arith, like-object_arns (r ∷ rs) h))
    get_allowed false rs h = rw (authorize_rule, like-object_arns rs h) (ground arith)

    like-repo_prefix :
        (r : String)
        → IsRepoName r
        → (like (repo_prefix prefix r) (list_bucket bucket prefix repo rest).prefix
            || like (repo_prefix prefix r <> "*") (list_bucket bucket prefix repo rest).prefix)
          ≡ (r == repo)
    like-repo_prefix r h =
        let v = (list_bucket bucket prefix repo rest).prefix in
        let p = repo_prefix prefix r in
        let plain : IsPlain p =
          rw (repo_prefix_lem prefix r)
            (IsPlain-repo _ r (slashed-IsPlain prefix plain_prefix) h.1) in
        let star : starts_with v p ≡ (r == repo) =
          rw (repo_prefix_lem prefix r, listing_lem bucket prefix repo rest)
            (starts_with_repo (prefix <> "/") r repo rest h.0 name.0) in
        rw (like_exact p v plain, like_star p v plain)
          (elim (Bool-cases (p == v)) [
            | inl e ↦
                let same : p ≡ v = (eq_iff p v).0 e in
                let begins : starts_with v p ≡ true =
                  subst (λ u. starts_with u p ≡ true) same (starts_with_self p) in
                rw e (sym begins ∙ star)
            | inr e ↦ rw e star
          ])

    like-list_prefixes :
        (rs : List String)
        → All IsRepoName rs
        → any
            (λ p. like p (list_bucket bucket prefix repo rest).prefix)
            (collect_paths bucket prefix rs).1
          ≡ contains repo rs
    unfolding collect_paths
    like-list_prefixes [] h = refl
    like-list_prefixes (r ∷ rs) (h, hs) =
        ground (arith, like-repo_prefix r h, like-list_prefixes rs hs, eq_iff r repo, eq_iff repo r)

    like-bucket : like ("arn:aws:s3:::" <> bucket) ("arn:aws:s3:::" <> bucket) ≡ true
    unfolding all_chars
    like-bucket =
        like_exact _ _ (simp (all_chars-append, plain_bucket)) ∙ eq_refl ("arn:aws:s3:::" <> bucket)

    like-all_prefixes : like (prefix <> "/*") (list_bucket bucket prefix repo rest).prefix ≡ true
    like-all_prefixes = rw (
      slash_star_lem prefix,
      listing_lem bucket prefix repo rest,
      like_star (prefix <> "/") ((prefix <> "/") <> (repo <> ("/" <> rest)))
          (slashed-IsPlain prefix plain_prefix),
      strip_prefix-append (prefix <> "/") (repo <> ("/" <> rest)),
    )

    pub list_allowed :
        (deny_mode : Bool) (rs : List String)
        → All IsRepoName rs
        → authorize
            (build_session_policy bucket prefix deny_mode rs)
            (list_bucket bucket prefix repo rest)
          ≡ (if deny_mode then not (contains repo rs) else contains repo rs)
    unfolding build_session_policy
    list_allowed true [] h = rw (authorize_rule, like-bucket, like-all_prefixes) (ground arith)
    list_allowed true (r ∷ rs) h =
        rw (authorize_rule, like-bucket, like-all_prefixes)
          (ground (arith, like-list_prefixes (r ∷ rs) h))
    list_allowed false rs h =
        rw (authorize_rule, like-bucket, like-list_prefixes rs h) (ground arith)
