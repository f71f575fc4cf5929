-- ===== src/Xpublish/Credentials/Tests.antt =====
-- The session policy of credentials.py on a small catalog, under an evaluation of policies in which
-- "*" is a wildcard at the end of a pattern.
use Prim.Native.String.{String, count}
use text.Mathlib.TextEquality.{eq_iff}
use teehr_cloud_core.Base.{
  ℕ, ◌≤◌, Option, List, false, ok, ◌≡◌, refl, sym, inl, inr, Bool, true, not, ◌&&◌, none, some, [],
  ◌∷◌, arith, leb, Option-cases, any, contains, ◌==◌, ◌<>◌, strip_suffix, starts_with, has_char,
  all_chars, strip_suffix_sound, strip_suffix-append, all_chars-append,
}
use mathlib.Core.Path.{subst}
use teehr_cloud_core.Xpublish.Identity.{AuthIdentity}
use teehr_cloud_core.Xpublish.Authz.{AccessRules, Kind, is_permitted, has_default, holds_any}
use teehr_cloud_core.Base.Dict.{lookup}
use teehr_cloud_core.Xpublish.Credentials.{policy_for, Statement, AssumeRole, vend_credentials}
use teehr_cloud_core.Xpublish.Credentials.Iam.{Iam, IsPlain, is_plain, applies}
use teehr_cloud_core.Xpublish.Credentials.Policy.{IsRepoName, get_object}
use teehr_cloud_core.Xpublish.App.{
  StsCredentials, IcechunkCredentialsResponse, icechunk_credentials, permitted_names,
}
use teehr_cloud_core.Xpublish.App.Lent.{
  role_request, session_credentials, icechunk_credentials-lent,
}

abbrev rules : AccessRules
rules = record { default = none; repo_items = ("restricted", "admin" ∷ []) ∷ []; layer_items = [] }

abbrev analyst : AuthIdentity
analyst = record {
  subject = "u1";
  auth_type = "jwt";
  roles = "analyst" ∷ [];
  scopes = [];
  preferred_username = some "ann";
}

unfoldable like : String → String → Bool
like pattern text = elim (strip_suffix "*" pattern) [
  | none ↦ pattern == text
  | some p ↦ starts_with text p
]

star_is_not_plain : (r : String) → IsPlain (r <> "*") → ⊥
unfolding all_chars
star_is_not_plain r h = ground (arith, all_chars-append is_plain r "*", h)

no_star : (p : String) → IsPlain p → strip_suffix "*" p ≡ none
no_star p plain = elim (Option-cases (strip_suffix "*" p)) [
  | inl e ↦ e
  | inr (r, e) ↦
      let whole : IsPlain (r <> "*") = subst IsPlain (strip_suffix_sound "*" p e) plain in
      absurd (star_is_not_plain r whole)
]

like_exact_lem : (pattern text : String) → IsPlain pattern → like pattern text ≡ (pattern == text)
unfolding like
like_exact_lem pattern text plain = rw (no_star pattern plain, like)

like_star_lem :
    (pattern text : String)
    → IsPlain pattern
    → like (pattern <> "*") text ≡ starts_with text pattern
unfolding like
like_star_lem pattern text plain = rw (strip_suffix-append "*" pattern, like)

abbrev iam : Iam
iam = record {
  like = like;
  like_exact = like_exact_lem;
  like_star = like_star_lem;
  authorize = λ policy request.
      any (applies like "Allow" request) policy && not (any (applies like "Deny" request) policy);
  authorize_rule = λ policy request. refl;
}

listed-IsRepoName : (r : String) → contains r ("restricted" ∷ []) ≡ true → IsRepoName r
unfolding all_chars has_char
listed-IsRepoName r h =
    subst IsRepoName (sym ((eq_iff r "restricted").0 (ground (arith, h)))) (refl, refl)

abbrev is_letter : ℕ → Bool
is_letter c = leb b'a' c && leb c b'z'

-- What STS answers when the analyst asks for keys.
abbrev analyst_keys : StsCredentials
analyst_keys = record {
  access_key_id = "key";
  secret_access_key = "secret";
  session_token = "token";
  expiration = 1900;
}

abbrev assume_role : AssumeRole → Option StsCredentials
assume_role call = some analyst_keys

abbrev dumps : List Statement → String
dumps policy = "policy"

abbrev response : IcechunkCredentialsResponse
response = record {
  credentials = some (session_credentials analyst_keys);
  expires_at_epoch_seconds = some 1900;
  expires_in_seconds = some 900;
  bucket = "warehouse";
  prefix = "icechunk";
  repos = "open" ∷ [];
  trace_id = "t1";
}

answered :
    icechunk_credentials is_letter dumps assume_role rules "warehouse" "icechunk" "role" false
      analyst
      ("open" ∷ "restricted" ∷ [])
      "t1"
      1000
    ≡ ok response
unfolding icechunk_credentials vend_credentials permitted_names policy_for has_default is_permitted
    lookup holds_any
answered = refl

icechunk_credentials-lent_example :
    (policy : List Statement) × (issued : StsCredentials) × (assume_role
        (role_request is_letter dumps "role" analyst policy)
      ≡ some issued)
    × (session_credentials analyst_keys ≡ session_credentials issued)
    × (◌≡◌ {A = Option ℕ} (some 1900) (some issued.expiration))
    × (count (dumps policy) ≤ 2048)
    × (iam.authorize policy (get_object "warehouse" "icechunk" "restricted" "refs/main")
        ≡ is_permitted rules analyst Kind.repos "restricted")
unfolding all_chars has_char
icechunk_credentials-lent_example =
    icechunk_credentials-lent is_letter dumps assume_role rules "warehouse" "icechunk" "role" false
      analyst ("open" ∷ "restricted" ∷ []) "t1" 1000 response (session_credentials analyst_keys)
      answered refl refl (refl, tt) listed-IsRepoName iam "restricted" "refs/main" refl refl
      (refl, refl)
