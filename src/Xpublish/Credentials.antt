-- ===== src/Xpublish/Credentials.antt =====
-- xpublish-api/src/credentials.py: the session policy that limits a notebook's S3 credentials.
-- `json.dumps` of a policy and the STS client are parameters.
pub mod Iam
pub mod Policy
pub mod Grants
pub mod Names
mod Tests
use teehr_cloud_core.Base.{
  ℕ, suc, zero, String, code, Bool, true, false, ◌&&◌, ◌||◌, Option, none, some, List, [], ◌∷◌,
  ◌++◌, ◌==◌, ◌<>◌, if◌then◌else◌, ltb, eqb, Result, raise_if, or_raise, ◌>>=◌, ◌>>◌,
}
use Prim.Native.String.{count}
use teehr_cloud_core.Xpublish.Identity.{AuthIdentity}
use teehr_cloud_core.Xpublish.Authz.{
  AccessRules, Kind, has_default, readable_listed, unreadable_listed,
}

abbrev pub credentials_ttl_seconds : ℕ
credentials_ttl_seconds = 900

abbrev pub max_session_policy_chars : ℕ
max_session_policy_chars = 2048

-- "Resource" is a text or a list of texts; `string_like` is the "Condition" on "s3:prefix".
pub data Resource : Type 0 where
  one : String → Resource
  many : List String → Resource

pub record Statement : Type 0 where
  pub effect : String
  pub action : String
  pub resource : Resource
  pub string_like : Option (List String)

abbrev pub repo_prefix : String → String → String
repo_prefix prefix repo = prefix <> "/" <> repo <> "/"

abbrev pub object_arn : String → String → String → String
object_arn bucket prefix repo = "arn:aws:s3:::" <> bucket <> "/" <> repo_prefix prefix repo <> "*"

abbrev pub list_prefixes_of : String → String → List String
list_prefixes_of prefix repo = repo_prefix prefix repo ∷ (repo_prefix prefix repo <> "*") ∷ []

unfoldable pub repo_paths : String → String → String → String × List String
repo_paths bucket prefix repo = (object_arn bucket prefix repo, list_prefixes_of prefix repo)

-- the loop over `repos`: the object ARNs and the list prefixes
unfoldable pub collect_paths : String → String → List String → List String × List String
unfolding repo_paths
collect_paths bucket prefix [] = ([], [])
collect_paths bucket prefix (repo ∷ repos) =
    let (object_arns, list_prefixes) = collect_paths bucket prefix repos in
    let (arn, prefixes) = repo_paths bucket prefix repo in
    (arn ∷ object_arns, prefixes ++ list_prefixes)

abbrev pub get_statement : String → Resource → Statement
get_statement effect resource = record {
  effect = effect;
  action = "s3:GetObject";
  resource = resource;
  string_like = none;
}

abbrev pub list_statement : String → String → List String → Statement
list_statement effect bucket_arn prefixes = record {
  effect = effect;
  action = "s3:ListBucket";
  resource = one bucket_arn;
  string_like = some prefixes;
}

unfoldable pub build_session_policy : String → String → Bool → List String → List Statement
build_session_policy bucket prefix deny_mode repos =
    let (object_arns, list_prefixes) = collect_paths bucket prefix repos in
    let bucket_arn = "arn:aws:s3:::" <> bucket in
    if deny_mode
    then get_statement "Allow" (one (bucket_arn <> "/" <> prefix <> "/*"))
      ∷ list_statement "Allow" bucket_arn ((prefix <> "/") ∷ (prefix <> "/*") ∷ [])
      ∷ elim repos [
        | [] ↦ []
        | r ∷ rs ↦
            get_statement "Deny" (many object_arns)
            ∷ list_statement "Deny" bucket_arn list_prefixes
            ∷ []
      ]
    else get_statement "Allow" (many object_arns)
      ∷ list_statement "Allow" bucket_arn list_prefixes
      ∷ []

-- True for deny mode, and the repos that the policy names.
unfoldable pub policy_for : AccessRules → AuthIdentity → Bool × List String
policy_for rules identity =
    if has_default rules identity
    then (true, unreadable_listed rules identity Kind.repos)
    else (false, readable_listed rules identity Kind.repos)

-- `s[:n]`
unfoldable pub take_chars : ℕ → String → String
take_chars zero s = ""
take_chars (suc n) String.[] = ""
take_chars (suc n) (String.◌∷◌ c s) = String.◌∷◌ c (take_chars n s)

module _ (is_word : ℕ → Bool) where
  -- the class `[\w+=,.@-]`; which characters `\w` takes is the Unicode table's
  abbrev pub is_session_char : ℕ → Bool
  is_session_char c =
      is_word c || eqb c b'+' || eqb c b'=' || eqb c b',' || eqb c b'.' || eqb c b'@' || eqb c b'-'

  -- `re.sub(r"[^\w+=,.@-]", "-", s)`
  unfoldable pub replace_chars : String → String
  replace_chars String.[] = ""
  replace_chars (String.◌∷◌ c s) =
      if is_session_char (code c) then String.◌∷◌ c (replace_chars s) else "-" <> replace_chars s

  abbrev pub login_name : AuthIdentity → String
  login_name identity = elim identity.preferred_username [
    | none ↦ identity.subject
    | some name ↦ if name == "" then identity.subject else name
  ]

  unfoldable pub session_name : AuthIdentity → String
  session_name identity =
      let name = take_chars 64 (replace_chars (login_name identity)) in
      if ltb (count name) 2 then "user-" <> name else name

pub data VendError : Type 0 where
  policy_too_large : ℕ → VendError
  sts_failed : VendError

pub record AssumeRole : Type 0 where
  pub role_arn : String
  pub role_session_name : String
  pub policy : String
  pub duration_seconds : ℕ

-- `none` is a failed call of STS.
module _ {Credentials : Type 0} (is_word : ℕ → Bool) (dumps : List Statement → String)
    (assume_role : AssumeRole → Option Credentials) where
  unfoldable pub vend_credentials :
      String → AuthIdentity → List Statement → Result VendError Credentials
  vend_credentials role_arn identity policy = do
    let policy_json = dumps policy
    raise_if (ltb max_session_policy_chars (count policy_json))
        (policy_too_large (count policy_json))
    or_raise
        (assume_role (record {
          role_arn = role_arn;
          role_session_name = session_name is_word identity;
          policy = policy_json;
          duration_seconds = credentials_ttl_seconds;
        }))
        sts_failed
