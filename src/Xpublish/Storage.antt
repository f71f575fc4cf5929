-- ===== src/Xpublish/Storage.antt =====
-- xpublish-api/src/storage.py: listing the S3 prefixes and files, and the configured location. The
-- S3 client is a parameter: a listing is given as its pages.
pub mod Names
mod Tests
use teehr_cloud_core.Base.{
  ℕ, ◌+◌, ◌-◌, ◌*◌, ◌/◌, ◌%◌, ◌^◌, ◌≤◌, ◌<◌, String, ◌≡◌, ◌∙◌, ◌≢◌, ◌↔◌, ◌⊎◌, inl, inr, false, ◌&&◌,
  ◌||◌, Option, none, some, List, [], ◌∷◌, ◌++◌, arith, eq_iff, eqb, if◌then◌else◌, Bool-cases,
  or_default, All, ◌==◌, ◌<>◌, ends_with, has_char, Result, ok, err, ◌>>=◌, ◌>>◌, raise_if,
  rstrip_where, strip, last_part, last_part-has_char,
}
use Prim.Native.String.{count}
use teehr_cloud_core.Xpublish.Credentials.{take_chars}

-- `{"id", "path"}` of a prefix
pub record StoragePrefix : Type 0 where
  pub id : String
  pub path : String

pub record StorageFile : Type 0 where
  pub id : String
  pub path : String
  pub source_layer : Option String

unfoldable pub normalize_storage_prefix : String → String
normalize_storage_prefix prefix =
    if prefix == "" then "" else rstrip_where (λ c. eqb c b'/') prefix <> "/"

abbrev pub dir_name : String → String
dir_name dir_path = last_part b'/' (rstrip_where (λ c. eqb c b'/') dir_path)

-- the loop over one page's "CommonPrefixes"
unfoldable pub prefixes_of_page : List String → List StoragePrefix
prefixes_of_page [] = []
prefixes_of_page (dir_path ∷ more) =
    if dir_name dir_path == ""
    then prefixes_of_page more
    else record { id = dir_name dir_path; path = dir_path } ∷ prefixes_of_page more

unfoldable pub list_storage_prefixes : List (List String) → List StoragePrefix
unfolding prefixes_of_page
list_storage_prefixes [] = []
list_storage_prefixes (page ∷ pages) = prefixes_of_page page ++ list_storage_prefixes pages

-- `s[:-n]`, for n > 0
abbrev pub drop_last : ℕ → String → String
drop_last n s = take_chars (count s - n) s

abbrev pub storage_file : String → String → StorageFile
storage_file extension key =
    let filename = last_part b'/' key in
    if extension == ".pmtiles"
    then (let source_layer = drop_last (count extension) filename in
        record { id = source_layer; path = key; source_layer = some source_layer })
    else record { id = filename; path = key; source_layer = none }

-- the loop over one page's "Contents"
unfoldable pub files_of_page : String → List String → List StorageFile
files_of_page extension [] = []
files_of_page extension (key ∷ more) =
    if ends_with key extension
    then storage_file extension key ∷ files_of_page extension more
    else files_of_page extension more

unfoldable pub list_storage_files : String → List (List String) → List StorageFile
unfolding files_of_page
list_storage_files extension [] = []
list_storage_files extension (page ∷ pages) =
    files_of_page extension page ++ list_storage_files extension pages

pub data ConfigError : Type 0 where
  bucket_required prefix_required endpoint_missing : ConfigError

-- `os.getenv(name, "")`: `none` is a variable that is not set
unfoldable pub resolve_icechunk_location :
    Option String → Option String → Result ConfigError (String × String)
resolve_icechunk_location bucket_var prefix_var = do
  let bucket = strip (or_default bucket_var "")
  let prefix = rstrip_where (λ c. eqb c b'/') (strip (or_default prefix_var ""))
  raise_if (bucket == "") bucket_required
  raise_if (prefix == "") prefix_required
  ok (bucket, prefix)

-- The environment of the storage; `none` is a variable that is not set.
pub record StorageEnv : Type 0 where
  pub icechunk_storage_mode : Option String
  pub aws_default_region : Option String
  pub icechunk_endpoint_url : Option String
  pub aws_access_key_id : Option String
  pub aws_secret_access_key : Option String

-- The arguments of `ic.s3_storage`: what the environment gives, or those of a local endpoint, with plain
-- HTTP and paths, and the keys that are set and not empty.
pub data StorageKwargs : Type 0 where
  from_env : StorageKwargs
  local_endpoint :
      (region endpoint_url : String) → (access_key secret_key : Option String) → StorageKwargs

abbrev pub non_empty : Option String → Option String
non_empty none = none
non_empty (some value) = if value == "" then none else some value

unfoldable pub build_storage_kwargs : StorageEnv → Result ConfigError StorageKwargs
build_storage_kwargs env =
    if or_default env.icechunk_storage_mode "remote" == "local"
    then elim env.icechunk_endpoint_url [
      | none ↦ err endpoint_missing
      | some url ↦ ok (
          local_endpoint (or_default env.aws_default_region "us-east-1") url
            (non_empty env.aws_access_key_id) (non_empty env.aws_secret_access_key))
    ]
    else ok from_env
