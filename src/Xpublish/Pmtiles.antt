-- ===== src/Xpublish/Pmtiles.antt =====
-- xpublish-api/src/pmtiles.py: the key of a layer's archive, and one read of it. S3 is a parameter.
pub mod Keys
mod Tests
use mathlib.Core.Option
use teehr_cloud_core.Base.{
  ℕ, ◌+◌, ◌-◌, ◌*◌, ◌/◌, ◌%◌, ◌^◌, ◌≤◌, ◌<◌, code, String, ◌≡◌, refl, sym, ◌∙◌, ◌≢◌, ◌↔◌, ◌⊎◌, inl,
  inr, Bool, true, false, not, ◌&&◌, ◌||◌, Option, none, some, List, [], ◌∷◌, ◌++◌, arith, eq_iff,
  leb, eqb, if◌then◌else◌, eqb_iff, Bool-cases, ◌==◌, ◌<>◌, strip_prefix, starts_with, has_char,
  Result, ok, err, ◌>>=◌, ◌>>◌, HttpError, http, rstrip_where, >>=-passed, ok-injective,
}
use teehr_cloud_core.Xpublish.Storage.{normalize_storage_prefix}

-- `[A-Za-z0-9]`
abbrev pub is_alphanumeric : ℕ → Bool
is_alphanumeric c =
    (leb b'A' c && leb c b'Z') || (leb b'a' c && leb c b'z') || (leb b'0' c && leb c b'9')

-- `[A-Za-z0-9._-]`
abbrev pub is_layer_char : ℕ → Bool
is_layer_char c = is_alphanumeric c || eqb c b'.' || eqb c b'_' || eqb c b'-'

-- `[A-Za-z0-9._-]*$`; "$" also matches before a last newline
unfoldable pub matches_tail : String → Bool
matches_tail String.[] = true
matches_tail (String.◌∷◌ c s) =
    let rest = matches_tail s in if is_layer_char (code c) then rest else eqb (code c) 10 && s == ""

unfoldable pub matches_layer_name : String → Bool
matches_layer_name String.[] = false
matches_layer_name (String.◌∷◌ c s) = is_alphanumeric (code c) && matches_tail s

-- `".." in layer`
unfoldable pub has_parent : String → Bool
has_parent String.[] = false
has_parent (String.◌∷◌ c s) = let rest = has_parent s in starts_with (String.◌∷◌ c s) ".." || rest

unfoldable pub layer_key : String → String → Result HttpError String
layer_key prefix layer =
    if has_parent layer || not (matches_layer_name layer)
    then err (http 400 "Invalid layer name")
    else ok (normalize_storage_prefix prefix <> (layer <> ".pmtiles"))

-- What a failed read of S3 reports.
pub record S3Failure : Type 0 where
  pub error_code : String
  pub status : Option ℕ

pub record S3Object : Type 0 where
  pub body : String
  pub content_range : Option String
  pub etag : Option String

pub record RangeResponse : Type 0 where
  pub status : ℕ
  pub content : String
  pub headers : List (String × String)

abbrev pub is_status : ℕ → Option ℕ → Bool
is_status n none = false
is_status n (some status) = eqb status n

unfoldable pub read_failure : String → S3Failure → HttpError
read_failure layer failure =
    if failure.error_code == "NoSuchKey"
      || failure.error_code == "NoSuchBucket"
      || is_status 404 failure.status
    then http 404 ("Unknown layer '" <> (layer <> "'"))
    else if failure.error_code == "InvalidRange" || is_status 416 failure.status
    then http 416 "Requested range not satisfiable"
    else http 502 "Tile archive read failed"

-- a header with a value that is there and not empty
abbrev pub header : String → Option String → List (String × String)
header name none = []
header name (some value) = if value == "" then [] else (name, value) ∷ []

abbrev pub is_given : Option String → Bool
is_given none = false
is_given (some value) = not (value == "")

-- `get_object` takes the key and the range of the request
unfoldable pub read_pmtiles_range :
    (String → Option String → Result S3Failure S3Object)
    → String
    → String
    → Option String
    → Result HttpError RangeResponse
read_pmtiles_range get_object prefix layer range_header = do
  key ← layer_key prefix layer
  elim (get_object key (if is_given range_header then range_header else none)) [
    | err failure ↦ err (read_failure layer failure)
    | ok object ↦ ok (record {
      status = if is_given object.content_range then 206 else 200;
      content = object.body;
      headers =
          ("Accept-Ranges", "bytes")
          ∷ ("Cache-Control", "private, max-age=300")
          ∷ (header "ETag" object.etag ++ header "Content-Range" object.content_range);
    })
  ]
