-- ===== src/Api/RateLimit.antt =====
-- api/src/rate_limit.py: the in-memory limiter, whose counts are kept per minute, route and caller.
pub mod Windows
mod Tests
use teehr_cloud_core.Base.{
  ℕ, suc, ◌+◌, ◌-◌, ◌*◌, ◌/◌, ◌%◌, ◌^◌, ◌≤◌, ◌<◌, min, String, ◌≡◌, refl, ap, ◌∙◌, ◌≢◌, ◌↔◌, ◌⊎◌,
  inl, inr, Bool, true, false, ◌&&◌, ◌||◌, Option, none, some, List, [], ◌∷◌, ◌++◌, arith, eq_iff,
  eq_refl, ltb, if◌then◌else◌, Bool-cases, Option-cases, or_default, length, All, contains, ◌==◌,
  ◌<>◌, starts_with, strip_prefix-append, Result, ok, err, ◌>>=◌, ◌>>◌, raise_if, HttpError, http,
  >>=-passed,
}
use teehr_cloud_core.Base.Dict.{
  Dict, lookup, insert, erase, keys, has_key, lookup-insert, lookup-erase, has_key-contains,
  HasDistinctKeys, lookup_of_absent,
}
use teehr_cloud_core.Base.Decimal.{decimal}
use teehr_cloud_core.Api.Identity.{AuthIdentity, Limits, is_authenticated}

abbrev pub max_counts : ℕ
max_counts = 50000

-- `self._counts`, a dict whose missing keys count 0
abbrev pub Counts : Type 0
Counts = Dict ℕ

unfoldable pub count_of : String → Counts → ℕ
count_of key counts = or_default (lookup key counts) 0

abbrev pub minute_prefix : ℕ → String
minute_prefix minute_bucket = decimal minute_bucket <> ":"

unfoldable pub key_of : AuthIdentity → String → ℕ → String
key_of identity route_key minute_bucket =
    minute_prefix minute_bucket
    <> (route_key <> (":" <> (identity.auth_type <> (":" <> identity.subject))))

unfoldable pub limit_for : Limits → AuthIdentity → Option ℕ
limit_for limits identity =
    if contains "admin" identity.roles
    then none
    else if is_authenticated identity
    then some limits.auth_rate_limit_rpm
    else some limits.anon_rate_limit_rpm

-- the dict comprehension of the cleanup
unfoldable pub keep_prefix : String → Counts → Counts
keep_prefix valid_prefix [] = []
keep_prefix valid_prefix ((k, v) ∷ counts) =
    let rest = keep_prefix valid_prefix counts in
    if starts_with k valid_prefix then (k, v) ∷ rest else rest

unfoldable pub cleaned : ℕ → Counts → Counts
cleaned minute_bucket counts =
    if ltb max_counts (length counts)
    then keep_prefix (minute_prefix minute_bucket) counts
    else counts

abbrev pub too_many : HttpError
too_many = http 429 "Rate limit exceeded. Authenticate for a higher limit or retry next minute."

unfoldable pub enforce : String → ℕ → ℕ → Counts → Counts × Result HttpError (Unit {0})
enforce key limit minute_bucket counts =
    let counted = cleaned minute_bucket (insert key (suc (count_of key counts)) counts) in
    (counted, raise_if (ltb limit (count_of key counted)) too_many)

-- `minute_bucket` is `int(time.time() // 60)`
unfoldable pub check :
    Limits → AuthIdentity → String → ℕ → Counts → Counts × Result HttpError (Unit {0})
check limits identity route_key minute_bucket counts = elim (limit_for limits identity) [
  | none ↦ (counts, ok tt)
  | some limit ↦ enforce (key_of identity route_key minute_bucket) limit minute_bucket counts
]

unfoldable pub check_by_key : String → ℕ → ℕ → Counts → Counts × Result HttpError (Unit {0})
check_by_key key_prefix limit minute_bucket counts =
    enforce (minute_prefix minute_bucket <> key_prefix) limit minute_bucket counts
