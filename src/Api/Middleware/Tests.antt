-- ===== src/Api/Middleware/Tests.antt =====
-- The first request of a user in a minute.
use teehr_cloud_core.Base.{
  ◌≡◌, refl, true, none, some, [], ◌∷◌, strip_prefix, Result, ok, HttpError,
}
use teehr_cloud_core.Base.Dict.{lookup, insert}
use teehr_cloud_core.Base.Decimal.{decimal, digits, digit}
use teehr_cloud_core.Api.Identity.{AuthIdentity, default_limits, is_authenticated}
use teehr_cloud_core.Api.RateLimit.{check, enforce, cleaned, count_of, limit_for, key_of}
use teehr_cloud_core.Api.Middleware.{admit, auth_context_middleware}
use teehr_cloud_core.Api.Middleware.Admission.{passed_on-admitted}

abbrev key_user : AuthIdentity
key_user = record {
  subject = "u1";
  auth_type = "api_key";
  roles = "api-key" ∷ [];
  scopes = [];
  preferred_username = none;
  groups = [];
}

passed_on-admitted_example :
    (identity : AuthIdentity) × (some key_user ≡ some identity)
    × (◌≡◌ {A = Result HttpError AuthIdentity} (ok key_user) (ok identity))
    × (is_authenticated identity ≡ true)
    × ((check default_limits identity "/collections" 29 []).1 ≡ ok tt)
unfolding auth_context_middleware admit check enforce cleaned count_of limit_for key_of lookup
    insert decimal digits digit strip_prefix
passed_on-admitted_example =
    passed_on-admitted default_limits "GET" "/collections" none (ok key_user) 29 [] (some key_user)
      refl refl refl refl
