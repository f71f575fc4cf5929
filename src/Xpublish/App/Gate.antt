-- ===== src/Xpublish/App/Gate.antt =====
-- Which requests reach a handler of xpublish-api/src/main.py.
use teehr_cloud_core.Base.{
  String, ◌≡◌, refl, sym, inl, inr, true, false, ◌||◌, Option, some, eq_iff, Bool-cases, ◌==◌,
  Result, ok, err, HttpError,
}
use teehr_cloud_core.Xpublish.Identity.{AuthIdentity}
use teehr_cloud_core.Xpublish.Authz.{AccessRules, is_request_permitted}
use teehr_cloud_core.Xpublish.App.{passed_on, auth_middleware}

passed_on-injective : (a b : Option AuthIdentity) → passed_on a ≡ passed_on b → a ≡ b
passed_on-injective a b e = cc

-- A request that reaches a handler, and is neither an OPTIONS request nor for the health check, carries
-- the identity of its token, which is a logged-in user whom the access rules permit the path.
pub passed_on-permitted :
    (rules : AccessRules) (method path : String) (resolved : Result HttpError AuthIdentity)
    (attached : Option AuthIdentity)
    → (method == "OPTIONS" || path == "/health") ≡ false
    → auth_middleware rules method path resolved ≡ passed_on attached
    → (identity : AuthIdentity) × (attached ≡ some identity)
      × (resolved ≡ ok identity)
      × (identity.auth_type ≡ "jwt")
      × (is_request_permitted rules identity path ≡ true)
unfolding auth_middleware
passed_on-permitted rules method path (err e) attached open_route h =
    cc (rw (auth_middleware, open_route) at h)
passed_on-permitted rules method path (ok identity) attached open_route h =
    elim (Bool-cases (identity.auth_type == "jwt")) [
      | inr t ↦ cc (rw (auth_middleware, open_route, t) at h)
      | inl t ↦ elim (Bool-cases (is_request_permitted rules identity path)) [
        | inr p ↦ cc (rw (auth_middleware, open_route, t, p) at h)
        | inl p ↦ (
          identity,
          sym (passed_on-injective _ _ (rw (auth_middleware, open_route, t, p) at h)),
          refl,
          (eq_iff identity.auth_type "jwt").0 t,
          p,
        )
      ]
    ]
