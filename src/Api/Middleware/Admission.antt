-- ===== src/Api/Middleware/Admission.antt =====
-- Which requests reach a handler of the API.
use teehr_cloud_core.Base.{
  ℕ, String, ◌≡◌, refl, sym, inl, inr, true, false, Option, some, Bool-cases, ◌==◌, Result, ok, err,
  HttpError,
}
use teehr_cloud_core.Api.Identity.{AuthIdentity, Limits, is_authenticated}
use teehr_cloud_core.Api.RateLimit.{Counts, check}
use teehr_cloud_core.Api.Middleware.{
  passed_on, is_exempt, unless_limited, session_path, admit, auth_context_middleware,
}

passed_on-injective : (a b : Option AuthIdentity) → passed_on a ≡ passed_on b → a ≡ b
passed_on-injective a b e = cc

unless_limited-passed :
    (attached found : Option AuthIdentity) (step : Counts × Result HttpError (Unit {0}))
    → (unless_limited attached step).1 ≡ passed_on found
    → (found ≡ attached) × (step.1 ≡ ok tt)
unless_limited-passed attached found (counts, ok tt) e = (sym (passed_on-injective _ _ e), refl)
unless_limited-passed attached found (counts, err f) e = cc

-- A request that reaches a handler, and is not an OPTIONS request, nor for a delegated session's token,
-- nor exempt, carries the identity of its credentials, which is authenticated, and has passed the
-- limiter under its path.
pub passed_on-admitted :
    (limits : Limits) (method path : String) (client_host : Option String)
    (resolved : Result HttpError AuthIdentity) (minute : ℕ) (counts : Counts)
    (attached : Option AuthIdentity)
    → (method == "OPTIONS") ≡ false
    → (path == session_path) ≡ false
    → is_exempt path ≡ false
    → (auth_context_middleware limits method path client_host resolved minute counts).1
      ≡ passed_on attached
    → (identity : AuthIdentity) × (attached ≡ some identity)
      × (resolved ≡ ok identity)
      × (is_authenticated identity ≡ true)
      × ((check limits identity path minute counts).1 ≡ ok tt)
unfolding auth_context_middleware admit
passed_on-admitted limits method path client_host (err e) minute counts attached m s x h =
    cc (rw (auth_context_middleware, m, s) at h)
passed_on-admitted limits method path client_host (ok identity) minute counts attached m s x h =
    elim (Bool-cases (is_authenticated identity)) [
      | inr t ↦ cc (rw (auth_context_middleware, m, s, admit, x, t) at h)
      | inl t ↦
          let (same, passed) =
            unless_limited-passed (some identity) attached
              (check limits identity path minute counts)
              (rw (auth_context_middleware, m, s, admit, x, t) at h) in
          (identity, same, refl, t, passed)
    ]
