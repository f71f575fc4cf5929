-- ===== src/Api/Middleware.antt =====
-- api/src/main.py: the middleware that attaches the caller's identity and counts requests. The minute
-- and the outcome of `resolve_identity` are arguments.
pub mod Admission
mod Tests
use teehr_cloud_core.Base.{
  ℕ, ◌+◌, ◌-◌, ◌*◌, ◌/◌, ◌%◌, ◌^◌, ◌≤◌, ◌<◌, String, ◌≡◌, refl, sym, ◌∙◌, ◌≢◌, ◌↔◌, ◌⊎◌, inl, inr,
  Bool, true, false, not, ◌&&◌, ◌||◌, Option, none, some, [], ◌∷◌, ◌++◌, if◌then◌else◌, Bool-cases,
  or_default, ◌==◌, ◌<>◌, strip_prefix, starts_with, Result, ok, err, ◌>>=◌, ◌>>◌, HttpError, http,
  >>=-passed,
}
use teehr_cloud_core.Api.Identity.{AuthIdentity, Limits, is_authenticated}
use teehr_cloud_core.Api.RateLimit.{Counts, check, check_by_key}

-- The request is passed on, with the identity attached, or answered, or an error is raised out of the
-- middleware.
pub data Handled : Type 0 where
  passed_on : Option AuthIdentity → Handled
  answered raised : HttpError → Handled

abbrev pub is_exempt : String → Bool
is_exempt path =
    path == "/health"
    || path == "/openapi.json"
    || starts_with path "/docs"
    || starts_with path "/redoc"

-- a raised limit, or the request passed on
abbrev pub unless_limited :
    Option AuthIdentity → Counts × Result HttpError (Unit {0}) → Counts × Handled
unless_limited attached (counts, ok u) = (counts, passed_on attached)
unless_limited attached (counts, err e) = (counts, raised e)

abbrev pub session_path : String
session_path = "/auth/polaris-token/session"

-- after the identity is attached
unfoldable pub admit : Limits → String → AuthIdentity → ℕ → Counts → Counts × Handled
admit limits path identity minute counts =
    if is_exempt path
    then (counts, passed_on (some identity))
    else if not (is_authenticated identity)
    then (counts, answered (http 401 "Authentication required"))
    else unless_limited (some identity) (check limits identity path minute counts)

-- `none` is a request without a client address
unfoldable pub auth_context_middleware :
    Limits
    → String
    → String
    → Option String
    → Result HttpError AuthIdentity
    → ℕ
    → Counts
    → Counts × Handled
auth_context_middleware limits method path client_host resolved minute counts =
    if method == "OPTIONS"
    then (counts, passed_on none)
    else if path == session_path
    then unless_limited none (
        check_by_key ("polaris-token-session:" <> or_default client_host "unknown")
          limits.auth_rate_limit_rpm minute counts)
    else elim resolved [
      | err e ↦ (counts, answered e)
      | ok identity ↦ admit limits path identity minute counts
    ]
