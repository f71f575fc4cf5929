-- ===== src/Api/Identity/Tests.antt =====
-- The guards and limits of api/src/auth.py for an API key and an administrator.
use teehr_cloud_core.Base.{ℕ, ◌≤◌, ◌≡◌, refl, none, some, [], ◌∷◌}
use teehr_cloud_core.Api.Identity.{AuthIdentity, default_limits, effective_limit_for_request}
use teehr_cloud_core.Api.Identity.Caps.{largest_limit, effective_limit_bound}

abbrev key_user : AuthIdentity
key_user = record {
  subject = "u1";
  auth_type = "api_key";
  roles = "api-key" ∷ [];
  scopes = [];
  preferred_username = none;
  groups = [];
}

effective_limit_bound_example :
    (n : ℕ) × (effective_limit_for_request default_limits (some key_user) (some 100000) ≡ some n)
    × (n ≤ largest_limit default_limits)
    × ((m : ℕ) → some 100000 ≡ some m → n ≤ m)
effective_limit_bound_example = effective_limit_bound default_limits key_user (some 100000) refl
