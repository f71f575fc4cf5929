-- ===== src/Api/RateLimit/Tests.antt =====
-- The limiter of api/src/rate_limit.py on three requests.
use teehr_cloud_core.Base.{◌-◌, min, ◌≡◌, refl, none, List, [], ◌∷◌}
use teehr_cloud_core.Api.Identity.{AuthIdentity, default_limits}
use teehr_cloud_core.Api.RateLimit.{Counts, count_of, key_of, limit_for}
use teehr_cloud_core.Api.RateLimit.Windows.{Visit, visits_for, accepted, accepted_within_limit}

abbrev key_user : AuthIdentity
key_user = record {
  subject = "u1";
  auth_type = "api_key";
  roles = "api-key" ∷ [];
  scopes = [];
  preferred_username = none;
  groups = [];
}

abbrev visits : List Visit
visits = (key_user, "/locations") ∷ (key_user, "/locations") ∷ (key_user, "/locations") ∷ []

abbrev counts : Counts
counts = (key_of key_user "/locations" 29, 118) ∷ []

accepted_within_limit_example :
    accepted default_limits 29 (key_of key_user "/locations" 29) visits counts
    ≡ min
        (visits_for default_limits 29 (key_of key_user "/locations" 29) visits)
        (120 - count_of (key_of key_user "/locations" 29) counts)
unfolding limit_for
accepted_within_limit_example =
    accepted_within_limit default_limits 29 key_user "/locations" 120 visits counts
      (λ _. refl, (λ _. refl, (λ _. refl, tt)))
