-- ===== src/Api/KeyRoutes/Tests.antt =====
-- The API-key routes at a table of one key.
use teehr_cloud_core.Base.{◌≡◌, refl, none, some, [], ◌∷◌, ok}
use teehr_cloud_core.Api.Identity.{AuthIdentity}
use teehr_cloud_core.Api.ApiKeys.{ApiKeyRow, row_by_id}
use teehr_cloud_core.Api.KeyRoutes.{revoke_api_key}
use teehr_cloud_core.Api.KeyRoutes.Revocation.{revoke_api_key_lem}

abbrev row : ApiKeyRow
row = record {
  id = "k1";
  owner_sub = "u1";
  name = "laptop";
  key_hash = "h:secret";
  scopes = "read" ∷ [];
  created_at = 5;
  revoked_at = none;
}

abbrev admin : AuthIdentity
admin = record {
  subject = "u1";
  auth_type = "jwt";
  roles = "admin" ∷ [];
  scopes = [];
  preferred_username = none;
  groups = [];
}

revoke_api_key_lem_example :
    revoke_api_key 9 admin "k1" (some (row ∷ []))
    ≡ (some (record row { revoked_at = some 9 } ∷ []), ok tt)
unfolding row_by_id
revoke_api_key_lem_example = revoke_api_key_lem 9 admin "k1" (row ∷ []) (refl, tt)
