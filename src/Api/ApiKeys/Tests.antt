-- ===== src/Api/ApiKeys/Tests.antt =====
-- The API keys of api/src/api_key_store.py in a table of one key.
use teehr_cloud_core.Base.{ℕ, String, ◌≡◌, refl, Option, none, some, [], ◌∷◌, ◌<>◌, ok}
use teehr_cloud_core.Api.ApiKeys.{
  ApiKeyRow, row_by_id, row_by_hash, insert_row, create_key, validate_key,
}
use teehr_cloud_core.Api.ApiKeys.Lifecycle.{
  Changes, revoked_key_is_refused, create_key-validate_key,
}

abbrev hash_key : String → String
hash_key plaintext = "h:" <> plaintext

abbrev row : Option ℕ → ApiKeyRow
row revoked_at = record {
  id = "k1";
  owner_sub = "u1";
  name = "laptop";
  key_hash = "h:secret";
  scopes = "read" ∷ [];
  created_at = 5;
  revoked_at = revoked_at;
}

revoked_key_is_refused_example : validate_key hash_key "secret" (some (row (some 9) ∷ [])) ≡ ok none
unfolding row_by_hash
revoked_key_is_refused_example =
    revoked_key_is_refused hash_key "secret" {rows = row (some 9) ∷ []} refl Changes.start

create_key-validate_key_example :
    (◌≡◌ {A = String} "secret" "secret")
    × (validate_key hash_key "secret" (some (row none ∷ []))
        ≡ ok (
            some (record {
              subject = "u1";
              auth_type = "api_key";
              roles = "api-key" ∷ [];
              scopes = "read" ∷ [];
              preferred_username = none;
              groups = [];
            })))
unfolding create_key insert_row row_by_id row_by_hash
create_key-validate_key_example =
    create_key-validate_key hash_key "k1" "secret" 5 "u1" "laptop" ("read" ∷ []) (some [])
      (row none ∷ [])
      (record { id = "k1"; name = "laptop"; api_key = "secret"; scopes = "read" ∷ [] }) refl
