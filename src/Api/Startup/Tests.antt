-- ===== src/Api/Startup/Tests.antt =====
-- A start that copies a revoked key, and its restart.
use teehr_cloud_core.Base.{ℕ, ◌≡◌, refl, true, Option, none, some, [], ◌∷◌, ok, strip}
use teehr_cloud_core.Api.ApiKeys.{
  ApiKeyRow, row_by_id, merge_revoked, upsert_legacy, copy_legacy_keys,
}
use teehr_cloud_core.Api.Sessions.{started}
use teehr_cloud_core.Api.Startup.{Database, Stores, api_key_startup, startup_event, allowed_origins}
use teehr_cloud_core.Api.Startup.Restart.{startup_event-restart}

abbrev key : Option ℕ → ApiKeyRow
key revoked_at = record {
  id = "k1";
  owner_sub = "u1";
  name = "old";
  key_hash = "h1";
  scopes = [];
  created_at = 10;
  revoked_at = revoked_at;
}

abbrev db : Database
db = record { api_keys = some (key none ∷ []); delegated_sessions = none }

abbrev stores : Stores
stores = record { api_key_store = some (key (some 20) ∷ []); delegated_session_store = started [] }

starts : (startup_event "postgresql://legacy" (some (key (some 20) ∷ [])) db).1 ≡ ok stores
unfolding startup_event api_key_startup copy_legacy_keys upsert_legacy row_by_id merge_revoked
starts = refl

startup_event-restart_example :
    startup_event "postgresql://legacy"
      (some (key (some 20) ∷ []))
      (startup_event "postgresql://legacy" (some (key (some 20) ∷ [])) db).0
    ≡ ((startup_event "postgresql://legacy" (some (key (some 20) ∷ [])) db).0, ok stores)
startup_event-restart_example =
    startup_event-restart "postgresql://legacy" (some (key (some 20) ∷ [])) db stores starts

-- An origin "*" beside another is kept, with credentials.
all_with_credentials : allowed_origins (some "https://a, *") ≡ ("https://a" ∷ "*" ∷ [], true)
unfolding allowed_origins strip
all_with_credentials = refl
