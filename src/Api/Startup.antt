-- ===== src/Api/Startup.antt =====
-- The start and the stop of the stores in api/src/main.py, with the tables that the stores create, and the
-- CORS settings. `none` is a table that does not exist, or an environment variable that is not set.
pub mod Restart
mod Tests
use teehr_cloud_core.Base.{
  String, Bool, true, false, Option, none, some, List, [], ◌∷◌, map, or_default, ◌==◌,
  if◌then◌else◌, strip, Result, ok, err,
}
use teehr_cloud_core.Base.Split.{split_on}
use teehr_cloud_core.Api.ApiKeys.{StoreError, copy_legacy_keys}
use teehr_cloud_core.Api.ApiKeys
use teehr_cloud_core.Api.Sessions
use teehr_cloud_core.Api.Sessions.{Store, unstarted, started}

-- The database of the app.
pub record Database : Type 0 where
  pub api_keys : Option ApiKeys.Table
  pub delegated_sessions : Option Sessions.Table

-- The stores of the app's state: the keys of a started key store, and the session store.
pub record Stores : Type 0 where
  pub api_key_store : Option ApiKeys.Table
  pub delegated_session_store : Store

-- `CREATE TABLE IF NOT EXISTS`
abbrev pub existing_or_empty {ℓ} : {Row : Type ℓ} → Option (List Row) → List Row
existing_or_empty none = []
existing_or_empty (some rows) = rows

-- `_copy_legacy_keys`: the keys of the legacy database, if it has the table
abbrev pub with_legacy : Option ApiKeys.Table → ApiKeys.Table → Result StoreError ApiKeys.Table
with_legacy none rows = ok rows
with_legacy (some legacies) rows = copy_legacy_keys legacies rows

-- `ApiKeyStore.startup`: the table, and the keys with those of the legacy database, if one is configured
unfoldable pub api_key_startup :
    String
    → Option ApiKeys.Table
    → Option ApiKeys.Table
    → ApiKeys.Table × Result StoreError ApiKeys.Table
api_key_startup legacy_dsn legacy table =
    let rows = existing_or_empty table in
    if legacy_dsn == ""
    then (rows, ok rows)
    else elim (with_legacy legacy rows) [ err e ↦ (rows, err e) | ok merged ↦ (merged, ok merged) ]

-- the session store's `startup`, if that of the keys has succeeded
abbrev pub start_sessions :
    Database → ApiKeys.Table × Result StoreError ApiKeys.Table → Database × Result StoreError Stores
start_sessions db (table, err e) = (record db { api_keys = some table }, err e)
start_sessions db (table, ok rows) =
    let sessions = existing_or_empty db.delegated_sessions in
    (
      record { api_keys = some table; delegated_sessions = some sessions },
      ok (record { api_key_store = some rows; delegated_session_store = started sessions }),
    )

unfoldable pub startup_event :
    String → Option ApiKeys.Table → Database → Database × Result StoreError Stores
startup_event legacy_dsn legacy db =
    start_sessions db (api_key_startup legacy_dsn legacy db.api_keys)

-- allow_origins and allow_credentials
unfoldable pub allowed_origins : Option String → List String × Bool
unfolding split_on
allowed_origins variable =
    let origins = or_default variable "*" in
    if origins == "*" then ("*" ∷ [], false) else (map strip (split_on b',' origins), true)
