-- ===== src/Api/Startup/Restart.antt =====
-- A restart of the API.
use teehr_cloud_core.Base.{
  String, ◌≡◌, refl, sym, ap, ◌∙◌, inl, inr, Option, none, some, Bool-cases, ◌==◌, Result, ok, err,
  ok-injective, Result-cases,
}
use teehr_cloud_core.Api.ApiKeys.{StoreError}
use teehr_cloud_core.Api.ApiKeys.Copied.{copy_legacy_keys-twice}
use teehr_cloud_core.Api.ApiKeys
use teehr_cloud_core.Api.Sessions
use teehr_cloud_core.Api.Sessions.{started}
use teehr_cloud_core.Api.Startup.{
  Database, Stores, existing_or_empty, with_legacy, api_key_startup, start_sessions, startup_event,
}

with_legacy-twice :
    (legacy : Option ApiKeys.Table) (rows merged : ApiKeys.Table)
    → with_legacy legacy rows ≡ ok merged
    → with_legacy legacy merged ≡ ok merged
with_legacy-twice none rows merged e = refl
with_legacy-twice (some legacies) rows merged e = copy_legacy_keys-twice legacies rows merged e

api_key_startup-twice :
    (legacy_dsn : String) (legacy table : Option ApiKeys.Table) (rows : ApiKeys.Table)
    → (api_key_startup legacy_dsn legacy table).1 ≡ ok rows
    → (api_key_startup legacy_dsn legacy table ≡ (rows, ok rows))
      × (api_key_startup legacy_dsn legacy (some rows) ≡ (rows, ok rows))
unfolding api_key_startup
api_key_startup-twice legacy_dsn legacy table rows e = elim (Bool-cases (legacy_dsn == "")) [
  | inl none_set ↦
      let is = ok-injective _ _ (rw (api_key_startup, none_set) at e) in
      (rw (api_key_startup, none_set) (ap (λ r. (r, ok r)) is), rw (api_key_startup, none_set) refl)
  | inr set ↦ elim (Result-cases (with_legacy legacy (existing_or_empty table))) [
    | inr (fault, f) ↦ cc (rw (api_key_startup, set, f) at e)
    | inl (merged, f) ↦
        let is = ok-injective _ _ (rw (api_key_startup, set, f) at e) in
        let again = with_legacy-twice legacy (existing_or_empty table) rows (f ∙ ap ok is) in
        (
          rw (api_key_startup, set, f) (ap (λ r. (r, ok r)) is),
          rw (api_key_startup, set, again) refl,
        )
  ]
]

err_injective :
    (e f : StoreError) → ◌≡◌ {A = Result StoreError ApiKeys.Table} (err e) (err f) → e ≡ f
err_injective e f h = cc

-- What a start with these tables leaves.
abbrev left : ApiKeys.Table → Sessions.Table → Database × Result StoreError Stores
left rows sessions = (
  record { api_keys = some rows; delegated_sessions = some sessions },
  ok (record { api_key_store = some rows; delegated_session_store = started sessions }),
)

startup_event-left :
    (legacy_dsn : String) (legacy : Option ApiKeys.Table) (db : Database) (rows : ApiKeys.Table)
    → api_key_startup legacy_dsn legacy db.api_keys ≡ (rows, ok rows)
    → startup_event legacy_dsn legacy db ≡ left rows (existing_or_empty db.delegated_sessions)
unfolding startup_event
startup_event-left legacy_dsn legacy db rows e = ap (start_sessions db) e

start_sessions-err :
    (db : Database) (keys : ApiKeys.Table × Result StoreError ApiKeys.Table) (stores : Stores)
    (fault : StoreError)
    → keys.1 ≡ err fault
    → (start_sessions db keys).1 ≡ err fault
start_sessions-err db (rows, err e) stores fault f = ap err (err_injective e fault f)
start_sessions-err db (rows, ok merged) stores fault f = cc

-- If a start succeeds, then every later start, on the tables that it has left and with the same legacy
-- keys, succeeds with the same stores and leaves the tables as they are.
pub startup_event-restart :
    (legacy_dsn : String) (legacy : Option ApiKeys.Table) (db : Database) (stores : Stores)
    → (startup_event legacy_dsn legacy db).1 ≡ ok stores
    → startup_event legacy_dsn legacy (startup_event legacy_dsn legacy db).0
      ≡ ((startup_event legacy_dsn legacy db).0, ok stores)
unfolding startup_event
startup_event-restart legacy_dsn legacy db stores e =
    elim (Result-cases (api_key_startup legacy_dsn legacy db.api_keys).1) [
      | inr (fault, f) ↦
          cc (
            start_sessions-err db (api_key_startup legacy_dsn legacy db.api_keys) stores fault f,
            e,
          )
      | inl (rows, f) ↦
          let (first, again) = api_key_startup-twice legacy_dsn legacy db.api_keys rows f in
          let once = startup_event-left legacy_dsn legacy db rows first in
          let twice =
            startup_event-left legacy_dsn legacy
              (left rows (existing_or_empty db.delegated_sessions)).0 rows again in
          ap (λ r. startup_event legacy_dsn legacy r.0) once
          ∙ twice
          ∙ ap (λ r. (r.0, r.1)) (sym once)
          ∙ ap (λ s. ((startup_event legacy_dsn legacy db).0, s)) e
    ]
