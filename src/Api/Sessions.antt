-- ===== src/Api/Sessions.antt =====
-- api/src/delegated_session_store.py: the table of delegated sessions, with encrypted refresh tokens.
-- Fernet's encryption is a parameter; times are whole seconds, as the callers pass and read them.
pub mod Rows
mod Tests
use mathlib.Core.Option
use teehr_cloud_core.Base.{
  ℕ, ◌+◌, ◌-◌, ◌*◌, ◌/◌, ◌%◌, ◌^◌, ◌≤◌, ◌<◌, String, ◌≡◌, refl, ◌∙◌, ◌≢◌, ◌↔◌, ◌⊎◌, inl, inr, false,
  ◌&&◌, ◌||◌, Option, none, some, List, [], ◌∷◌, ◌++◌, map, arith, eq_iff, if◌then◌else◌,
  Bool-cases, ◌==◌, ◌<>◌, strip_prefix, strip_prefix-append, ◌>>=◌, ◌>>◌, >>=-passed,
}

pub record SessionRow : Type 0 where
  pub sid : String
  pub subject : String
  pub user_id : String
  pub session_id : String
  pub realm : String
  pub catalog : String
  pub audience : String
  pub refresh_token : String
  pub expires_at : ℕ
  pub updated_at : ℕ

abbrev pub Table : Type 0
Table = List SessionRow

-- The store object: not set, set and not started, or started.
pub data Store : Type 0 where
  unset unstarted : Store
  started : Table → Store

-- A session as `get_session` returns it, with the refresh token in the clear.
pub record Session : Type 0 where
  pub sid : String
  pub subject : String
  pub user_id : String
  pub session_id : String
  pub realm : String
  pub catalog : String
  pub audience : String
  pub refresh_token : String
  pub expires_at : ℕ

unfoldable pub row_of : String → Table → Option SessionRow
row_of sid [] = none
row_of sid (row ∷ rows) = if row.sid == sid then some row else row_of sid rows

-- `INSERT ... ON CONFLICT (sid) DO UPDATE`
unfoldable pub upsert : SessionRow → Table → Table
upsert new [] = new ∷ []
upsert new (row ∷ rows) = if row.sid == new.sid then new ∷ rows else row ∷ upsert new rows

-- `DELETE ... WHERE sid = $1`
unfoldable pub delete_session : String → Table → Table
delete_session sid [] = []
delete_session sid (row ∷ rows) =
    let rest = delete_session sid rows in if row.sid == sid then rest else row ∷ rest

abbrev pub opened : SessionRow → String → Session
opened row refresh_token = record {
  sid = row.sid;
  subject = row.subject;
  user_id = row.user_id;
  session_id = row.session_id;
  realm = row.realm;
  catalog = row.catalog;
  audience = row.audience;
  refresh_token = refresh_token;
  expires_at = row.expires_at;
}

module _ (encrypt : String → String) where
  -- `now` is the database's NOW()
  unfoldable pub put_session : ℕ → Session → Table → Table
  put_session now session rows =
      upsert
        (record {
          sid = session.sid;
          subject = session.subject;
          user_id = session.user_id;
          session_id = session.session_id;
          realm = session.realm;
          catalog = session.catalog;
          audience = session.audience;
          refresh_token = encrypt session.refresh_token;
          expires_at = session.expires_at;
          updated_at = now;
        })
        rows

  unfoldable pub update_refresh_token : ℕ → String → String → Table → Table
  update_refresh_token now sid refresh_token [] = []
  update_refresh_token now sid refresh_token (row ∷ rows) =
      let rest = update_refresh_token now sid refresh_token rows in
      if row.sid == sid
      then record row { refresh_token = encrypt refresh_token; updated_at = now } ∷ rest
      else row ∷ rest

module _ (decrypt : String → Option String) where
  -- the outer `none` is a token that does not decrypt, which raises
  unfoldable pub get_session : String → Table → Option (Option Session)
  get_session sid rows = elim (row_of sid rows) [
    | none ↦ some none
    | some row ↦ Option.map (λ token. some (opened row token)) (decrypt row.refresh_token)
  ]
