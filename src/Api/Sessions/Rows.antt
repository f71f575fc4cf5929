-- ===== src/Api/Sessions/Rows.antt =====
-- What is read back from the table of api/src/delegated_session_store.py.
use mathlib.Core.Option.{some-injective}
use teehr_cloud_core.Base.{
  ℕ, String, ◌≡◌, refl, inl, inr, false, Option, none, some, [], ◌∷◌, arith, eq_iff, if◌then◌else◌,
  Bool-cases, ◌==◌, Option-cases, ap, ◌∙◌,
}
use teehr_cloud_core.Api.Sessions.{
  SessionRow, Table, Session, row_of, upsert, delete_session, put_session, opened, get_session,
  update_refresh_token,
}

row_of-upsert :
    (sid : String) (new : SessionRow) (rows : Table)
    → row_of sid (upsert new rows) ≡ (if new.sid == sid then some new else row_of sid rows)
unfolding row_of upsert
row_of-upsert sid new [] = refl
row_of-upsert sid new (row ∷ rows) = elim (Bool-cases (row.sid == new.sid)) [
  | inl e ↦ elim (Bool-cases (new.sid == sid)) [
    | inl f ↦ rw (e, row_of, f)
    | inr f ↦ rw (e, row_of, f, alike ((eq_iff row.sid new.sid).0 e) f) refl
  ]
  | inr e ↦ elim (Bool-cases (row.sid == sid)) [
    | inl f ↦ rw (e, row_of, f, apart ((eq_iff row.sid sid).0 f) e)
    | inr f ↦ rw (e, row_of, f) (row_of-upsert sid new rows)
  ]
]
  where
    alike : row.sid ≡ new.sid → (new.sid == sid) ≡ false → (row.sid == sid) ≡ false
    alike same e = cc

    apart : row.sid ≡ sid → (row.sid == new.sid) ≡ false → (new.sid == sid) ≡ false
    apart same e = ground (arith, eq_iff new.sid sid, eq_iff row.sid new.sid)

pub row_of-delete_session :
    (sid deleted : String) (rows : Table)
    → row_of sid (delete_session deleted rows) ≡ (if deleted == sid then none else row_of sid rows)
unfolding row_of delete_session
row_of-delete_session sid deleted [] = ground arith
row_of-delete_session sid deleted (row ∷ rows) = ground (
  arith,
  eq_iff row.sid sid,
  eq_iff row.sid deleted,
  eq_iff deleted sid,
  row_of-delete_session sid deleted rows,
)

module _ (encrypt : String → String) (decrypt : String → Option String)
    (round_trip : (token : String) → decrypt (encrypt token) ≡ some token) where
  -- If what is encrypted decrypts to itself, then a session that is put is read back as it was, and the
  -- sessions of other ids are read as before.
  pub get_session-put_session :
      (now : ℕ) (session : Session) (sid : String) (rows : Table)
      → get_session decrypt sid (put_session encrypt now session rows)
        ≡ (if session.sid == sid then some (some session) else get_session decrypt sid rows)
  unfolding get_session put_session
  get_session-put_session now session sid rows = elim (Bool-cases (session.sid == sid)) [
    | inl e ↦ rw (row_of-upsert sid, e, get_session, round_trip session.refresh_token)
    | inr e ↦ rw (row_of-upsert sid, e, get_session)
  ]

  row_of-update :
      (now : ℕ) (sid token : String) (rows : Table) (row : SessionRow)
      → row_of sid rows ≡ some row
      → row_of sid (update_refresh_token encrypt now sid token rows)
        ≡ some (record row { refresh_token = encrypt token; updated_at = now })
  unfolding row_of update_refresh_token
  row_of-update now sid token [] row e = cc
  row_of-update now sid token (r ∷ rows) row e = elim (Bool-cases (r.sid == sid)) [
    | inl f ↦
        let same : r ≡ row = some-injective _ _ (rw (f, row_of) at e) in rw (f, row_of, f, same)
    | inr f ↦ rw (f, row_of, f) (row_of-update now sid token rows row (rw (row_of, f) at e))
  ]

  -- If what is encrypted decrypts to itself, then a session of the table whose refresh token is updated
  -- is read back with the new token and nothing else changed, even if the old token did not decrypt.
  pub get_session-update_refresh_token :
      (now : ℕ) (sid token : String) (rows : Table) (row : SessionRow)
      → row_of sid rows ≡ some row
      → get_session decrypt sid (update_refresh_token encrypt now sid token rows)
        ≡ some (some (opened row token))
  unfolding get_session
  get_session-update_refresh_token now sid token rows row e =
      rw (row_of-update now sid token rows row e, get_session, round_trip token)

  -- The same of a session that is read.
  pub get_session-updated :
      (now : ℕ) (sid token : String) (rows : Table) (session : Session)
      → get_session decrypt sid rows ≡ some (some session)
      → get_session decrypt sid (update_refresh_token encrypt now sid token rows)
        ≡ some (some (record session { refresh_token = token }))
  unfolding get_session
  get_session-updated now sid token rows session e = elim (Option-cases (row_of sid rows)) [
    | inl f ↦ cc (rw (get_session, f) at e)
    | inr (row, f) ↦ elim (Option-cases (decrypt row.refresh_token)) [
      | inl g ↦ cc (rw (get_session, f, g) at e)
      | inr (old, g) ↦
          let same : opened row old ≡ session =
            some-injective _ _ (some-injective _ _ (rw (get_session, f, g) at e)) in
          get_session-update_refresh_token now sid token rows row f
          ∙ ap (λ (one : Session). some (some (record one { refresh_token = token }))) same
    ]
  ]
