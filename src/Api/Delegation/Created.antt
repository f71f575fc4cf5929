-- ===== src/Api/Delegation/Created.antt =====
-- A delegated session from its creation to a token request.
use teehr_cloud_core.Base.{
  or_default, max, none, if◌then◌else◌, ◌-◌, ℕ, ◌+◌, ◌≤◌, ◌<◌, String, ◌≡◌, refl, sym, ap, ◌≢◌, inl,
  inr, false, Option, some, arith, eq_iff, eq_refl, leb, Bool-cases, ◌==◌, Result, ok, err, http,
  Result-cases, ok-injective,
}
use teehr_cloud_core.Base.Dict.{Dict}
use teehr_cloud_core.Api.Sessions.{Store, started, Table, Session, put_session, get_session}
use teehr_cloud_core.Api.Sessions.Rows.{get_session-put_session, get_session-updated}
use teehr_cloud_core.Api.Broker.{
  BrokerConfig, BrokerError, plain, Reply, Issued, clamp_requested_ttl, issue,
  refresh_subject_access_token,
}
use teehr_cloud_core.Api.Delegation.{
  Claims, SessionJwt, store_rows, SessionRequest, CreatedSession, session_of, TokenRequest,
  is_mismatch, session_expiry, session_claims, create_delegated_broker_session, rotated,
  refresh_and_issue, use_session, session_id_of, exchange_via_broker_session,
}
use teehr_cloud_core.Api.Delegation.Exchange.{Matches, differ}

module _ (config : BrokerConfig) (jwt : SessionJwt) (encrypt : String → String)
    (decrypt : String → Option String) (post : Dict String → Reply)
    (token_exp : String → Option ℕ) where
  abbrev exchange : String → ℕ → String → TokenRequest → Store → Store × Result BrokerError Issued
  exchange = exchange_via_broker_session config jwt encrypt decrypt post token_exp

  session_id_of-encode :
      (now : ℕ) (claims : Claims)
      → now < claims.exp
      → claims.sid ≢ ""
      → session_id_of config jwt encrypt decrypt post token_exp now (jwt.encode claims)
        ≡ ok claims.sid
  unfolding session_id_of
  session_id_of-encode now claims early named = rw (
    session_id_of,
    jwt.encode_nonempty claims,
    jwt.decode-encode now claims early,
    differ claims.sid "" (λ e. named (sym e)),
  )

  match_test :
      (session : Session) (request : TokenRequest)
      → Matches session request
      → is_mismatch session request ≡ false
  match_test session request (user, notebook, realm) = rw (
    (eq_iff session.user_id request.user_id).1 user,
    (eq_iff session.session_id request.session_id).1 notebook,
    (eq_iff session.realm request.realm).1 realm,
  )

  use_session_lem :
      (trace_id : String) (now : ℕ) (sid : String) (session : Session) (request : TokenRequest)
      (rows : Table) (access_token : String) (refreshed : Option String)
      → get_session decrypt sid rows ≡ some (some session)
      → now < session.expires_at
      → Matches session request
      → refresh_subject_access_token config post token_exp session.refresh_token
        ≡ ok (access_token, refreshed)
      → use_session config jwt encrypt decrypt post token_exp trace_id now sid request rows ≡ (
        rotated config jwt encrypt decrypt post token_exp now sid refreshed rows,
        ok (
            issue config post token_exp access_token "Bearer"
              (now + clamp_requested_ttl config request.requested_ttl_seconds)
              now
              trace_id),
      )
  unfolding use_session refresh_and_issue
  use_session_lem trace_id now sid session request rows access_token refreshed found early same
        answered =
      let fresh : leb session.expires_at now ≡ false = ground arith in
      rw (use_session, found, fresh, match_test session request same, refresh_and_issue, answered)

  -- What the creation of a session leaves.
  abbrev Created : String → ℕ → String → SessionRequest → Store → CreatedSession → Type 0
  Created sid created_at subject session store created =
      (rows : Table) × (store
        ≡ started (
            put_session encrypt created_at
              (session_of sid subject (session_expiry config jwt encrypt created_at) session) rows))
      × (created.broker_session_token
          ≡ jwt.encode (session_claims config jwt encrypt sid created_at subject session.user_id))
      × (created.expires_at_epoch_seconds ≡ session_expiry config jwt encrypt created_at)

  create-Created :
      (sid : String) (created_at : ℕ) (subject : String) (session : SessionRequest)
      (before store : Store) (created : CreatedSession)
      → create_delegated_broker_session config jwt encrypt sid created_at subject session before
        ≡ ok (store, created)
      → Created sid created_at subject session store created
  unfolding create_delegated_broker_session
  create-Created sid created_at subject session before store created e =
      elim (Bool-cases (session.refresh_token == "")) [
        | inl t ↦ cc (rw (create_delegated_broker_session, t) at e)
        | inr t ↦ elim (Result-cases (store_rows before)) [
          | inr (fault, f) ↦ cc (rw (create_delegated_broker_session, t, f) at e)
          | inl (rows, f) ↦
              let pair = ok-injective _ _ (rw (create_delegated_broker_session, t, f) at e) in
              (
                rows,
                sym (ap (λ p. p.0) pair),
                sym (ap (λ p. p.1.broker_session_token) pair),
                sym (ap (λ p. p.1.expires_at_epoch_seconds) pair),
              )
        ]
      ]

  -- Once a session that was created has expired, a request with its broker token is refused as
  -- invalid and leaves the store as it is, the expired session included.
  pub exchange-expired :
      (sid trace_id subject : String) (created_at now : ℕ) (session : SessionRequest)
      (request : TokenRequest) (before store : Store) (created : CreatedSession)
      → create_delegated_broker_session config jwt encrypt sid created_at subject session before
        ≡ ok (store, created)
      → created.expires_at_epoch_seconds ≤ now
      → exchange trace_id now created.broker_session_token request store
        ≡ (store, err (plain (http 401 "Invalid broker session token")))
  unfolding exchange_via_broker_session session_id_of
  exchange-expired sid trace_id subject created_at now session request before store created made
        late =
      let (_, _, token, expiry) =
        create-Created sid created_at subject session before store created made in
      let claims = session_claims config jwt encrypt sid created_at subject session.user_id in
      let over : session_expiry config jwt encrypt created_at ≤ now = rw expiry at late in
      rw (
        exchange_via_broker_session,
        token,
        session_id_of,
        jwt.encode_nonempty claims,
        jwt.decode-expired now claims over,
      )

  module _ (round_trip : (token : String) → decrypt (encrypt token) ≡ some token) where
    serve-Created :
        (sid trace_id subject : String) (created_at now : ℕ) (session : SessionRequest)
        (request : TokenRequest) (store : Store) (created : CreatedSession) (access_token : String)
        (refreshed : Option String)
        → sid ≢ ""
        → Created sid created_at subject session store created
        → now < created.expires_at_epoch_seconds
        → Matches (session_of sid subject created.expires_at_epoch_seconds session) request
        → refresh_subject_access_token config post token_exp session.refresh_token
          ≡ ok (access_token, refreshed)
        → (rows : Table) × (get_session decrypt sid rows
            ≡ some (some (session_of sid subject created.expires_at_epoch_seconds session)))
          × (exchange trace_id now created.broker_session_token request store ≡ (
            started (rotated config jwt encrypt decrypt post token_exp now sid refreshed rows),
            ok (
                issue config post token_exp access_token "Bearer"
                  (now + clamp_requested_ttl config request.requested_ttl_seconds)
                  now
                  trace_id),
          ))
    unfolding exchange_via_broker_session
    serve-Created sid trace_id subject created_at now session request store created access_token
          refreshed named (rows, stored, token, expiry) early same answered =
        let ends = session_expiry config jwt encrypt created_at in
        let kept = session_of sid subject ends session in
        let claims = session_claims config jwt encrypt sid created_at subject session.user_id in
        let after = put_session encrypt created_at kept rows in
        let found : get_session decrypt sid after ≡ some (some kept) =
          rw
            (
              get_session-put_session encrypt decrypt round_trip created_at kept sid rows,
              eq_refl sid,
            )
            refl in
        let soon : now < ends = rw expiry at early in
        let used =
          use_session_lem trace_id now sid kept request after access_token refreshed found soon same
            answered in
        (
          after,
          rw expiry found,
          rw (
            exchange_via_broker_session,
            token,
            session_id_of-encode now claims soon named,
            stored,
            used,
          ),
        )

    -- The same with what the code calls.
    pub create-exchange_result :
        (sid trace_id subject : String) (created_at now : ℕ) (session : SessionRequest)
        (request : TokenRequest) (before store : Store) (created : CreatedSession)
        (access_token : String) (refreshed : Option String)
        → sid ≢ ""
        → create_delegated_broker_session config jwt encrypt sid created_at subject session before
          ≡ ok (store, created)
        → now < created.expires_at_epoch_seconds
        → Matches (session_of sid subject created.expires_at_epoch_seconds session) request
        → refresh_subject_access_token config post token_exp session.refresh_token
          ≡ ok (access_token, refreshed)
        → (rows : Table) × (get_session decrypt sid rows
            ≡ some (some (session_of sid subject created.expires_at_epoch_seconds session)))
          × (exchange trace_id now created.broker_session_token request store ≡ (
            started (rotated config jwt encrypt decrypt post token_exp now sid refreshed rows),
            ok (
                issue config post token_exp access_token "Bearer"
                  (now + clamp_requested_ttl config request.requested_ttl_seconds)
                  now
                  trace_id),
          ))
    create-exchange_result sid trace_id subject created_at now session request before store created
          access_token refreshed named made early same answered =
        serve-Created sid trace_id subject created_at now session request store created access_token
          refreshed named (create-Created sid created_at subject session before store created made)
          early same answered

    -- The refresh token that the next request finds.
    abbrev pub later_token : String → Option String → String
    later_token old none = old
    later_token old (some token) = if token == "" then old else token

    rotated-read :
        (now : ℕ) (sid : String) (refreshed : Option String) (rows : Table) (session : Session)
        → get_session decrypt sid rows ≡ some (some session)
        → get_session decrypt sid
            (rotated config jwt encrypt decrypt post token_exp now sid refreshed rows)
          ≡ some (
              some (record session { refresh_token = later_token session.refresh_token refreshed }))
    rotated-read now sid none rows session e = e
    rotated-read now sid (some token) rows session e = elim (Bool-cases (token == "")) [
      | inl f ↦ rw (f, rotated) e
      | inr f ↦
          rw (f, rotated)
            (get_session-updated encrypt decrypt round_trip now sid token rows session e)
    ]

    -- If what is encrypted decrypts to itself, then a delegated session that has been created
    -- under an id serves the requests that match it until it expires: when the identity provider
    -- answers the stored refresh token with an access token, the caller receives that token as a bearer
    -- token, with the expiry that the token states or else the clamped lifetime of the request, and the
    -- session is stored as before except that its refresh token is a nonempty new one of the answer.
    pub create-exchange :
        (sid trace_id subject : String) (created_at now : ℕ) (session : SessionRequest)
        (request : TokenRequest) (before store : Store) (created : CreatedSession)
        (access_token : String) (refreshed : Option String)
        → sid ≢ ""
        → create_delegated_broker_session config jwt encrypt sid created_at subject session before
          ≡ ok (store, created)
        → now < created.expires_at_epoch_seconds
        → Matches (session_of sid subject created.expires_at_epoch_seconds session) request
        → refresh_subject_access_token config post token_exp session.refresh_token
          ≡ ok (access_token, refreshed)
        → (after : Table) × (issued : Issued) × (exchange trace_id now created.broker_session_token
              request store
            ≡ (started after, ok issued))
          × (issued.access_token ≡ access_token)
          × (issued.token_type ≡ "Bearer")
          × (issued.expires_at_epoch_seconds
              ≡ or_default
                  (token_exp access_token)
                  (now + clamp_requested_ttl config request.requested_ttl_seconds))
          × (issued.expires_in_seconds ≡ max (issued.expires_at_epoch_seconds - now) 1)
          × (issued.trace_id ≡ trace_id)
          × (get_session decrypt sid after
              ≡ some (
                  some (record (session_of sid subject created.expires_at_epoch_seconds session) {
                    refresh_token = later_token session.refresh_token refreshed;
                  })))
    unfolding issue
    create-exchange sid trace_id subject created_at now session request before store created
          access_token refreshed named made early same answered =
        let (rows, found, e) =
          create-exchange_result sid trace_id subject created_at now session request before store
            created access_token refreshed named made early same answered in
        (
          rotated config jwt encrypt decrypt post token_exp now sid refreshed rows,
          _,
          e,
          refl,
          refl,
          refl,
          refl,
          refl,
          rotated-read now sid refreshed rows _ found,
        )
