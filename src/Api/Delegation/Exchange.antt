-- ===== src/Api/Delegation/Exchange.antt =====
-- Which token requests a delegated session serves, and what becomes of the session.
use teehr_cloud_core.Base.{
  ℕ, ◌<◌, String, ◌≡◌, sym, ap, ◌≢◌, inl, inr, false, Option, none, some, arith, eq_iff, leb,
  Bool-cases, Option-cases, ◌==◌, Result, ok, Result-cases, ok-injective,
}
use teehr_cloud_core.Base.Dict.{Dict}
use teehr_cloud_core.Api.Sessions.{Store, unset, unstarted, started, Table, Session, get_session}
use teehr_cloud_core.Api.Broker.{BrokerConfig, BrokerError, Reply, Issued}
use teehr_cloud_core.Api.Delegation.{
  Claims, SessionJwt, store_rows, TokenRequest, is_mismatch, use_session, session_id_of,
  exchange_via_broker_session,
}

-- The user, the notebook session and the realm of a request are those of a session.
abbrev pub Matches : Session → TokenRequest → Type 0
Matches session request =
    (session.user_id ≡ request.user_id)
    × (session.session_id ≡ request.session_id)
    × (session.realm ≡ request.realm)

Matches-of_test :
    (session : Session) (request : TokenRequest)
    → is_mismatch session request ≡ false
    → Matches session request
Matches-of_test session request e = (
  (eq_iff session.user_id request.user_id).0 (ground arith),
  (eq_iff session.session_id request.session_id).0 (ground arith),
  (eq_iff session.realm request.realm).0 (ground arith),
)

store_rows-started :
    (store : Store) (rows : Table) → store_rows store ≡ ok rows → store ≡ started rows
store_rows-started unset rows e = cc
store_rows-started unstarted rows e = cc
store_rows-started (started r) rows e = ap started (ok-injective _ _ e)

pub differ : (sid other : String) → other ≢ sid → (sid == other) ≡ false
differ sid other apart = elim (Bool-cases (sid == other)) [
  | inl e ↦ absurd (apart (sym ((eq_iff sid other).0 e)))
  | inr e ↦ e
]

module _ (config : BrokerConfig) (jwt : SessionJwt) (encrypt : String → String)
    (decrypt : String → Option String) (post : Dict String → Reply)
    (token_exp : String → Option ℕ) where
  abbrev exchange : String → ℕ → String → TokenRequest → Store → Store × Result BrokerError Issued
  exchange = exchange_via_broker_session config jwt encrypt decrypt post token_exp

  -- Why a request is served.
  pub record Served (now : ℕ) (token : String) (request : TokenRequest) (store : Store)
      : Type 0 where
    pub claims : Claims
    pub rows : Table
    pub session : Session
    pub decoded : jwt.decode now token ≡ some claims
    pub is_started : store ≡ started rows
    pub found : get_session decrypt claims.sid rows ≡ some (some session)
    pub unexpired : now < session.expires_at
    pub matches : Matches session request

  session_id_of-claims :
      (now : ℕ) (token sid : String)
      → session_id_of config jwt encrypt decrypt post token_exp now token ≡ ok sid
      → (claims : Claims) × (jwt.decode now token ≡ some claims) × (claims.sid ≡ sid)
  unfolding session_id_of
  session_id_of-claims now token sid e = elim (Bool-cases (token == "")) [
    | inl t ↦ cc (rw (session_id_of, t) at e)
    | inr t ↦ elim (Option-cases (jwt.decode now token)) [
      | inl f ↦ cc (rw (session_id_of, t, f) at e)
      | inr (claims, f) ↦ elim (Bool-cases (claims.sid == "")) [
        | inl g ↦ cc (rw (session_id_of, t, f, g) at e)
        | inr g ↦ (claims, f, ok-injective _ _ (rw (session_id_of, t, f, g) at e))
      ]
    ]
  ]

  use_session-served :
      (trace_id : String) (now : ℕ) (sid : String) (request : TokenRequest) (rows : Table)
      (issued : Issued)
      → (use_session config jwt encrypt decrypt post token_exp trace_id now sid request rows).1
        ≡ ok issued
      → (session : Session) × (get_session decrypt sid rows ≡ some (some session))
        × (now < session.expires_at)
        × Matches session request
  unfolding use_session
  use_session-served trace_id now sid request rows issued e =
      elim (Option-cases (get_session decrypt sid rows)) [
        | inl f ↦ cc (rw (use_session, f) at e)
        | inr (none, f) ↦ cc (rw (use_session, f) at e)
        | inr (some session, f) ↦ elim (Bool-cases (leb session.expires_at now)) [
          | inl g ↦ cc (rw (use_session, f, g) at e)
          | inr g ↦ elim (Bool-cases (is_mismatch session request)) [
            | inl m ↦ cc (rw (use_session, f, g, m) at e)
            | inr m ↦ (session, f, ground arith, Matches-of_test session request m)
          ]
        ]
      ]

  -- A token request that succeeds through a delegated session has a broker token that decodes, whose
  -- session is stored, has not expired, and has the user, notebook session and realm of the request.
  pub exchange-Served :
      (trace_id : String) (now : ℕ) (token : String) (request : TokenRequest) (store : Store)
      (issued : Issued)
      → (exchange trace_id now token request store).1 ≡ ok issued
      → Served now token request store
  unfolding exchange_via_broker_session
  exchange-Served trace_id now token request store issued e =
      elim (Result-cases (session_id_of config jwt encrypt decrypt post token_exp now token)) [
        | inr (fault, f) ↦ cc (rw (exchange_via_broker_session, f) at e)
        | inl (sid, f) ↦ elim (Result-cases (store_rows store)) [
          | inr (fault, g) ↦ cc (rw (exchange_via_broker_session, f, g) at e)
          | inl (rows, g) ↦
              let (claims, decoded, same) = session_id_of-claims now token sid f in
              let used = rw (exchange_via_broker_session, f, g) at e in
              let (session, found, unexpired, matches) =
                use_session-served trace_id now sid request rows issued used in
              record {
                claims = claims;
                rows = rows;
                session = session;
                decoded = decoded;
                is_started = store_rows-started store rows g;
                found = rw same found;
                unexpired = unexpired;
                matches = matches;
              }
        ]
      ]
