-- ===== src/Notebook/Renewal.antt =====
-- The credentials that Icechunk gets from icechunk_access.py outlive the call that fetches them.
use mathlib.Core.Option.{some-injective}
use teehr_cloud_core.Base.{
  ℕ, ◌+◌, ◌-◌, ◌<◌, ◌≡◌, refl, sym, ap, ◌⊎◌, inl, inr, false, Option, none, some, arith, Bool-cases,
  if◌then◌else◌, Result, ok, or_raise-some, >>=-passed, ok-injective,
}
use teehr_cloud_core.Xpublish.App.{S3SessionCredentials, IcechunkCredentialsResponse}
use teehr_cloud_core.Notebook.{
  Fault, expiry_margin, microseconds, S3StaticCredentials, is_expiring, static_credentials,
  icechunk_credentials_call,
}

static_credentials-expires_after :
    (s : S3SessionCredentials) (expires_at : Option ℕ) (keys : S3StaticCredentials)
    → static_credentials s expires_at ≡ ok keys
    → (at : ℕ) × (expires_at ≡ some at)
      × (keys.expires_after ≡ at - expiry_margin)
      × (keys.access_key_id ≡ s.access_key_id)
      × (keys.secret_access_key ≡ s.secret_access_key)
      × (keys.session_token ≡ s.session_token)
static_credentials-expires_after s none keys e = cc
static_credentials-expires_after s (some at) keys e =
    let same = ok-injective _ _ e in
    (
      at,
      refl,
      sym (ap (λ k. k.expires_after) same),
      sym (ap (λ k. k.access_key_id) same),
      sym (ap (λ k. k.secret_access_key) same),
      sym (ap (λ k. k.session_token) same),
    )

is_expiring_lem :
    (now : ℕ) (expires_at : Option ℕ) (at : ℕ)
    → is_expiring now expires_at ≡ false
    → expires_at ≡ some at
    → now + microseconds expiry_margin < microseconds at
is_expiring_lem now none at fresh e = cc
is_expiring_lem now (some t) at fresh e = rw (← some-injective _ _ e) (ground arith)

module _ (now : ℕ) (requested : Result Fault IcechunkCredentialsResponse)
    (outlives : (body : IcechunkCredentialsResponse) (at : ℕ)
      → requested ≡ ok body
      → body.expires_at_epoch_seconds ≡ some at
      → now + microseconds expiry_margin < microseconds at) where
  body_of_call :
      (initial body : IcechunkCredentialsResponse)
      → (if is_expiring now initial.expires_at_epoch_seconds then requested else ok initial)
        ≡ ok body
      → ((body ≡ initial) ⊎ (requested ≡ ok body))
        × ((at : ℕ)
            → body.expires_at_epoch_seconds ≡ some at
            → now + microseconds expiry_margin < microseconds at)
  body_of_call initial body e =
      elim (Bool-cases (is_expiring now initial.expires_at_epoch_seconds)) [
        | inl f ↦ let from = rw f at e in (inr from, λ at g. outlives body at from g)
        | inr f ↦
            let same : initial ≡ body = ok-injective _ _ (rw f at e) in
            (inl (sym same), rw (← same) (λ at g. is_expiring_lem now _ at f g))
      ]

  -- If new credentials last more than the margin of 60 seconds, then the access key, the secret and the
  -- session token that Icechunk gets are those of the response that the repo was opened with or those of
  -- a new one, and Icechunk does not yet ask for others at the time of the call.
  pub icechunk_credentials_call-expires_after :
      (initial : IcechunkCredentialsResponse) (keys : S3StaticCredentials)
      → icechunk_credentials_call now requested initial ≡ ok keys
      → (body : IcechunkCredentialsResponse) × (s : S3SessionCredentials) × ((body ≡ initial)
          ⊎ (requested ≡ ok body))
        × (body.credentials ≡ some s)
        × (keys.access_key_id ≡ s.access_key_id)
        × (keys.secret_access_key ≡ s.secret_access_key)
        × (keys.session_token ≡ s.session_token)
        × (now < microseconds keys.expires_after)
  unfolding icechunk_credentials_call
  icechunk_credentials_call-expires_after initial keys e =
      let (body, chosen, rest) = >>=-passed _ _ e in
      let (s, given, made) = >>=-passed _ _ rest in
      let (origin, late) = body_of_call initial body chosen in
      let (at, known, after, key, secret, token) = static_credentials-expires_after s _ keys made in
      (
        body,
        s,
        origin,
        or_raise-some _ _ _ given,
        key,
        secret,
        token,
        rw after (omega (arith, late at known)),
      )
