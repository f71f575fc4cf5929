-- ===== src/Xpublish/Startup/Started.antt =====
-- What holds of an xpublish-api that has started.
use teehr_cloud_core.Base.{
  String, ◌≡◌, ◌≢◌, refl, ap, ◌∙◌, ◌⊎◌, inl, inr, Bool, true, false, Option, some, or_default, ◌==◌,
  contains, Bool-cases, eq_iff, Result, ok, err, >>=-elim, ok-injective, or_raise, or_raise-some,
  eqb, map, strip, rstrip_where,
}
use mathlib.Core.Option.{some-injective}
use teehr_cloud_core.Base.Split.{split_on}
use teehr_cloud_core.Xpublish.Rules.{Json, parse_access_rules}
use teehr_cloud_core.Xpublish.Storage.{resolve_icechunk_location, build_storage_kwargs}
use teehr_cloud_core.Xpublish.Routes.{required_role, cors_settings, resolve_pmtiles_location}
use teehr_cloud_core.Xpublish.Startup.{
  Environment, StartupError, bad_rules, role_required, pmtiles_bucket_required, bad_location, App,
  as_startup, is_sts_unavailable, number, discovery_ttl, build_app,
}

as_startup-ok {ℓ} :
    {E : Type 0} {A : Type ℓ} (wrap : E → StartupError) (r : Result E A) (a : A)
    → as_startup wrap r ≡ ok a
    → r ≡ ok a
as_startup-ok wrap (ok b) a e = ap ok (ok-injective _ _ e)
as_startup-ok wrap (err f) a e = cc

differs : (text kept : String) → text ≡ kept → (text == "") ≡ false → kept ≢ ""
differs text kept same given nothing = cc (rw given at ((eq_iff text "").1 (same ∙ nothing)))

required_role-some :
    (sts_unavailable : Bool) (role_arn kept : String)
    → required_role sts_unavailable role_arn ≡ some kept
    → (sts_unavailable ≡ true) ⊎ (kept ≢ "")
unfolding required_role
required_role-some true role_arn kept e = inl refl
required_role-some false role_arn kept e = elim (Bool-cases (role_arn == "")) [
  | inl empty ↦ cc (rw (required_role, empty) at e)
  | inr given ↦
      let same : role_arn ≡ kept = some-injective _ _ (rw (required_role, given) at e) in
      inr (differs role_arn kept same given)
]

cors_settings-credentials :
    (variable : Option String)
    → ((cors_settings variable).1 ≡ false) ⊎ (contains "*" (cors_settings variable).0 ≡ false)
unfolding cors_settings split_on
cors_settings-credentials variable =
    elim (Bool-cases (contains "*" (map strip (split_on b',' (or_default variable "*"))))) [
      | inl all ↦ inl (rw (cors_settings, all) refl)
      | inr listed ↦ inr (rw (cors_settings, listed) listed)
    ]

resolve_icechunk_location-ok :
    (bucket_var prefix_var : Option String) (location : String × String)
    → resolve_icechunk_location bucket_var prefix_var ≡ ok location
    → (location.0 ≢ "") × (location.1 ≢ "")
unfolding resolve_icechunk_location
resolve_icechunk_location-ok bucket_var prefix_var location e =
    let bucket = strip (or_default bucket_var "") in
    let prefix = rstrip_where (λ c. eqb c b'/') (strip (or_default prefix_var "")) in
    elim (Bool-cases (bucket == "")) [
      | inl no_bucket ↦ cc (rw (resolve_icechunk_location, no_bucket) at e)
      | inr a_bucket ↦ elim (Bool-cases (prefix == "")) [
        | inl no_prefix ↦ cc (rw (resolve_icechunk_location, a_bucket, no_prefix) at e)
        | inr a_prefix ↦
            let same = ok-injective _ _ (rw (resolve_icechunk_location, a_bucket, a_prefix) at e) in
            (
              differs bucket location.0 (ap (λ l. l.0) same) a_bucket,
              differs prefix location.1 (ap (λ l. l.1) same) a_prefix,
            )
      ]
    ]

module _ {Seconds : Type 0} (float : String → Option Seconds) (lower : String → String)
    (loads : String → Option Json) where
  -- If the app starts, then its rules are those that TEEHR_ACCESS_RULES is parsed to, so that invalid rules
  -- end the start; its storage has a bucket and a prefix; it has a role to assume, unless the environment
  -- says that there is no STS; and it lets browsers send credentials only from listed origins, never from
  -- all of them.
  pub build_app-started :
      (env : Environment) (app : App Seconds)
      → build_app float lower loads env ≡ ok app
      → (parse_access_rules loads (or_default env.teehr_access_rules "{}") ≡ ok app.access_rules)
        × (app.bucket ≢ "")
        × (app.prefix ≢ "")
        × ((is_sts_unavailable lower env.icechunk_sts_unavailable ≡ true)
            ⊎ (app.access_role_arn ≢ ""))
        × ((app.allow_credentials ≡ false) ⊎ (contains "*" app.cors_origins ≡ false))
  unfolding build_app
  build_app-started env app e =
      >>=-elim (number float lower loads (or_default env.dataset_cache_ttl "60")) _ e
        (λ cache_ttl a e1.
          >>=-elim (discovery_ttl float lower loads env.repo_discovery_ttl cache_ttl) _ e1
            (λ discovered b e2.
              >>=-elim
                (as_startup bad_rules
                  (parse_access_rules loads (or_default env.teehr_access_rules "{}")))
                _ e2
                (λ rules parsed e3.
                  >>=-elim
                    (or_raise
                      (required_role (is_sts_unavailable lower env.icechunk_sts_unavailable)
                        (or_default env.icechunk_access_role_arn ""))
                      role_required)
                    _ e3
                    (λ role_arn role e4.
                      >>=-elim
                        (as_startup bad_location
                          (resolve_icechunk_location env.icechunk_bucket env.icechunk_prefix))
                        _ e4
                        (λ location located e5.
                          >>=-elim
                            (or_raise
                              (resolve_pmtiles_location env.pmtiles_bucket env.pmtiles_prefix)
                              pmtiles_bucket_required)
                            _ e5
                            (λ pmtiles c e6.
                              >>=-elim (as_startup bad_location (build_storage_kwargs env.storage))
                                _ e6
                                (λ kwargs d e7.
                                  let same = ok-injective _ _ e7 in
                                  let needed =
                                    required_role-some _ _ role_arn
                                      (or_raise-some _ _ role_arn role) in
                                  let (bucket, prefix) =
                                    resolve_icechunk_location-ok _ _ location
                                      (as_startup-ok _ _ location located) in
                                  let cors = cors_settings-credentials env.cors_origins in
                                  (
                                    as_startup-ok _ _ rules parsed
                                        ∙ ap (λ app. ok app.access_rules) same,
                                    rw (← ap (λ app. app.bucket) same) bucket,
                                    rw (← ap (λ app. app.prefix) same) prefix,
                                    rw (← ap (λ app. app.access_role_arn) same) needed,
                                    rw
                                        (
                                          ← ap (λ app. app.allow_credentials) same,
                                          ← ap (λ app. app.cors_origins) same,
                                        )
                                        cors,
                                  ))))))))
