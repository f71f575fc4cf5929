-- ===== src/Api/Timeseries/Errors.antt =====
-- How the requests of api/src/routes/timeseries.py fail.
use teehr_cloud_core.Base.{
  String, ◌≡◌, refl, ap, ◌∙◌, ◌≢◌, ◌⊎◌, inl, inr, false, Option, none, some, List, [], ◌∷◌, eq_iff,
  Bool-cases, ◌==◌, ◌<>◌, Result, ok, err, ◌>>=◌, HttpError, http,
}
use teehr_cloud_core.Api.Identity.{Limits}
use teehr_cloud_core.Api.Sql.{Raised, http_exception, sanitize_all, given}
use teehr_cloud_core.Api.Timeseries.{
  DurationError, parse_iso_duration_to_seconds, duration_conditions, duration_message,
  names_conditions, interval_conditions, secondary_locations,
}
use teehr_cloud_core.Api.Timeseries.Handlers.{
  SeriesRequest, SeriesResponse, common_conditions, primary_conditions, secondary_conditions,
  get_primary_timeseries_items, get_secondary_timeseries_items, or_failed,
}

abbrev pub FailsWith500 : {Row : Type 0} → Result HttpError (SeriesResponse Row) → Type 0
FailsWith500 answer = (e : HttpError) × (answer ≡ err e) × (e.status ≡ 500)

-- A block whose later step raises does not end well.
bind_raises :
    {A B : Type 0} (step : Result Raised A) (rest : A → Result Raised B)
    → ((a : A) → (e : Raised) × (rest a ≡ err e))
    → (e : Raised) × ((step >>= rest) ≡ err e)
bind_raises (ok a) rest h = h a
bind_raises (err e) rest h = (e, refl)

step_raises :
    {A B : Type 0} (step : Result Raised A) (rest : A → Result Raised B)
    → (e : Raised) × (step ≡ err e)
    → (e : Raised) × ((step >>= rest) ≡ err e)
step_raises step rest (e, f) = (e, rw f refl)

not_empty : (s : String) → s ≢ "" → (s == "") ≡ false
not_empty s nonempty = elim (Bool-cases (s == "")) [
  | inl e ↦ absurd (nonempty ((eq_iff s "").0 e))
  | inr e ↦ e
]

duration_conditions-raises :
    (column s : String) (fault : DurationError)
    → s ≢ ""
    → parse_iso_duration_to_seconds s ≡ err fault
    → duration_conditions column (some s)
      ≡ err (http_exception (http 400 (duration_message s fault)))
unfolding duration_conditions
duration_conditions-raises column s fault nonempty e =
    rw (duration_conditions, not_empty s nonempty, e) refl

module _ (catalog schema : String) (limits : Limits) (parse_date : String → Option String)
    {Row : Type 0} (execute : String → Result Raised (List Row)) (prepare : Row → Row)
    (str_of : Raised → String) where
  -- A duration that is not accepted.
  abbrev pub HasBadDuration : SeriesRequest → Type 0
  HasBadDuration request =
      (s : String) × (request.timestep_duration ≡ some s)
      × (s ≢ "")
      × ((e : DurationError) × (parse_iso_duration_to_seconds s ≡ err e))

  common_conditions-raises :
      (request : SeriesRequest) (column : String) (alias : Option String)
      → HasBadDuration request
      → (e : Raised) × (common_conditions catalog schema limits parse_date execute prepare str_of
            request column alias
          ≡ err e)
  unfolding common_conditions
  common_conditions-raises request column alias (s, given_s, nonempty, (fault, e)) =
      bind_raises (names_conditions "variable_name" request.variable_name alias) _ (λ v.
        bind_raises (names_conditions "configuration_name" request.configuration_name alias) _
          (λ c. step_raises (duration_conditions column request.timestep_duration) _ raises))
    where
      raises : (e : Raised) × (duration_conditions column request.timestep_duration ≡ err e)
      raises = (
        http_exception (http 400 (duration_message s fault)),
        ap (duration_conditions column) given_s
            ∙ duration_conditions-raises column s fault nonempty e,
      )

  failed_is_500 :
      (detail : String) (answer : Result Raised (SeriesResponse Row))
      → (e : Raised) × (answer ≡ err e)
      → FailsWith500
          (or_failed catalog schema limits parse_date execute prepare str_of detail answer)
  failed_is_500 detail answer (e, f) = (http 500 (detail <> (": " <> str_of e)), rw f refl, refl)

  -- A request for either timeseries whose duration is given and not accepted is answered with
  -- status 500, whatever its other parameters are.
  pub bad_duration_fails_with_500 :
      (primary : List String) (primaries secondaries : Option (List String))
      (reference_time : Option String) (request : SeriesRequest)
      → HasBadDuration request
      → FailsWith500 (
          get_primary_timeseries_items catalog schema limits parse_date execute prepare str_of
            primary request)
        × FailsWith500 (
            get_secondary_timeseries_items catalog schema limits parse_date execute prepare str_of
              primaries secondaries reference_time request)
  unfolding get_primary_timeseries_items get_secondary_timeseries_items primary_conditions
      secondary_conditions
  bad_duration_fails_with_500 primary primaries secondaries reference_time request bad = (
    failed_is_500 _ _ (
        step_raises
          (primary_conditions catalog schema limits parse_date execute prepare str_of primary
            request)
          _
          (bind_raises (sanitize_all primary) _ (λ locations.
            bind_raises (interval_conditions parse_date "value_time" request.datetime_range) _
              (λ times.
                step_raises _ _ (common_conditions-raises request "value_time" none bad))))),
    failed_is_500 _ _ (
        step_raises
          (secondary_conditions catalog schema limits parse_date execute prepare str_of primaries
            secondaries reference_time request)
          _
          (bind_raises (secondary_locations primaries secondaries) _ (λ location.
            bind_raises (interval_conditions parse_date "st.value_time" request.datetime_range) _
              (λ times.
                bind_raises (interval_conditions parse_date "st.reference_time" reference_time) _
                  (λ references.
                    step_raises _ _
                      (common_conditions-raises request "st.value_time" (some "st") bad)))))),
  )

-- The locations of a request for the secondary timeseries are accepted only if exactly one of the two
-- lists is given.
pub secondary_locations-exclusive :
    (primary secondary : Option (List String)) (condition : String)
    → secondary_locations primary secondary ≡ ok condition
    → ((given primary ≢ []) × (given secondary ≡ []))
      ⊎ ((given primary ≡ []) × (given secondary ≢ []))
unfolding secondary_locations
secondary_locations-exclusive primary secondary condition e =
    split (given primary) (given secondary) refl refl
  where
    split :
        (ps ss : List String)
        → given primary ≡ ps
        → given secondary ≡ ss
        → ((given primary ≢ []) × (given secondary ≡ []))
          ⊎ ((given primary ≡ []) × (given secondary ≢ []))
    split [] [] f g = cc (rw (secondary_locations, f, g) at e)
    split [] (s ∷ ss) f g = inr (f, λ h. cc)
    split (p ∷ ps) [] f g = inl (λ h. cc, g)
    split (p ∷ ps) (s ∷ ss) f g = cc (rw (secondary_locations, f, g) at e)
