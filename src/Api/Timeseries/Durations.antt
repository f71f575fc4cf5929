-- ===== src/Api/Timeseries/Durations.antt =====
-- The durations that api/src/routes/timeseries.py accepts.
use teehr_cloud_core.Base.{
  ℕ, ◌<◌, String, ◌≡◌, inl, inr, arith, eqb, Bool-cases, Option-cases, ok, ok-injective,
}
use teehr_cloud_core.Api.Timeseries.{match_duration, parse_iso_duration_to_seconds}

-- A duration that is accepted is positive.
pub parse_iso_duration_to_seconds-positive :
    (s : String) (n : ℕ) → parse_iso_duration_to_seconds s ≡ ok n → 0 < n
unfolding parse_iso_duration_to_seconds
parse_iso_duration_to_seconds-positive s n e = elim (Option-cases (match_duration s)) [
  | inl f ↦ cc (rw (parse_iso_duration_to_seconds, f) at e)
  | inr (total, f) ↦ elim (Bool-cases (eqb total 0)) [
    | inl g ↦ cc (rw (parse_iso_duration_to_seconds, f, g) at e)
    | inr g ↦
        let same : total ≡ n = ok-injective _ _ (rw (parse_iso_duration_to_seconds, f, g) at e) in
        ground (arith, same, g)
  ]
]
