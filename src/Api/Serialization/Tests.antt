-- ===== src/Api/Serialization/Tests.antt =====
-- A frame with a time, a missing time and an infinite value.
use teehr_cloud_core.Base.{ℕ, ◌≡◌, refl, true, Option, none, some, [], ◌∷◌, eqb, if◌then◌else◌}
use teehr_cloud_core.Api.Serialization.{format_columns, prepare_for_serialization}

-- 0 is null, 1 is NaN, 2 is infinity, and from 100 on are times.
abbrev to_datetime : ℕ → Option ℕ
to_datetime cell = if eqb cell 1 then none else some cell

prepared :
    prepare_for_serialization 0 to_datetime
      (λ t. t)
      (λ c. eqb c 1)
      (λ c. eqb c 2)
      none
      true
      true
      (("created_at", 100 ∷ 1 ∷ []) ∷ ("value", 7 ∷ 2 ∷ []) ∷ [])
    ≡ ("created_at", 100 ∷ 0 ∷ []) ∷ ("value", 7 ∷ 0 ∷ []) ∷ []
unfolding prepare_for_serialization format_columns
prepared = refl
