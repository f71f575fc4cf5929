-- ===== src/Api/Records/Tests.antt =====
-- A client of a collection of two rows, one to a page.
use teehr_cloud_core.Base.{
  ℕ, zero, suc, String, ◌≡◌, refl, ◌||◌, Option, none, some, List, [], ◌∷◌, arith, if◌then◌else◌,
  ◌==◌, Result, ok,
}
use teehr_cloud_core.Base.Decimal.{decimal, digits, digit}
use teehr_cloud_core.Api.Identity.{
  default_limits, effective_limit_for_request, apply_role_record_limit, record_limit_for_identity,
}
use teehr_cloud_core.Api.Sql.{Raised, where_clause, pagination}
use teehr_cloud_core.Api.Records.{select_records}
use teehr_cloud_core.Api.Links.{Query}
use teehr_cloud_core.Api.Records.Filters.{given_values}
use teehr_cloud_core.Api.Records.Paging.{follow, AnswersPagesOf, follow-all}

abbrev query : Option ℕ → String
query offset =
    select_records default_limits "iceberg" "teehr" "configuration_pairs" [] "a, b" offset (some 1)

-- The rows 7 and 8.
abbrev execute : String → Result Raised (List ℕ)
execute sql =
    if sql == query none || sql == query (some 0)
    then ok (7 ∷ [])
    else if sql == query (some 1)
    then ok (8 ∷ [])
    else ok []

answers :
    AnswersPagesOf default_limits "iceberg" "teehr" execute
      (λ row. row)
      (λ e. "failed")
      "configuration_pairs"
      "a, b"
      []
      (7 ∷ 8 ∷ [])
      1
unfolding where_clause pagination decimal digits digit
answers none h = refl
answers (some zero) h = refl
answers (some (suc zero)) h = refl
answers (some (suc (suc zero))) h = refl
answers (some (suc (suc (suc o)))) h = absurd (omega arith)

follow-all_example :
    follow default_limits "iceberg" "teehr" execute
      (λ row. row)
      (λ e. "failed")
      "configuration_pairs"
      "a, b"
      []
      3
      (record { identity = none; limit = some 1; offset = none; query = [] })
    ≡ ok (7 ∷ 8 ∷ [])
unfolding effective_limit_for_request apply_role_record_limit record_limit_for_identity
follow-all_example =
    follow-all default_limits "iceberg" "teehr" execute (λ row. row) (λ e. "failed")
      "configuration_pairs" "a, b" [] (7 ∷ 8 ∷ []) 1 none (some 1) [] refl (omega arith) answers

-- A full page of two rows at the locations "a" and "b".
abbrev two_locations : Query
two_locations = ("location_id", "a") ∷ ("location_id", "b") ∷ ("limit", "2") ∷ []

both_locations : given_values "location_id" two_locations ≡ "a" ∷ "b" ∷ []
unfolding given_values
both_locations = refl
