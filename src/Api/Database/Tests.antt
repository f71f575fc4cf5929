-- ===== src/Api/Database/Tests.antt =====
-- The sanitiser and the retries of api/src/database.py on small inputs.
use teehr_cloud_core.Base.{
  ℕ, zero, suc, String, ◌≡◌, refl, false, Option, some, has_char, Result, ok, err,
}
use teehr_cloud_core.Api.Database.{matches_rest, matches_safe, sanitize_string, execute_query}
use teehr_cloud_core.Api.Database.Sanitized.{sanitize_string-has_char}
use teehr_cloud_core.Api.Database.Retries.{Ended, execute_query-Ended}

sanitize_string-has_char_example :
    (◌≡◌ {A = Option String} (some "usgs-01") (some "usgs-01")) × (has_char b'/' "usgs-01" ≡ false)
unfolding sanitize_string matches_safe matches_rest
sanitize_string-has_char_example =
    sanitize_string-has_char (some "usgs-01") "usgs-01" b'/' refl (refl, refl)

-- The first attempt fails for a time, the second succeeds.
abbrev attempt : ℕ → Result String ℕ
attempt zero = err "connection reset by peer"
attempt (suc k) = ok 7

execute_query-Ended_example : Ended (λ s. s) attempt 3 0 (execute_query (λ s. s) attempt 3)
execute_query-Ended_example = execute_query-Ended (λ s. s) attempt 3
