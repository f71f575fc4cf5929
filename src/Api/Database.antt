-- ===== src/Api/Database.antt =====
-- api/src/database.py: the sanitiser of texts that enter a query, and a query with its retries. Trino
-- is a parameter, given as the outcome of each attempt; lower and upper case are those of ASCII.
pub mod Sanitized
pub mod Retries
mod Tests
use teehr_cloud_core.Base.{
  ℕ, zero, suc, ◌+◌, ◌-◌, ◌*◌, ◌/◌, ◌%◌, ◌^◌, ◌≤◌, ◌<◌, code, String, ◌≡◌, refl, ap, ◌∙◌, ◌≢◌, ◌↔◌,
  ◌⊎◌, inl, inr, Bool, true, false, not, ◌&&◌, ◌||◌, Option, none, some, List, [], ◌∷◌, ◌++◌, arith,
  eq_iff, leb, eqb, if◌then◌else◌, eqb_iff, Bool-cases, any, ◌==◌, ◌<>◌, starts_with, has_char,
  all_chars, Result, ok, err, ◌>>=◌, ◌>>◌, raise_if, Result-cases, >>=-passed, ok-injective,
}
use teehr_cloud_core.Base.Decimal.{decimal}

-- `[a-zA-Z0-9_\-\.]`
abbrev pub is_safe_char : ℕ → Bool
is_safe_char c =
    (leb b'a' c && leb c b'z')
    || (leb b'A' c && leb c b'Z')
    || (leb b'0' c && leb c b'9')
    || eqb c b'_'
    || eqb c b'-'
    || eqb c b'.'

abbrev pub newline : ℕ
newline = 10

-- `[...]*$` from here on: "$" also matches before a last newline
unfoldable pub matches_rest : String → Bool
matches_rest String.[] = true
matches_rest (String.◌∷◌ c s) =
    let rest = matches_rest s in
    if is_safe_char (code c) then rest else eqb (code c) newline && s == ""

-- `re.match(r'^[a-zA-Z0-9_\-\.]+$', value)`
unfoldable pub matches_safe : String → Bool
matches_safe String.[] = false
matches_safe (String.◌∷◌ c s) = is_safe_char (code c) && matches_rest s

pub data ValueError : Type 0 where
  none_value invalid_characters : ValueError

unfoldable pub sanitize_string : Option String → Result ValueError String
sanitize_string none = err none_value
sanitize_string (some value) = do raise_if (not (matches_safe value)) invalid_characters; ok value

-- `pattern in s`
unfoldable pub is_infix : String → String → Bool
is_infix pattern String.[] = pattern == ""
is_infix pattern (String.◌∷◌ c s) =
    let rest = is_infix pattern s in starts_with (String.◌∷◌ c s) pattern || rest

abbrev pub transient_errors : List String
transient_errors =
    "all connection attempts failed" ∷ "failed to establish a new connection" ∷ "connection reset"
    ∷ "connection timeout" ∷ "connection refused" ∷ "max retries exceeded" ∷ "temporary failure"
    ∷ "server busy" ∷ []

-- `lower` is `str.lower`
unfoldable pub should_retry_error : (String → String) → String → Bool
should_retry_error lower error =
    any (λ transient. is_infix transient (lower error)) transient_errors

-- `upper` is `str.upper`; a maximum of 0 counts as none
unfoldable pub limited_query : (String → String) → String → ℕ → String
limited_query upper query max_rows =
    if eqb max_rows 0 || is_infix "LIMIT" (upper query)
    then query
    else query <> " LIMIT " <> decimal max_rows

-- What a call of `execute_query` did: its attempts, the seconds slept before each retry, and its end.
pub record Run (Frame : Type 0) : Type 0 where
  pub attempts : ℕ
  pub delays : List ℕ
  pub outcome : Result String Frame

module _ {Frame : Type 0} (lower : String → String) (attempt : ℕ → Result String Frame) where
  abbrev pub retried : ℕ → Run Frame → Run Frame
  retried delay run = record {
    attempts = suc run.attempts;
    delays = delay ∷ run.delays;
    outcome = run.outcome;
  }

  -- `left` is MAX_RETRIES - retry_count
  unfoldable pub execute_from : ℕ → ℕ → Run Frame
  execute_from zero retry_count = record {
    attempts = 1;
    delays = [];
    outcome = attempt retry_count;
  }
  execute_from (suc left) retry_count =
      let rest = execute_from left (suc retry_count) in
      elim (attempt retry_count) [
        | ok frame ↦ record { attempts = 1; delays = []; outcome = ok frame }
        | err error ↦
            if should_retry_error lower error
            then retried (2 ^ retry_count) rest
            else record { attempts = 1; delays = []; outcome = err error }
      ]

  unfoldable pub execute_query : ℕ → Run Frame
  execute_query max_retries = execute_from max_retries 0
