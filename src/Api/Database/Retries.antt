-- ===== src/Api/Database/Retries.antt =====
-- The attempts of a query of api/src/database.py.
use teehr_cloud_core.Base.{
  ℕ, zero, suc, ◌+◌, ◌^◌, ◌≤◌, ◌<◌, String, ◌≡◌, refl, ap, ◌∙◌, inl, inr, Bool, true, false, not,
  [], arith, Bool-cases, Result, ok, err, Result-cases,
}
use teehr_cloud_core.Api.Database.{should_retry_error, Run, retried, execute_from, execute_query}

plus_zero : (n : ℕ) → n + 0 ≡ n
plus_zero n = omega arith

plus_suc : (n k : ℕ) → n + suc k ≡ suc n + k
plus_suc n k = omega arith

module _ {Frame : Type 0} (lower : String → String) (attempt : ℕ → Result String Frame) where
  -- An attempt that ends the call: it succeeds, or its error is not transient.
  abbrev pub is_final : ℕ → Bool
  is_final k = elim (attempt k) [
    | ok frame ↦ true
    | err error ↦ not (should_retry_error lower error)
  ]

  -- How a call that starts at a retry count ends.
  pub record Ended (left retry_count : ℕ) (run : Run Frame) : Type 0 where
    pub last : ℕ
    pub counted : run.attempts ≡ suc last
    pub bounded : last ≤ left
    pub result : run.outcome ≡ attempt (retry_count + last)
    pub passed : (k : ℕ) → k < last → is_final (retry_count + k) ≡ false
    pub ended : last < left → is_final (retry_count + last) ≡ true

  at_once :
      (left retry_count : ℕ)
      → is_final retry_count ≡ true
      → Ended (suc left) retry_count (execute_from lower attempt (suc left) retry_count)
  unfolding execute_from
  at_once left retry_count e = record {
    last = 0;
    counted = ap (λ run. run.attempts) stops;
    bounded = omega arith;
    result = rw (plus_zero retry_count) (ap (λ run. run.outcome) stops);
    passed = λ k h. absurd (omega arith);
    ended = λ h. rw (plus_zero retry_count) e;
  }
    where
      stops :
          execute_from lower attempt (suc left) retry_count
          ≡ record { attempts = 1; delays = []; outcome = attempt retry_count }
      stops = elim (Result-cases (attempt retry_count)) [
        | inl (frame, f) ↦ rw (execute_from, f) refl
        | inr (error, f) ↦
            let kept : should_retry_error lower error ≡ false =
              ground (arith, rw (is_final, f) at e) in
            rw (execute_from, f, kept) refl
      ]

  once_more :
      (left retry_count : ℕ)
      → is_final retry_count ≡ false
      → Ended left (suc retry_count) (execute_from lower attempt left (suc retry_count))
      → Ended (suc left) retry_count (execute_from lower attempt (suc left) retry_count)
  unfolding execute_from
  once_more left retry_count e rest = record {
    last = suc rest.last;
    counted = ap (λ run. run.attempts) again ∙ ap suc rest.counted;
    bounded = (let b = rest.bounded in omega arith);
    result = rw (plus_suc retry_count rest.last) (ap (λ run. run.outcome) again ∙ rest.result);
    passed = passed_before;
    ended = λ h. rw (plus_suc retry_count rest.last) (rest.ended (omega arith));
  }
    where
      again :
          execute_from lower attempt (suc left) retry_count
          ≡ retried lower attempt
              (2 ^ retry_count)
              (execute_from lower attempt left (suc retry_count))
      again = elim (Result-cases (attempt retry_count)) [
        | inl (frame, f) ↦ cc (rw (is_final, f) at e)
        | inr (error, f) ↦
            let retry : should_retry_error lower error ≡ true =
              ground (arith, rw (is_final, f) at e) in
            rw (execute_from, f, retry) refl
      ]

      passed_before : (k : ℕ) → k < suc rest.last → is_final (retry_count + k) ≡ false
      passed_before zero h = rw (plus_zero retry_count) e
      passed_before (suc k) h = rw (plus_suc retry_count k) (rest.passed k (omega arith))

  execute_from-Ended :
      (left retry_count : ℕ) → Ended left retry_count (execute_from lower attempt left retry_count)
  unfolding execute_from
  execute_from-Ended zero retry_count = record {
    last = 0;
    counted = refl;
    bounded = omega arith;
    result = rw (plus_zero retry_count) refl;
    passed = λ k h. absurd (omega arith);
    ended = λ h. absurd (omega arith);
  }
  execute_from-Ended (suc left) retry_count = elim (Bool-cases (is_final retry_count)) [
    | inl e ↦ at_once left retry_count e
    | inr e ↦ once_more left retry_count e (execute_from-Ended left (suc retry_count))
  ]

  -- A query makes at most one attempt more than MAX_RETRIES. Its result is that of the last attempt; every
  -- attempt before has failed with a transient error; and if retries are left, then the last attempt
  -- has succeeded or has failed with another error.
  pub execute_query-Ended :
      (max_retries : ℕ) → Ended max_retries 0 (execute_query lower attempt max_retries)
  unfolding execute_query
  execute_query-Ended max_retries = execute_from-Ended max_retries 0
