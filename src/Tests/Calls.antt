-- ===== src/Tests/Calls.antt =====
-- Failures and retries, at concrete inputs.
use salesforce_master_servic.Base.{ℕ, zero, suc, ◌*◌, ◌≡◌, true, ◌&&◌, some, [], ◌∷◌, arith}
use salesforce_master_servic.Json.{null}
use salesforce_master_servic.Errors.{
  Result, classify_http_error, retryable_attribute, httpx_timeout, salesforce, raised, ok, err,
}
use salesforce_master_servic.Errors.Laws.{classify_http_error_lem}
use salesforce_master_servic.Retry.{is_retryable, RetryOptions, Run, retry_call, retry_call_sync}
use salesforce_master_servic.Retry.Laws.{
  AllSleeps, EndsAt, retry_call-EndsAt, retry_call-eq-sync, retry_call-AllSleeps,
}

abbrev options : RetryOptions
options = record { max_retries = 2; delays = 1 ∷ 2 ∷ []; jitter = true; max_delay = 30 }

-- The first call times out, the second answers.
abbrev flaky : ℕ → Result ℕ
flaky zero = err (raised httpx_timeout "read")
flaky (suc n) = ok n

retry_call-EndsAt_example :
    (n : ℕ) × (r : Run ℕ) × (retry_call options (λ n. n) flaky ≡ some r)
    × EndsAt options (λ n. n) flaky n r
retry_call-EndsAt_example = retry_call-EndsAt options (λ n. n) flaky

retry_call-eq-sync_example :
    retry_call options (λ n. n) flaky ≡ some (retry_call_sync options (λ n. n) flaky)
retry_call-eq-sync_example = retry_call-eq-sync options (λ n. n) flaky

retry_call-AllSleeps_example :
    (run : Run ℕ) × (retry_call options (λ n. n * 0) flaky ≡ some run)
    × AllSleeps options 0 run.slept
retry_call-AllSleeps_example = retry_call-AllSleeps options (λ n. n * 0) flaky (λ i. omega arith)

classify_http_error_lem_example :
    let e = salesforce (classify_http_error 501 null "no") in
    (is_retryable e ≡ true)
    × (is_retryable e ≡ true)
    × (retryable_attribute e ≡ is_retryable e && true)
classify_http_error_lem_example = classify_http_error_lem 501 null "no"
