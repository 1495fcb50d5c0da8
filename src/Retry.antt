-- ===== src/Retry.antt =====
-- The retry loops of src/app/resilience/retry.py. The function that is retried is given by the
-- outcome of each of its calls, `random` by its results. A delay is a whole number; what is slept is
-- counted in parts of 1 / 2 ^ 53 of it, the resolution of `random.random()`.
pub mod Laws
use salesforce_master_servic.Base.{
  ℕ, zero, suc, ◌+◌, ◌-◌, ◌*◌, ◌/◌, min, Bool, false, not, ◌||◌, Option, none, some, List, [], ◌∷◌,
  ◌++◌, if◌then◌else◌, leb, nat_eq, string_eq, ◌∈?◌, length, get_or,
}
use salesforce_master_servic.Errors.{
  Exception, Result, is_os_error, is_transport_error, is_cancelled, runtime_error, salesforce,
  raised, ok, err,
}

abbrev pub retryable_status_codes : List ℕ
retryable_status_codes = 408 ∷ 429 ∷ 500 ∷ 502 ∷ 503 ∷ 504 ∷ []

unfoldable pub is_retryable : Exception → Bool
is_retryable (salesforce e) = elim e.retryable [
  | some hint ↦ hint
  | none ↦ elim e.status_code [ none ↦ false | some code ↦ code ∈? retryable_status_codes ]
]
is_retryable (raised kind _) = is_transport_error kind || is_os_error kind

-- The settings of a call, as given or by default.
pub record RetryOptions : Type 0 where
  pub max_retries : ℕ
  pub delays : List ℕ
  pub jitter : Bool
  pub max_delay : ℕ

abbrev pub random_unit : ℕ
random_unit = 9007199254740992

-- `delays or [0]`
abbrev pub delays_or_zero : List ℕ → List ℕ
delays_or_zero [] = 0 ∷ []
delays_or_zero (d ∷ ds) = d ∷ ds

-- What is slept before the next attempt, `random()` giving `r` parts of `random_unit`.
unfoldable pub actual_delay : RetryOptions → ℕ → ℕ → ℕ
actual_delay options attempt r =
    let delays = delays_or_zero options.delays in
    let base_delay = min (get_or delays (min attempt (length delays - 1)) 0) options.max_delay in
    if options.jitter then base_delay * (random_unit / 2 + r) else base_delay * random_unit

-- A finished run: the outcome, the number of calls made, and what was slept between them.
pub record Run {ℓ} (A : Type ℓ) : Type ℓ where
  pub outcome : Result A
  pub calls : ℕ
  pub slept : List ℕ

module _ {ℓ} {A : Type ℓ} (options : RetryOptions) (random : ℕ → ℕ) (fn : ℕ → Result A) where
  -- `raise last_exc`, behind the loop.
  abbrev exhausted : Option Exception → ℕ → List ℕ → Run A
  exhausted none calls slept = record {
    outcome = err (raised runtime_error "retry_call exhausted without exception");
    calls = calls;
    slept = slept;
  }
  exhausted (some exc) calls slept = record { outcome = err exc; calls = calls; slept = slept }

  -- `while attempt <= max_retries`, with fuel; `none` is a loop that is still running.
  unfoldable pub retry_loop : ℕ → ℕ → Option Exception → List ℕ → Option (Run A)
  retry_loop zero attempt last_exc slept = none
  retry_loop (suc fuel) attempt last_exc slept =
      if not (leb attempt options.max_retries)
      then some (exhausted last_exc attempt slept)
      else elim (fn attempt) [
        | ok a ↦ some (record { outcome = ok a; calls = attempt + 1; slept = slept })
        | err exc ↦
            let stop = some (record { outcome = err exc; calls = attempt + 1; slept = slept }) in
            let again =
              retry_loop fuel (attempt + 1) (some exc)
                (slept ++ actual_delay options attempt (random attempt) ∷ []) in
            if is_cancelled exc
            then stop
            else if not (is_retryable exc)
            then stop
            else if leb options.max_retries attempt
            then stop
            else again
      ]

  -- Each round of the loop takes one attempt, so this fuel is enough.
  unfoldable pub retry_call : Option (Run A)
  retry_call = retry_loop (options.max_retries + 2) 0 none []

  -- `for attempt in range(retries + 1)`, with the rounds that are left.
  unfoldable pub sync_loop : ℕ → ℕ → Option Exception → List ℕ → Run A
  sync_loop zero attempt last_exc slept = exhausted last_exc attempt slept
  sync_loop (suc rounds) attempt last_exc slept = elim (fn attempt) [
    | ok a ↦ record { outcome = ok a; calls = attempt + 1; slept = slept }
    | err exc ↦
        let stop : Run A = record { outcome = err exc; calls = attempt + 1; slept = slept } in
        let again =
          sync_loop rounds (attempt + 1) (some exc)
            (slept ++ actual_delay options attempt (random attempt) ∷ []) in
        if is_cancelled exc
        then stop
        else if not (is_retryable exc) || leb options.max_retries attempt
        then stop
        else again
  ]

  unfoldable pub retry_call_sync : Run A
  retry_call_sync = sync_loop (options.max_retries + 1) 0 none []
