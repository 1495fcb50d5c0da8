-- ===== src/Retry/Laws.antt =====
-- What `retry_call` of src/app/resilience/retry.py does with any function: when it stops, after how
-- many calls, with which outcome, and how long it sleeps.
use native.Mathlib.Nat.{mul-le-mul_left, le_of_lt}
use salesforce_master_servic.Base.{
  ℕ, zero, suc, ◌+◌, ◌-◌, ◌*◌, ◌/◌, ◌≤◌, ◌<◌, min, ◌≡◌, refl, sym, ap, ◌∙◌, subst, ◌⊎◌, inl, inr,
  true, false, Option, none, some, List, [], ◌∷◌, ◌++◌, arith, leb, nat_eq, string_eq, ◌==◌,
  Bool-cases, length, get_or, length-append,
}
use salesforce_master_servic.Errors.{Exception, Result, is_cancelled, ok, err}
use salesforce_master_servic.Retry.{
  is_retryable, RetryOptions, random_unit, delays_or_zero, actual_delay, Run, retry_loop,
  retry_call, sync_loop, retry_call_sync,
}

-- The loop goes on after this failure, if attempts are left.
abbrev pub GoesOn : Exception → Type 0
GoesOn exc = (is_cancelled exc ≡ false) × (is_retryable exc ≡ true)

module _ {ℓ} {A : Type ℓ} (options : RetryOptions) (random : ℕ → ℕ) (fn : ℕ → Result A) where
  -- The delays behind the first attempts, in order.
  abbrev pub delays_until : ℕ → List ℕ
  delays_until zero = []
  delays_until (suc n) = delays_until n ++ actual_delay options n (random n) ∷ []

  -- The call that ends the run: it returns, or its failure is a cancellation, is not to be retried,
  -- or comes at the last attempt.
  abbrev pub IsFinal : ℕ → Type ℓ
  IsFinal n =
      ((a : A) × (fn n ≡ ok a))
      ⊎ ((exc : Exception) × (fn n ≡ err exc)
          × ((is_cancelled exc ≡ true) ⊎ (is_retryable exc ≡ false) ⊎ (n ≡ options.max_retries)))

  abbrev pub FailsBefore : ℕ → Type ℓ
  FailsBefore n = (i : ℕ) → i < n → (exc : Exception) × (fn i ≡ err exc) × GoesOn exc

  pub record EndsAt (n : ℕ) (r : Run A) : Type ℓ where
    pub bounded : n ≤ options.max_retries
    pub earlier : FailsBefore n
    pub final : IsFinal n
    pub same_outcome : r.outcome ≡ fn n
    pub calls_made : r.calls ≡ n + 1
    pub slept_exactly : r.slept ≡ delays_until n

  Result-cases : (r : Result A) → ((a : A) × (r ≡ ok a)) ⊎ ((exc : Exception) × (r ≡ err exc))
  Result-cases (ok a) = inl (a, refl)
  Result-cases (err exc) = inr (exc, refl)

  FailsBefore-suc :
      (n : ℕ) (exc : Exception) → FailsBefore n → fn n ≡ err exc → GoesOn exc → FailsBefore (n + 1)
  FailsBefore-suc n exc before e goes i h = elim (Bool-cases (i == n)) [
    | inl p ↦
        let q : i ≡ n = ground arith in
        subst (λ (m : ℕ). (x : Exception) × (fn m ≡ err x) × GoesOn x) (sym q) (exc, e, goes)
    | inr p ↦ before i (ground arith)
  ]

  retry_loop-EndsAt :
      (fuel attempt : ℕ) (last : Option Exception)
      → attempt ≤ options.max_retries
      → options.max_retries < attempt + fuel
      → FailsBefore attempt
      → (n : ℕ) × (r : Run A) × (retry_loop options random fn fuel attempt last
            (delays_until attempt)
          ≡ some r)
        × EndsAt n r
  unfolding retry_loop
  retry_loop-EndsAt zero attempt last h enough before = absurd (omega arith)
  retry_loop-EndsAt (suc fuel) attempt last h enough before =
      let go_on : leb attempt options.max_retries ≡ true = ground arith in
      elim (Result-cases (fn attempt)) [
        | inl (a, e) ↦ (
          attempt,
          record { outcome = ok a; calls = attempt + 1; slept = delays_until attempt },
          rw (go_on, e),
          record {
            bounded = h;
            earlier = before;
            final = inl (a, e);
            same_outcome = sym e;
            calls_made = refl;
            slept_exactly = refl;
          },
        )
        | inr (exc, e) ↦
            let failed_here : Run A = record {
              outcome = err exc;
              calls = attempt + 1;
              slept = delays_until attempt;
            } in
            let stop : (is_cancelled exc ≡ true)
                  ⊎ (is_retryable exc ≡ false)
                  ⊎ (attempt ≡ options.max_retries)
                → EndsAt attempt failed_here =
              λ why. record {
                bounded = h;
                earlier = before;
                final = inr (exc, e, why);
                same_outcome = sym e;
                calls_made = refl;
                slept_exactly = refl;
              } in
            elim (Bool-cases (is_cancelled exc)) [
              | inl c ↦ (attempt, failed_here, rw (go_on, e, c), stop (inl c))
              | inr c ↦ elim (Bool-cases (is_retryable exc)) [
                | inr r ↦ (attempt, failed_here, rw (go_on, e, c, r), stop (inr (inl r)))
                | inl r ↦ elim (Bool-cases (leb options.max_retries attempt)) [
                  | inl l ↦ (
                    attempt,
                    failed_here,
                    rw (go_on, e, c, r, l),
                    stop (inr (inr (ground arith))),
                  )
                  | inr l ↦
                      let next : attempt + 1 ≡ suc attempt = omega arith in
                      let (n, run, equation, ends) =
                        retry_loop-EndsAt fuel (attempt + 1) (some exc) (ground arith) (omega arith)
                          (FailsBefore-suc attempt exc before e (c, r)) in
                      (n, run, rw (go_on, e, c, r, l) (rw (ap delays_until next) at equation), ends)
                ]
              ]
            ]
      ]

  -- With any function, options and random numbers, `retry_call` ends, with the outcome of one of the
  -- calls. Every call before that one failed, was no cancellation and was to be retried; that one
  -- returned, or was cancelled, or was not to be retried, or was the last of `max_retries + 1`. It
  -- made no further call, and slept once behind each earlier one, for the delay of that attempt.
  pub retry_call-EndsAt :
      (n : ℕ) × (r : Run A) × (retry_call options random fn ≡ some r) × EndsAt n r
  unfolding retry_call
  retry_call-EndsAt =
      retry_loop-EndsAt (options.max_retries + 2) 0 none (omega arith) (omega arith)
        (λ i h. absurd (omega arith))

  loops_agree :
      (rounds attempt : ℕ) (last : Option Exception) (slept : List ℕ)
      → attempt + rounds ≡ options.max_retries + 1
      → retry_loop options random fn (suc rounds) attempt last slept
        ≡ some (sync_loop options random fn rounds attempt last slept)
  unfolding retry_loop sync_loop
  loops_agree zero attempt last slept h =
      let over : leb attempt options.max_retries ≡ false = ground arith in rw over
  loops_agree (suc rounds) attempt last slept h =
      let go_on : leb attempt options.max_retries ≡ true = ground arith in
      elim (Result-cases (fn attempt)) [
        | inl (a, e) ↦ rw (go_on, e) (rw (e, sync_loop) refl)
        | inr (exc, e) ↦
            rw (go_on, e)
              (rw (e, sync_loop)
                (ground (
                  arith,
                  loops_agree rounds (attempt + 1) (some exc)
                      (slept ++ actual_delay options attempt (random attempt) ∷ []) (omega arith),
                )))
      ]

  -- The synchronous loop makes the same calls, sleeps as long and has the same outcome.
  pub retry_call-eq-sync : retry_call options random fn ≡ some (retry_call_sync options random fn)
  unfolding retry_call retry_call_sync
  retry_call-eq-sync =
      let e : options.max_retries + 2 ≡ suc (options.max_retries + 1) = omega arith in
      rw e (loops_agree (options.max_retries + 1) 0 none [] (omega arith))

-- The delay that the settings give to the sleep behind an attempt: one for each, the last one for all
-- further ones, and 0 where there is none.
abbrev pub scheduled : List ℕ → ℕ → ℕ
scheduled [] i = 0
scheduled (d ∷ []) i = d
scheduled (d ∷ e ∷ ds) zero = d
scheduled (d ∷ e ∷ ds) (suc i) = scheduled (e ∷ ds) i

get_or-scheduled_cons :
    (d : ℕ) (ds : List ℕ) (i : ℕ)
    → get_or (d ∷ ds) (min i (length (d ∷ ds) - 1)) 0 ≡ scheduled (d ∷ ds) i
get_or-scheduled_cons d [] i = let e : min i (length (d ∷ []) - 1) ≡ 0 = omega arith in rw e refl
get_or-scheduled_cons d (e ∷ ds) zero =
    let q : min 0 (length (d ∷ e ∷ ds) - 1) ≡ 0 = omega arith in rw q refl
get_or-scheduled_cons d (e ∷ ds) (suc i) =
    let q : min (suc i) (length (d ∷ e ∷ ds) - 1) ≡ suc (min i (length (e ∷ ds) - 1)) =
      omega arith in
    rw q (get_or-scheduled_cons e ds i)

get_or-scheduled :
    (delays : List ℕ) (i : ℕ)
    → get_or (delays_or_zero delays) (min i (length (delays_or_zero delays) - 1)) 0
      ≡ scheduled delays i
get_or-scheduled [] i = get_or-scheduled_cons 0 [] i
get_or-scheduled (d ∷ ds) i = get_or-scheduled_cons d ds i

-- A sleep behind an attempt: the scheduled delay up to the cap, or with jitter at least half of it
-- and less than one and a half times.
abbrev pub IsSleep : RetryOptions → ℕ → ℕ → Type 0
IsSleep options i d =
    let base = min (scheduled options.delays i) options.max_delay * random_unit in
    ((options.jitter ≡ false) × (d ≡ base))
    ⊎ ((options.jitter ≡ true) × (base ≤ 2 * d) × (2 * d ≤ 3 * base))

abbrev pub AllSleeps : RetryOptions → ℕ → List ℕ → Type 0
AllSleeps options i [] = Unit
AllSleeps options i (d ∷ ds) = IsSleep options i d × AllSleeps options (i + 1) ds

jittered_bounds :
    (base r : ℕ)
    → r < random_unit
    → (base * random_unit ≤ 2 * (base * (random_unit / 2 + r)))
      × (2 * (base * (random_unit / 2 + r)) ≤ 3 * (base * random_unit))
jittered_bounds base r k =
    let scaled : base * r ≤ base * random_unit = mul-le-mul_left base (le_of_lt k) in
    (omega (arith), omega (arith, scaled))

actual_delay-IsSleep :
    (options : RetryOptions) (i r : ℕ)
    → r < random_unit
    → IsSleep options i (actual_delay options i r)
unfolding actual_delay
actual_delay-IsSleep options i r h =
    let base = min (scheduled options.delays i) options.max_delay in
    elim (Bool-cases options.jitter) [
      | inl j ↦
          rw (j, get_or-scheduled options.delays i)
            (let b = jittered_bounds base r h in inr (refl, b.0, b.1))
      | inr j ↦ rw (j, get_or-scheduled options.delays i) (inl (refl, refl))
    ]

AllSleeps-append :
    (options : RetryOptions) (i d : ℕ) (ds : List ℕ)
    → AllSleeps options i ds
    → IsSleep options (i + length ds) d
    → AllSleeps options i (ds ++ d ∷ [])
AllSleeps-append options i d [] h k = (subst (λ (n : ℕ). IsSleep options n d) (omega arith) k, tt)
AllSleeps-append options i d (e ∷ ds) h k = (
  h.0,
  AllSleeps-append options (i + 1) d ds h.1
      (subst (λ (n : ℕ). IsSleep options n d) (omega arith) k),
)

module _ {ℓ} {A : Type ℓ} (options : RetryOptions) (random : ℕ → ℕ) (fn : ℕ → Result A) where
  length-delays_until : (n : ℕ) → length (delays_until options random fn n) ≡ n
  length-delays_until zero = refl
  length-delays_until (suc n) =
      length-append (delays_until options random fn n) (actual_delay options n (random n) ∷ [])
      ∙ omega (arith, length-delays_until n)

  delays_until-AllSleeps :
      ((i : ℕ) → random i < random_unit)
      → (n : ℕ) → AllSleeps options 0 (delays_until options random fn n)
  delays_until-AllSleeps small zero = tt
  delays_until-AllSleeps small (suc n) =
      let same : n ≡ 0 + length (delays_until options random fn n) =
        omega (arith, length-delays_until n) in
      AllSleeps-append options 0 (actual_delay options n (random n))
        (delays_until options random fn n) (delays_until-AllSleeps small n)
        (subst (λ (m : ℕ). IsSleep options m (actual_delay options n (random n))) same
          (actual_delay-IsSleep options n (random n) (small n)))

  -- Where `random()` is less than 1, a run of the retry loop ends, and each of its sleeps is the one
  -- that the settings schedule behind that attempt, cut to the cap: exactly without jitter, and with
  -- it at least half and at most one and a half times that, so that it may exceed the cap.
  pub retry_call-AllSleeps :
      ((i : ℕ) → random i < random_unit)
      → (run : Run A) × (retry_call options random fn ≡ some run) × AllSleeps options 0 run.slept
  retry_call-AllSleeps small =
      let (n, r, e, ends) = retry_call-EndsAt options random fn in
      (
        r,
        e,
        subst (λ (ds : List ℕ). AllSleeps options 0 ds) (sym ends.slept_exactly)
            (delays_until-AllSleeps small n),
      )
