-- ===== src/Polling/Loop.antt =====
-- The loop of `poll_until_ready` of src/app/services/batch_polling_service.py.
use salesforce_master_servic.Base.{
  ℕ, zero, suc, ◌+◌, ◌*◌, ◌<◌, ◌≡◌, refl, inl, inr, Bool, true, false, Option, arith, leb,
  Bool-cases, is_some, String,
}
use salesforce_master_servic.Json.{Json}
use salesforce_master_servic.Errors.{Result, ok, err}
use salesforce_master_servic.Session.{Session}
use salesforce_master_servic.Flow.{World}
use salesforce_master_servic.Polling.{
  BatchClient, check_and_update_status, after_check, poll_loop, poll_until_ready,
}

module _ (S : Session) (clock : ℕ → ℕ) (client : BatchClient S) (formatted : Json → String)
    (monotonic : ℕ → ℕ) (minutes : ℕ) (i : String) where
  after_check-ends :
      (r : Result Bool) (w : World S) (again : Option (Result (Unit {0}) × World S))
      → is_some again ≡ true
      → is_some (after_check S clock client formatted r w again) ≡ true
  after_check-ends (err exc) w again h = refl
  after_check-ends (ok true) w again h = refl
  after_check-ends (ok false) w again h = h

  poll_loop-ends :
      (deadline k fuel n : ℕ) (w : World S)
      → deadline < monotonic (n + k)
      → k < fuel
      → is_some (poll_loop S clock client formatted monotonic minutes deadline fuel n i w) ≡ true
  unfolding poll_loop
  poll_loop-ends deadline k zero n w late enough = absurd (omega (arith, enough))
  poll_loop-ends deadline zero (suc fuel) n w late enough =
      let here : n + 0 ≡ n = omega arith in
      let late' : deadline < monotonic n = rw here at late in
      let over : leb (monotonic n) deadline ≡ false = ground (arith, late') in rw over
  poll_loop-ends deadline (suc k) (suc fuel) n w late enough =
      elim (Bool-cases (leb (monotonic n) deadline)) [
        | inr e ↦ rw e
        | inl e ↦
            let same : n + suc k ≡ n + 1 + k = omega arith in
            rw e (
              after_check-ends _ _ _ (
                poll_loop-ends deadline k fuel (n + 1)
                  (check_and_update_status S clock client formatted i w).1 (rw same at late)
                  (omega (arith, enough))))
      ]

  -- The polling loop ends, whatever the client answers, when the clock passes the deadline by some
  -- reading: fuel for one more round than the readings before that one is enough.
  pub poll_until_ready-ends :
      (k fuel : ℕ) (w : World S)
      → monotonic 0 + minutes * 60 < monotonic (1 + k)
      → k < fuel
      → is_some (poll_until_ready S clock client formatted monotonic minutes fuel i w) ≡ true
  unfolding poll_until_ready
  poll_until_ready-ends k fuel w late enough =
      poll_loop-ends (monotonic 0 + minutes * 60) k fuel 1 w late enough
