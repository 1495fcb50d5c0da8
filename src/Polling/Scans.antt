-- ===== src/Polling/Scans.antt =====
-- The scan operations of src/app/services/extraction_service.py over the polling service of
-- src/app/services/batch_polling_service.py.
use salesforce_master_servic.Base.{
  ℕ, zero, suc, ◌+◌, ◌*◌, inl, inr, Bool, true, false, Option, none, some, List, leb, Bool-cases,
  String,
}
use salesforce_master_servic.Json.{Json}
use salesforce_master_servic.Errors.{Exception, Result, ok, err}
use salesforce_master_servic.Session.{Session, IsLawful}
use salesforce_master_servic.Flow.{World}
use salesforce_master_servic.Flow.Keeps.{Keeps, IsSound}
use salesforce_master_servic.Extraction.Consistency.{IsSoundPolling}
use salesforce_master_servic.Extraction.Operations.{ScanOperation, operate_all, operate_all-IsSound}
use salesforce_master_servic.Polling.{
  BatchClient, check_and_update_status, after_check, poll_loop, poll_until_ready, poll_outcome,
  polling_service,
}
use salesforce_master_servic.Polling.Consistency.{
  configure-Kept, submit_batch_jobs-Kept, check-Kept, download_results-Kept,
}

module _ (S : Session) (clock : ℕ → ℕ) (iso : ℕ → String) (L : IsLawful S) (client : BatchClient S)
    (formatted : Json → String) where
  abbrev HasSound : Option (Result (Unit {0}) × World S) → Type 0
  HasSound none = Unit
  HasSound (some r) = IsSound S clock iso L r.1

  after_check-HasSound :
      (r : Result Bool) (w : World S) (again : Option (Result (Unit {0}) × World S))
      → IsSound S clock iso L w
      → HasSound again
      → HasSound (after_check S clock client formatted r w again)
  after_check-HasSound (err exc) w again h k = h
  after_check-HasSound (ok true) w again h k = h
  after_check-HasSound (ok false) w again h k = k

  poll_loop-HasSound :
      (monotonic : ℕ → ℕ) (minutes deadline fuel n : ℕ) (i : String) (w : World S)
      → IsSound S clock iso L w
      → HasSound (poll_loop S clock client formatted monotonic minutes deadline fuel n i w)
  unfolding poll_loop Keeps
  poll_loop-HasSound monotonic minutes deadline zero n i w h = tt
  poll_loop-HasSound monotonic minutes deadline (suc fuel) n i w h =
      let next = (check_and_update_status S clock client formatted i w).1 in
      let after = check-Kept S clock iso L client formatted i w h in
      elim (Bool-cases (leb (monotonic n) deadline)) [
        | inl e ↦ rw e (
            after_check-HasSound _ next _ after
              (poll_loop-HasSound monotonic minutes deadline fuel (n + 1) i next after))
        | inr e ↦ rw e h
      ]

  poll_outcome-IsSound :
      (minutes : ℕ) (o : Option (Result (Unit {0}) × World S)) (w : World S)
      → HasSound o
      → IsSound S clock iso L w
      → IsSound S clock iso L (poll_outcome S clock client formatted minutes o w).1
  poll_outcome-IsSound minutes none w k h = h
  poll_outcome-IsSound minutes (some r) w k h = k

  service-IsSoundPolling :
      (monotonic : ℕ → ℕ) (minutes fuel : ℕ) (supported : List String)
      → IsSoundPolling S clock iso L
          (polling_service S clock client formatted monotonic minutes fuel)
          supported
  unfolding polling_service poll_until_ready Keeps
  service-IsSoundPolling monotonic minutes fuel supported = record {
    configure-Sound = configure-Kept S clock iso L client formatted;
    submit-Sound = submit_batch_jobs-Kept S clock iso L client formatted;
    poll-Sound = λ i w h.
        poll_outcome-IsSound minutes
          (poll_loop S clock client formatted monotonic minutes (monotonic 0 + minutes * 60) fuel 1
            i w)
          w (poll_loop-HasSound monotonic minutes (monotonic 0 + minutes * 60) fuel 1 i w h) h;
    download-Sound = download_results-Kept S clock iso L client formatted;
  }

  -- After any sequence of scan operations, by any requests, some of them failing, with any clients of
  -- Salesforce, every job has a completion time exactly when its status is terminal, provided that
  -- this held before.
  pub scans-IsSound :
      (monotonic : ℕ → ℕ) (minutes fuel : ℕ) (supported : List String) (text : Exception → String)
      (operations : List ScanOperation) (w : World S)
      → IsSound S clock iso L w
      → IsSound S clock iso L (
          operate_all S clock iso L
            (polling_service S clock client formatted monotonic minutes fuel)
            supported
            text
            operations
            w)
  scans-IsSound monotonic minutes fuel supported text operations w h =
      operate_all-IsSound S clock iso L
        (polling_service S clock client formatted monotonic minutes fuel) supported text
        (service-IsSoundPolling monotonic minutes fuel supported) operations w h
