-- ===== src/Routes/Services.antt =====
-- What the new services of each request of src/app/api/routes/scan.py do not know, and what a
-- request that is not accepted changes.
use salesforce_master_servic.Status.{JobStatus}
use salesforce_master_servic.Routes.{
  resume_error, http_exception, new_services, cancel_route, resume_route,
}
use salesforce_master_servic.Base.{
  ℕ, ◌≡◌, refl, Option, none, some, List, [], ◌∷◌, or_default, lookup, update, String,
}
use salesforce_master_servic.Errors.{runtime_error, raised, ok, err}
use salesforce_master_servic.Job.{BatchItem, Job}
use salesforce_master_servic.Session.{Session}
use salesforce_master_servic.JobService.{get_job, cancel_job}
use salesforce_master_servic.Flow.{World, Act, ◌>>=◌, call}
use salesforce_master_servic.Extraction.{
  PollingService, no_scan, resume_option, resume_scan, abort_all, after_cancel, cancel_option,
  cancel_scan,
}

module _ (S : Session) (clock : ℕ → ℕ) (iso : ℕ → String) (supported : List String) where
  -- New services abort nothing.
  abort_all-nothing :
      (polling : PollingService S) (items : List BatchItem) (w : World S)
      → abort_all S clock polling supported items (new_services S w) ≡ (ok tt, new_services S w)
  unfolding abort_all
  abort_all-nothing polling [] w = refl
  abort_all-nothing polling (item ∷ items) w = abort_all-nothing polling items w

  -- The cancellation by new services, without the aborts.
  abbrev cancel_alone : PollingService S → String → Option Job → Act S (Option JobStatus)
  cancel_alone polling scan_id none = no_scan S clock polling supported scan_id
  cancel_alone polling scan_id (some job) =
      call (cancel_job S clock scan_id none none) >>= λ updated.
      after_cancel S clock polling supported scan_id job.organization_id updated

  cancel_option-alone :
      (polling : PollingService S) (scan_id : String) (found : Option Job) (w : World S)
      → cancel_option S clock polling supported scan_id none found (new_services S w)
        ≡ cancel_alone polling scan_id found (new_services S w)
  cancel_option-alone polling scan_id none w = refl
  cancel_option-alone polling scan_id (some job) w =
      rw (abort_all-nothing polling (or_default job.batch_job_ids []) w) refl

  resume_without :
      (polling : PollingService S) (scan_id : String) (job : Job) (w : World S)
      → resume_option S clock polling supported scan_id none (some job) (new_services S w) ≡ (
        err (
            raised runtime_error
              "Salesforce credentials must be supplied when resuming after a restart"),
        new_services S w,
      )
  unfolding lookup
  resume_without polling scan_id job w = refl

  -- Each request makes services of its own. So the cancellation of a known scan by HTTP aborts no
  -- remote job: it does the same whatever the polling service would do. And its resume by HTTP without
  -- credentials in that very request is answered by 409, and nothing changes.
  pub cancel_resume_lem :
      (polling other : PollingService S) (scan_id : String) (w : World S) (job : Job)
      → get_job S clock scan_id w.context ≡ some job
      → (cancel_route S clock iso polling supported scan_id w
          ≡ cancel_route S clock iso other supported scan_id w)
        × (resume_route S clock iso polling supported scan_id none w ≡ (
          http_exception 409
              "Salesforce credentials must be supplied when resuming after a restart",
          w,
        ))
  unfolding cancel_route resume_route cancel_scan resume_scan resume_error update
  cancel_resume_lem polling other scan_id w job row = (
    rw
        (
          row,
          cancel_option-alone polling scan_id (some job) w,
          cancel_option-alone other scan_id (some job) w,
        )
        refl,
    rw (row, resume_without polling scan_id job w) refl,
  )
