-- ===== src/Extraction/Failures.antt =====
-- How a workflow of src/app/services/extraction_service.py ends when a step raises.
use salesforce_master_servic.Base.{
  ℕ, ◌≡◌, ◌∙◌, ◌⊎◌, inl, inr, true, false, Option, none, some, List, Bool-cases, lookup,
  lookup-erase, String, eq_refl,
}
use salesforce_master_servic.Errors.{Exception, ok, err}
use salesforce_master_servic.Status.{is_terminal}
use salesforce_master_servic.Job.{Job}
use salesforce_master_servic.Session.{Session, IsLawful}
use salesforce_master_servic.JobService.Stops.{fail_job-stops}
use salesforce_master_servic.Flow.{World}
use salesforce_master_servic.Extraction.{
  PollingService, is_handled, workflow_body, workflow_failed, execute_batch_workflow,
}

module _ (S : Session) (clock : ℕ → ℕ) (L : IsLawful S) (polling : PollingService S)
    (supported : List String) (i : String) (objects : Option (List String))
    (text : Exception → String) (w : World S) where
  -- When a step of the workflow raises, the credentials of the scan are dropped. An exception of the
  -- handled classes ends there, and the job, if there is one, is in a terminal status; any other, a
  -- Salesforce error among them, goes on, and leaves the jobs as the step left them.
  pub execute_batch_workflow-ends :
      (exc : Exception)
      → (workflow_body S clock polling supported i objects w).0 ≡ err exc
      → let r = execute_batch_workflow S clock polling supported i objects text w in
        (lookup i r.1.credentials ≡ none)
        × (((is_handled exc ≡ true)
              × (r.0 ≡ ok tt)
              × ((job : Job)
                  → S.get r.1.context.state i ≡ some job
                  → is_terminal job.status ≡ true))
            ⊎ ((is_handled exc ≡ false)
                × (r.0 ≡ err exc)
                × (r.1.context ≡ (workflow_body S clock polling supported i objects w).1.context)))
  unfolding execute_batch_workflow workflow_failed
  execute_batch_workflow-ends exc h = elim (Bool-cases (is_handled exc)) [
    | inl e ↦ (
      lookup-erase i i _ ∙ rw eq_refl,
      inl (e, rw (h, e), λ job row. fail_job-stops S clock L i (text exc) _ job (rw (h, e) at row)),
    )
    | inr e ↦ (lookup-erase i i _ ∙ rw eq_refl, inr (e, rw (h, e), rw (h, e)))
  ]
