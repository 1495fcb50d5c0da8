-- ===== src/Extraction/Consistency.antt =====
-- Steps of src/app/services/extraction_service.py, with any polling service that keeps the jobs
-- consistent.
use salesforce_master_servic.Errors.{
  Exception, Result, runtime_error, key_error, other_error, raised, ok, err,
}
use salesforce_master_servic.Base.{
  ℕ, refl, ◌≢◌, inl, inr, Option, none, some, List, Bool-cases, is_some, Dict, lookup, String,
  take_text,
}
use salesforce_master_servic.Json.{Json}
use salesforce_master_servic.Status.{JobStatus, pending, extracting, extracted, completed}
use salesforce_master_servic.Job.{Job}
use salesforce_master_servic.Session.{Session, IsLawful}
use salesforce_master_servic.Flow.{World, Act}
use salesforce_master_servic.Flow.Keeps.{
  Keeps, pure-Keeps, raise-Keeps, bind-Keeps, then-Keeps, if-Keeps, try_except-Keeps,
  or_raise-Keeps, IsSound, untouched-IsSound, status-IsSound, fail_job-IsSound,
  update_extraction_info-IsSound, create_job-IsSound, resume_job-IsSound,
}
use salesforce_master_servic.Extraction.{
  PollingService, ScanStartRequest, has_items, resume_target, config_of, record_counts, scan_event,
  job_of, set_credentials, create_task, start_scan, fetch, listed, extract_files,
  runtime_credentials, run_found, workflow_body, organization_of, workflow_failed,
  execute_batch_workflow, given_credentials, need_credentials, start_again, resume_found,
  resume_option, abort_one,
}

module _ (S : Session) (clock : ℕ → ℕ) (iso : ℕ → String) (L : IsLawful S)
    (polling : PollingService S) (supported : List String) where
  abbrev pub Sound : {A : Type 0} → Act S A → Type 0
  Sound m = Keeps (IsSound S clock iso L) m

  -- The polling service changes jobs through the methods of the job service only.
  pub record IsSoundPolling : Type 0 where
    pub configure-Sound : (found : Dict Json) → Sound (polling.configure found)
    pub submit-Sound :
        (i : String) (objects : List String) → Sound (polling.submit_batch_jobs i objects)
    pub poll-Sound : (i : String) → Sound (polling.poll_until_ready i)
    pub download-Sound : (i : String) → Sound (polling.download_results i)

  fetch-Sound :
      (p : IsSoundPolling) (i : String) (objects : List String) (job : Job)
      → Sound (fetch S clock polling supported i objects job)
  unfolding fetch
  fetch-Sound p i objects job =
      if-Keeps _ _ _ _
        (then-Keeps _ _ _ (then-Keeps _ _ _ (p.submit-Sound i objects) (p.poll-Sound i))
          (p.download-Sound i))
        (if-Keeps _ _ _ _
          (then-Keeps _ _ _ (status-IsSound S clock iso L i extracting) (pure-Keeps _ tt))
          (pure-Keeps _ tt))

  extract_files-Sound : (i : String) → Sound (extract_files S clock polling supported i)
  unfolding extract_files
  extract_files-Sound i = then-Keeps _ _ _ (status-IsSound S clock iso L i extracting) (
      bind-Keeps _ _ _
        (untouched-IsSound S clock iso L (listed S clock polling supported i) (λ w. refl))
        (λ infos.
          then-Keeps _ _ _
            (update_extraction_info-IsSound S clock iso L i (some (record_counts infos)))
            (then-Keeps _ _ _ (status-IsSound S clock iso L i extracted) (pure-Keeps _ tt))))

  pub start_scan-Sound :
      (i : String) (request : ScanStartRequest)
      → Sound (start_scan S clock polling supported i request)
  unfolding start_scan
  start_scan-Sound i request =
      then-Keeps _ _ _
        (untouched-IsSound S clock iso L
          (set_credentials S clock polling supported i request.salesforce_credentials) (λ w. refl))
        (bind-Keeps _ _ _
          (create_job-IsSound S clock iso L i (some request.organization_id)
            (some (config_of request)))
          (λ created.
            then-Keeps _ _ _ (or_raise-Keeps _ created (raised other_error "IntegrityError")) (
              then-Keeps _ _ _
                (untouched-IsSound S clock iso L
                  (scan_event S clock polling supported "scan_created" "success" i
                    (some request.organization_id) none)
                  (λ w. refl))
                (then-Keeps _ _ _
                  (untouched-IsSound S clock iso L
                    (create_task S clock polling supported i request.object_names) (λ w. refl))
                  (pure-Keeps _ (i, pending))))))

  credentials-Sound : (i : String) → Sound (runtime_credentials S clock polling supported i)
  unfolding Keeps
  credentials-Sound i w h =
      or_raise-Keeps (IsSound S clock iso L) (lookup i w.credentials) (raised key_error i) w h

  run_found-Sound :
      (p : IsSoundPolling) (i : String) (objects : Option (List String)) (found : Option Job)
      → Sound (run_found S clock polling supported i objects found)
  run_found-Sound p i objects none = raise-Keeps _ _ _
  run_found-Sound p i objects (some job) = if-Keeps _ _ _ _ (pure-Keeps _ tt) (
      if-Keeps _ _ _ _ (pure-Keeps _ tt) (
        then-Keeps _ _ _
          (then-Keeps _ _ _
            (bind-Keeps _ _ _ (credentials-Sound i) (λ found. p.configure-Sound found))
            (fetch-Sound p i _ job))
          (extract_files-Sound i)))

  workflow_body-Sound :
      (p : IsSoundPolling) (i : String) (objects : Option (List String))
      → Sound (workflow_body S clock polling supported i objects)
  unfolding workflow_body Keeps
  workflow_body-Sound p i objects w h =
      run_found-Sound p i objects (job_of S clock polling supported i w) w h

  workflow_failed-Sound :
      (i : String) (text : Exception → String) (exc : Exception)
      → Sound (workflow_failed S clock polling supported i text exc)
  unfolding workflow_failed
  workflow_failed-Sound i text exc =
      if-Keeps _ _ _ _
        (then-Keeps _ _ _ (fail_job-IsSound S clock iso L i (text exc)) (
          untouched-IsSound S clock iso L
            (λ (w : World S).
              scan_event S clock polling supported "scan_failed" "failure" i
                (organization_of S clock polling supported (job_of S clock polling supported i w))
                (some (take_text 4000 (text exc))) w)
            (λ w. refl)))
        (raise-Keeps _ _ exc)

  pub execute-Sound :
      (p : IsSoundPolling) (i : String) (objects : Option (List String)) (text : Exception → String)
      → Sound (execute_batch_workflow S clock polling supported i objects text)
  unfolding execute_batch_workflow Keeps
  execute-Sound p i objects text w h =
      try_except-Keeps (IsSound S clock iso L) (workflow_body S clock polling supported i objects)
        (workflow_failed S clock polling supported i text) (workflow_body-Sound p i objects)
        (workflow_failed-Sound i text) w h

  target-open : (job : Job) → resume_target job ≢ completed
  unfolding resume_target
  target-open job = elim (Bool-cases (is_some job.extracted_at)) [
    | inl e ↦ rw e (λ h. cc)
    | inr e ↦ elim (Bool-cases (is_some job.downloaded_at)) [
      | inl f ↦ rw (e, f) (λ h. cc)
      | inr f ↦ elim (Bool-cases (has_items job.batch_job_ids)) [
        | inl g ↦ rw (e, f, g) (λ h. cc)
        | inr g ↦ rw (e, f, g) (λ h. cc)
      ]
    ]
  ]

  again-Sound :
      (i : String) (target : JobStatus) → Sound (start_again S clock polling supported i target)
  again-Sound i target =
      if-Keeps _ _ _ _ (pure-Keeps _ tt)
        (untouched-IsSound S clock iso L (create_task S clock polling supported i none) (λ w. refl))

  resume_found-Sound :
      (i : String) (job : Job) → Sound (resume_found S clock polling supported i job)
  resume_found-Sound i job =
      if-Keeps _ _ _ _
        (bind-Keeps _ _ _
          (bind-Keeps _ _ _
            (resume_job-IsSound S clock iso L i (resume_target job) (target-open job))
            (λ resumed.
              or_raise-Keeps _ resumed
                (raised runtime_error "scan cannot be resumed from its persisted state")))
          (λ (now : Job).
            then-Keeps _ _ _ (again-Sound i (resume_target job)) (pure-Keeps _ now.status)))
        (then-Keeps _ _ _ (again-Sound i job.status) (pure-Keeps _ job.status))

  given-Sound :
      (i : String) (found : Option (Dict Json))
      → Sound (given_credentials S clock polling supported i found)
  given-Sound i none = pure-Keeps _ tt
  given-Sound i (some found) =
      untouched-IsSound S clock iso L (set_credentials S clock polling supported i found)
        (λ w. refl)

  need-Sound : (i : String) → Sound (need_credentials S clock polling supported i)
  unfolding Keeps
  need-Sound i w h = elim (Bool-cases (is_some (lookup i w.credentials))) [
    | inl e ↦ rw e h
    | inr e ↦ rw e h
  ]

  pub resume-Sound :
      (i : String) (found : Option (Dict Json)) (job : Option Job)
      → Sound (resume_option S clock polling supported i found job)
  resume-Sound i found none = raise-Keeps _ _ _
  resume-Sound i found (some job) =
      then-Keeps _ _ _ (then-Keeps _ _ _ (given-Sound i found) (need-Sound i))
        (resume_found-Sound i job)

  pub abort_one-Sound : (r : Result (Unit {0})) → Sound (abort_one S clock polling supported r)
  abort_one-Sound (ok u) = pure-Keeps _ tt
  abort_one-Sound (err exc) = if-Keeps _ _ _ _ (pure-Keeps _ tt) (raise-Keeps _ _ exc)
