-- ===== src/JobService/Methods.antt =====
-- Every method of `JobService` (src/app/services/job_service.py) makes a step of each job, or none.
use salesforce_master_servic.Status.Transitions.{fail, cancel}
use salesforce_master_servic.Job.{BatchItem, Job}
use salesforce_master_servic.Json.{Json}
use salesforce_master_servic.Base.{
  ℕ, ◌≡◌, refl, subst, ◌≢◌, Bool, true, false, not, Option, none, some, List, [], ◌∷◌, arith,
  if◌then◌else◌, nat_eq, string_eq, ◌==◌, ◌∈?◌, Dict, String,
}
use salesforce_master_servic.Status.{
  JobStatus, ordinal_injective, status_eq, main_chain, is_terminal, is_valid_transition, normalized,
  uploaded_to_minio, completed, failed, cancelled,
}
use salesforce_master_servic.Session.{Session, IsLawful}
use salesforce_master_servic.JobService.{
  Context, commit, on_found, with_status, status_reads, update_job_status, resume_job,
  update_heartbeat, fail_job, cancel_job, update_batch_info, update_download_info,
  update_extraction_info, store_entity_record_counts, after_status, complete_normalization,
  complete_minio_upload,
}
use salesforce_master_servic.JobService.Steps.{
  JobStep, JobStep-with_status, stopped-terminal, JobStep-same_status, edge, resume, Evolves,
  Evolves-refl, row_at_own_key, Evolves-save, Evolves-save_same, Evolves-on_job, Evolves-choose,
  get-save_self,
}

resumed-consistent :
    (s : JobStatus) → s ∈? main_chain ≡ true → s ≢ completed → false ≡ is_terminal s
unfolding is_terminal
resumed-consistent s h ne = ground (arith, ordinal_injective s completed)

module _ (S : Session) (L : IsLawful S) (clock : ℕ → ℕ) where
  pub update_job_status-Evolves :
      (scan_id : String) (status : JobStatus) (c : Context S)
      → Evolves S L c.state (update_job_status S clock scan_id status c).1.state
  unfolding update_job_status
  update_job_status-Evolves scan_id status c = Evolves-on_job S L clock scan_id _ c λ job here.
      Evolves-choose S L (not (is_valid_transition job.status status)) c.state _ _
        (λ _. Evolves-refl S L c.state)
        (λ h.
          Evolves-save S L c.state job _ here
            (JobStep-with_status clock S status c.reads job (ground arith)))

  pub resume_job-Evolves :
      (scan_id : String) (status : JobStatus) (c : Context S)
      → status ≢ completed
      → Evolves S L c.state (resume_job S clock scan_id status c).1.state
  unfolding resume_job
  resume_job-Evolves scan_id status c ne = Evolves-on_job S L clock scan_id _ c λ job here.
      Evolves-choose S L (not (job.status ∈? (failed ∷ cancelled ∷ []))) c.state _ _
        (λ _. Evolves-refl S L c.state)
        (λ stopped.
          Evolves-choose S L (not (status ∈? main_chain)) c.state _ _
            (λ _. Evolves-refl S L c.state)
            (λ chained. Evolves-save S L c.state job _ here (record {
              same_id = refl;
              same_organization = refl;
              same_creation = refl;
              moves = resume (ground arith) (ground arith);
              consistent = λ _. resumed-consistent status (ground arith) ne;
            })))

  pub fail_job-Evolves :
      (scan_id : String) (error : String) (c : Context S)
      → Evolves S L c.state (fail_job S clock scan_id error c).1.state
  unfolding fail_job
  fail_job-Evolves scan_id error c = Evolves-on_job S L clock scan_id _ c λ job here.
      Evolves-choose S L (job.status ∈? (completed ∷ failed ∷ cancelled ∷ [])) c.state _ _
        (λ _. Evolves-refl S L c.state)
        (λ _. Evolves-save S L c.state job _ here (record {
          same_id = refl;
          same_organization = refl;
          same_creation = refl;
          moves = edge (fail refl);
          consistent = λ _. stopped-terminal.0;
        }))

  pub cancel_job-Evolves :
      (scan_id : String) (reason : Option String) (actor : Option String) (c : Context S)
      → Evolves S L c.state (cancel_job S clock scan_id reason actor c).1.state
  unfolding cancel_job
  cancel_job-Evolves scan_id reason actor c = Evolves-on_job S L clock scan_id _ c λ job here.
      Evolves-choose S L (job.status ∈? (completed ∷ failed ∷ cancelled ∷ [])) c.state _ _
        (λ _. Evolves-refl S L c.state)
        (λ _. Evolves-save S L c.state job _ here (record {
          same_id = refl;
          same_organization = refl;
          same_creation = refl;
          moves = edge (cancel refl);
          consistent = λ _. stopped-terminal.1;
        }))

  pub update_heartbeat-Evolves :
      (scan_id : String) (c : Context S)
      → Evolves S L c.state (update_heartbeat S clock scan_id c).1.state
  unfolding update_heartbeat
  update_heartbeat-Evolves scan_id c = Evolves-on_job S L clock scan_id _ c λ job here.
      Evolves-save S L c.state job _ here (JobStep-same_status job _ refl refl refl refl refl)

  pub update_batch_info-Evolves :
      (scan_id : String) (ids : Option (List BatchItem)) (statuses : Option (Dict Json))
      (c : Context S)
      → Evolves S L c.state (update_batch_info S clock scan_id ids statuses c).1.state
  unfolding update_batch_info
  update_batch_info-Evolves scan_id ids statuses c =
      Evolves-on_job S L clock scan_id _ c λ job here.
        Evolves-save S L c.state job _ here (JobStep-same_status job _ refl refl refl refl refl)

  pub update_download_info-Evolves :
      (scan_id : String) (paths : Option (Dict String)) (sizes : Option (Dict ℕ)) (c : Context S)
      → Evolves S L c.state (update_download_info S clock scan_id paths sizes c).1.state
  unfolding update_download_info
  update_download_info-Evolves scan_id paths sizes c =
      Evolves-on_job S L clock scan_id _ c λ job here.
        Evolves-save S L c.state job _ here (JobStep-same_status job _ refl refl refl refl refl)

  pub update_extraction_info-Evolves :
      (scan_id : String) (counts : Option (Dict ℕ)) (c : Context S)
      → Evolves S L c.state (update_extraction_info S clock scan_id counts c).1.state
  unfolding update_extraction_info
  update_extraction_info-Evolves scan_id counts c = Evolves-on_job S L clock scan_id _ c λ job here.
      Evolves-save S L c.state job _ here (JobStep-same_status job _ refl refl refl refl refl)

  pub store_entity_record_counts-Evolves :
      (scan_id : String) (counts : Dict ℕ) (c : Context S)
      → Evolves S L c.state (store_entity_record_counts S clock scan_id counts c).1.state
  unfolding store_entity_record_counts
  store_entity_record_counts-Evolves scan_id counts c =
      Evolves-on_job S L clock scan_id _ c λ job here.
        Evolves-save S L c.state job _ here (JobStep-same_status job _ refl refl refl refl refl)

  -- The job that an update of the status returns is the row as it is stored.
  update_found :
      (status : JobStatus) (c : Context S) (job r : Job) (valid : Bool)
      → S.get c.state job.scan_id ≡ some job
      → let result : Option Job × Context S =
          if not valid
          then (some job, c)
          else commit S clock
              (status_reads S clock status)
              (with_status S clock status c.reads job)
              c in
        result.0 ≡ some r → S.get result.1.state r.scan_id ≡ some r
  update_found status c job r false at e =
      let p : job ≡ r = cc in subst (λ (x : Job). S.get c.state x.scan_id ≡ some x) p at
  update_found status c job r true at e =
      let moved = with_status S clock status c.reads job in
      let p : moved ≡ r = cc in
      subst (λ (x : Job). S.get (S.save c.state moved) x.scan_id ≡ some x) p
        (get-save_self S L c.state job moved at (ground arith))

  update_found_or_missing :
      (scan_id : String) (status : JobStatus) (c : Context S) (r : Job) (found : Option Job)
      → S.get c.state scan_id ≡ found
      → let result =
          on_found S clock found
            (λ job c.
              if not (is_valid_transition job.status status)
              then (some job, c)
              else commit S clock
                  (status_reads S clock status)
                  (with_status S clock status c.reads job)
                  c)
            c in
        result.0 ≡ some r → S.get result.1.state r.scan_id ≡ some r
  update_found_or_missing scan_id status c r none h e = cc
  update_found_or_missing scan_id status c r (some job) h e =
      update_found status c job r (is_valid_transition job.status status)
        (row_at_own_key S L c.state scan_id job h) e

  pub update_job_status-returns_row :
      (scan_id : String) (status : JobStatus) (c : Context S) (r : Job)
      → (update_job_status S clock scan_id status c).0 ≡ some r
      → S.get (update_job_status S clock scan_id status c).1.state r.scan_id ≡ some r
  unfolding update_job_status
  update_job_status-returns_row scan_id status c r h =
      update_found_or_missing scan_id status c r (S.get c.state scan_id) refl h

  after_status-Evolves :
      (s : S.State) (status : JobStatus) (finish : Job → ℕ → Job) (r : Option Job × Context S)
      → Evolves S L s r.1.state
      → ((job : Job) → r.0 ≡ some job → S.get r.1.state job.scan_id ≡ some job)
      → ((job : Job) (n : ℕ) → JobStep job (finish job n) × ((finish job n).status ≡ job.status))
      → Evolves S L s (after_status S clock status finish r).1.state
  after_status-Evolves s status finish (none, c) evolved row keeps_status = evolved
  after_status-Evolves s status finish (some job, c) evolved row keeps_status =
      Evolves-choose S L (not (job.status == status)) s _ _ (λ _. evolved)
        (λ _.
          let (step, same) = keeps_status job c.reads in
          Evolves-save_same S L s c.state job (finish job c.reads) (row job refl) evolved step same)

  pub complete_normalization-Evolves :
      (scan_id : String) (stats : Option (Dict ℕ)) (c : Context S)
      → Evolves S L c.state (complete_normalization S clock scan_id stats c).1.state
  unfolding complete_normalization
  complete_normalization-Evolves scan_id stats c =
      after_status-Evolves c.state normalized _ (update_job_status S clock scan_id normalized c)
        (update_job_status-Evolves scan_id normalized c)
        (update_job_status-returns_row scan_id normalized c)
        (λ job n. (JobStep-same_status job _ refl refl refl refl refl, refl))

  pub complete_minio_upload-Evolves :
      (scan_id : String) (keys : Option (Dict String)) (c : Context S)
      → Evolves S L c.state (complete_minio_upload S clock scan_id keys c).1.state
  unfolding complete_minio_upload
  complete_minio_upload-Evolves scan_id keys c =
      after_status-Evolves c.state uploaded_to_minio _
        (update_job_status S clock scan_id uploaded_to_minio c)
        (update_job_status-Evolves scan_id uploaded_to_minio c)
        (update_job_status-returns_row scan_id uploaded_to_minio c)
        (λ job n. (JobStep-same_status job _ refl refl refl refl refl, refl))
