-- ===== src/JobService/History.antt =====
-- Any sequence of calls of `JobService` (src/app/services/job_service.py), from any clients, in any
-- order: what holds of every job of the table after it.
use salesforce_master_servic.JobService.Methods.{
  update_job_status-Evolves, resume_job-Evolves, fail_job-Evolves, cancel_job-Evolves,
  update_heartbeat-Evolves, update_batch_info-Evolves, update_download_info-Evolves,
  update_extraction_info-Evolves, store_entity_record_counts-Evolves,
  complete_normalization-Evolves, complete_minio_upload-Evolves,
}
use salesforce_master_servic.JobService.Crashes.{detect_crashed_jobs-Evolves}
use salesforce_master_servic.Base.{
  ℕ, ◌+◌, ◌≡◌, sym, ap, ◌∙◌, subst, ◌≢◌, ◌⊎◌, inl, inr, Option, none, some, List, [], ◌∷◌, nat_eq,
  string_eq, ◌==◌, Bool-cases, Option-cases, Dict, All, String, eq_iff,
}
use salesforce_master_servic.Status.{JobStatus, status_eq, is_terminal, pending, completed}
use salesforce_master_servic.Json.{Json}
use salesforce_master_servic.Job.{BatchItem, Job}
use salesforce_master_servic.Session.{Session, IsLawful}
use salesforce_master_servic.JobService.{
  Context, new_job, create_job, update_job_status, resume_job, update_heartbeat, fail_job,
  cancel_job, update_batch_info, update_download_info, update_extraction_info,
  store_entity_record_counts, complete_normalization, complete_minio_upload,
}
use salesforce_master_servic.JobService.Queries.{detect_crashed_jobs, delete_all, cleanup_old_jobs}
use salesforce_master_servic.JobService.Steps.{
  IsConsistent, Move, JobStep, JobStep-refl, Evolves, Evolves-refl,
}

-- A call of a method, with its arguments.
pub data Call : Type 0 where
  create : String → Option String → Option (Dict Json) → Call
  set_status : String → JobStatus → Call
  resume : String → JobStatus → Call
  beat : String → Call
  fail_with : String → String → Call
  cancel_with : String → Option String → Option String → Call
  batch : String → Option (List BatchItem) → Option (Dict Json) → Call
  downloads : String → Option (Dict String) → Option (Dict ℕ) → Call
  extraction : String → Option (Dict ℕ) → Call
  counts : String → Dict ℕ → Call
  finish_normalization : String → Option (Dict ℕ) → Call
  finish_upload : String → Option (Dict String) → Call
  detect : ℕ → Call
  cleanup : ℕ → Call

-- `resume_scan` resumes at EXTRACTED, EXTRACTING, BATCH_PROCESSING or PENDING: never at COMPLETED.
abbrev pub IsAllowed : Call → Type 0
IsAllowed (resume _ status) = status ≢ completed
IsAllowed _ = Unit

module _ (S : Session) (clock : ℕ → ℕ) (iso : ℕ → String) where
  -- The context after the call.
  unfoldable pub perform : Call → Context S → Context S
  perform (create i org config) c = (create_job S clock i org config c).1
  perform (set_status i status) c = (update_job_status S clock i status c).1
  perform (resume i status) c = (resume_job S clock i status c).1
  perform (beat i) c = (update_heartbeat S clock i c).1
  perform (fail_with i error) c = (fail_job S clock i error c).1
  perform (cancel_with i reason actor) c = (cancel_job S clock i reason actor c).1
  perform (batch i ids statuses) c = (update_batch_info S clock i ids statuses c).1
  perform (downloads i paths sizes) c = (update_download_info S clock i paths sizes c).1
  perform (extraction i found) c = (update_extraction_info S clock i found c).1
  perform (counts i found) c = (store_entity_record_counts S clock i found c).1
  perform (finish_normalization i stats) c = (complete_normalization S clock i stats c).1
  perform (finish_upload i keys) c = (complete_minio_upload S clock i keys c).1
  perform (detect minutes) c = (detect_crashed_jobs S clock iso minutes c).1
  perform (cleanup days) c = (cleanup_old_jobs S clock iso days c).1

  unfoldable pub perform_all : List Call → Context S → Context S
  perform_all [] c = c
  perform_all (call ∷ calls) c = perform_all calls (perform call c)

  module _ (L : IsLawful S) where
    delete_all-Evolves :
        (s : S.State) (jobs : List Job) (c : Context S)
        → Evolves S L s c.state
        → Evolves S L s (delete_all S clock iso jobs c).state
    unfolding delete_all
    delete_all-Evolves s [] c evolved = evolved
    delete_all-Evolves s (job ∷ jobs) c evolved =
        delete_all-Evolves s jobs (record c { state = S.delete c.state job.scan_id })
          (λ k new h. elim (Bool-cases (job.scan_id == k)) [
            | inl e ↦
                let gone : none ≡ some new =
                  rw e at (sym (L.get-delete c.state job.scan_id k) ∙ h) in
                cc
            | inr e ↦ evolved k new (rw e at (sym (L.get-delete c.state job.scan_id k) ∙ h))
          ])

    cleanup_old_jobs-Evolves :
        (days : ℕ) (c : Context S)
        → Evolves S L c.state (cleanup_old_jobs S clock iso days c).1.state
    unfolding cleanup_old_jobs
    cleanup_old_jobs-Evolves days c =
        delete_all-Evolves c.state _ (record c { reads = c.reads + 1 }) (Evolves-refl S L c.state)

    -- Every row after a call is a row before it after a step, or a new job that is pending.
    Follows : Context S → Context S → Type 0
    Follows c d =
        (k : String) (new : Job)
        → S.get d.state k ≡ some new
        → ((old : Job) × (S.get c.state k ≡ some old) × JobStep old new)
          ⊎ ((S.get c.state k ≡ none) × (new.status ≡ pending) × (new.completed_at ≡ none))

    create_job-Follows :
        (i : String) (org : Option String) (config : Option (Dict Json)) (c : Context S)
        → Follows c (create_job S clock i org config c).1
    unfolding Follows create_job
    create_job-Follows i org config c k new h =
        let job = new_job S clock i org config c.reads in
        elim (Option-cases (S.get c.state i)) [
          | inl free ↦
              let (t, e, rows) = L.add_new c.state job free in
              let row : S.get t k ≡ some new = rw e at h in
              elim (Bool-cases (i == k)) [
                | inl same ↦
                    let p : some job ≡ some new = rw same at (sym (rows k) ∙ row) in
                    let q : job ≡ new = cc in
                    inr (
                      subst (λ (x : String). S.get c.state x ≡ none) ((eq_iff i k).0 same) free,
                      ap (λ (x : Job). x.status) (sym q),
                      ap (λ (x : Job). x.completed_at) (sym q),
                    )
                | inr other ↦ inl (new, rw other at (sym (rows k) ∙ row), JobStep-refl new)
              ]
          | inr (old, taken) ↦
              let e = L.add_taken c.state job old taken in inl (new, rw e at h, JobStep-refl new)
        ]

    Follows-of_Evolves : (c d : Context S) → Evolves S L c.state d.state → Follows c d
    unfolding Follows
    Follows-of_Evolves c d e k new h = inl (e k new h)

    perform-Follows : (call : Call) (c : Context S) → IsAllowed call → Follows c (perform call c)
    unfolding perform
    perform-Follows (create i org config) c h = create_job-Follows i org config c
    perform-Follows (set_status i status) c h =
        Follows-of_Evolves c _ (update_job_status-Evolves S L clock i status c)
    perform-Follows (resume i status) c h =
        Follows-of_Evolves c _ (resume_job-Evolves S L clock i status c h)
    perform-Follows (beat i) c h = Follows-of_Evolves c _ (update_heartbeat-Evolves S L clock i c)
    perform-Follows (fail_with i error) c h =
        Follows-of_Evolves c _ (fail_job-Evolves S L clock i error c)
    perform-Follows (cancel_with i reason actor) c h =
        Follows-of_Evolves c _ (cancel_job-Evolves S L clock i reason actor c)
    perform-Follows (batch i ids statuses) c h =
        Follows-of_Evolves c _ (update_batch_info-Evolves S L clock i ids statuses c)
    perform-Follows (downloads i paths sizes) c h =
        Follows-of_Evolves c _ (update_download_info-Evolves S L clock i paths sizes c)
    perform-Follows (extraction i found) c h =
        Follows-of_Evolves c _ (update_extraction_info-Evolves S L clock i found c)
    perform-Follows (counts i found) c h =
        Follows-of_Evolves c _ (store_entity_record_counts-Evolves S L clock i found c)
    perform-Follows (finish_normalization i stats) c h =
        Follows-of_Evolves c _ (complete_normalization-Evolves S L clock i stats c)
    perform-Follows (finish_upload i keys) c h =
        Follows-of_Evolves c _ (complete_minio_upload-Evolves S L clock i keys c)
    perform-Follows (detect minutes) c h =
        Follows-of_Evolves c _ (detect_crashed_jobs-Evolves S clock iso L minutes c)
    perform-Follows (cleanup days) c h = Follows-of_Evolves c _ (cleanup_old_jobs-Evolves days c)

    -- One call of any method, with any arguments but a resumption at COMPLETED, changes a job that was
    -- there only along the lifecycle: to FAILED or CANCELLED, one step down the main chain, or, resumed
    -- from FAILED or CANCELLED, to a status of the main chain. It keeps the job's id, organization and
    -- creation time.
    pub perform-moves :
        (call : Call) (c : Context S) (k : String) (old new : Job)
        → IsAllowed call
        → S.get c.state k ≡ some old
        → S.get (perform call c).state k ≡ some new
        → Move old.status new.status
          × (new.scan_id ≡ old.scan_id)
          × (new.organization_id ≡ old.organization_id)
          × (new.created_at ≡ old.created_at)
    unfolding Follows
    perform-moves call c k old new allowed h h' = elim (perform-Follows call c allowed k new h') [
      | inl (old', row, step) ↦
          let p : old' ≡ old = cc in
          subst
            (λ (x : Job).
              Move x.status new.status
              × (new.scan_id ≡ x.scan_id)
              × (new.organization_id ≡ x.organization_id)
              × (new.created_at ≡ x.created_at))
            p (step.moves, step.same_id, step.same_organization, step.same_creation)
      | inr (free, _, _) ↦ cc
    ]

    abbrev pub AllConsistent : Context S → Type 0
    AllConsistent c = (k : String) (job : Job) → S.get c.state k ≡ some job → IsConsistent job

    pub perform-AllConsistent :
        (call : Call) (c : Context S)
        → IsAllowed call
        → AllConsistent c
        → AllConsistent (perform call c)
    unfolding Follows is_terminal
    perform-AllConsistent call c allowed all k new h =
        elim (perform-Follows call c allowed k new h) [
          | inl (old, row, step) ↦ step.consistent (all k old row)
          | inr (_, starts, open_end) ↦ rw (starts, open_end)
        ]

    -- After any sequence of calls, with any arguments, a job has a completion time exactly when its
    -- status is COMPLETED, FAILED or CANCELLED, provided that held of every job before and no call
    -- resumes a job at COMPLETED.
    pub perform_all-AllConsistent :
        (calls : List Call) (c : Context S)
        → All IsAllowed calls
        → AllConsistent c
        → AllConsistent (perform_all calls c)
    unfolding perform_all
    perform_all-AllConsistent [] c allowed all = all
    perform_all-AllConsistent (call ∷ calls) c allowed all =
        perform_all-AllConsistent calls (perform call c) allowed.1
          (perform-AllConsistent call c allowed.0 all)
