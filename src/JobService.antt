-- ===== src/JobService.antt =====
-- `JobService` of src/app/services/job_service.py over any session. A method takes the context, the
-- session's state with the number of clock readings so far, and gives it back with its result.
-- The children hold the queries over all jobs, and the proofs.
pub mod Queries
pub mod Steps
pub mod Methods
pub mod Crashes
pub mod Cleanup
pub mod Detection
pub mod History
pub mod Stops
use salesforce_master_servic.Base.{
  ℕ, ◌+◌, not, Option, none, some, List, [], ◌∷◌, if◌then◌else◌, nat_eq, string_eq, ◌==◌, ◌∈?◌,
  is_some, or_default, Dict, update, String, take_text,
}
use salesforce_master_servic.Status.{
  JobStatus, status_eq, main_chain, is_valid_transition, pending, normalizing, normalized,
  uploading_to_minio, uploaded_to_minio, completed, failed, cancelled,
}
use salesforce_master_servic.Json.{Json}
use salesforce_master_servic.Job.{BatchItem, Job}
use salesforce_master_servic.Session.{Session}

pub record Context (S : Session) : Type 0 where
  pub state : S.State
  pub reads : ℕ

-- `clock n` is what the n-th call of `utcnow()` returns.
module _ (S : Session) (clock : ℕ → ℕ) where
  -- A method of the service on one job.
  abbrev pub Method : Type 0
  Method = Context S → Option Job × Context S

  unfoldable pub get_job : String → Context S → Option Job
  get_job scan_id c = S.get c.state scan_id

  abbrev pub new_job : String → Option String → Option (Dict Json) → ℕ → Job
  new_job scan_id organization_id request_config reads = record {
    scan_id = scan_id;
    organization_id = organization_id;
    status = pending;
    request_config = or_default request_config [];
    error_message = none;
    error_detail = none;
    cancelled_by = none;
    cancel_reason = none;
    batch_job_ids = none;
    batch_status = none;
    batch_requested_at = none;
    downloaded_at = none;
    file_paths = none;
    file_sizes = none;
    extracted_at = none;
    entity_record_counts = none;
    normalized_at = none;
    normalization_stats = none;
    minio_uploaded_at = none;
    minio_object_keys = none;
    last_heartbeat = none;
    created_at = clock reads;
    updated_at = clock (reads + 1);
    completed_at = none;
  }

  abbrev pub after_add : Option S.State → Job → ℕ → Method
  after_add none job reads c = (none, record c { reads = reads })
  after_add (some t) job reads c = (some job, record { state = t; reads = reads })

  -- The result `none` stands for the `IntegrityError` of a scan id that is taken.
  unfoldable pub create_job : String → Option String → Option (Dict Json) → Method
  create_job scan_id organization_id request_config c =
      let job = new_job scan_id organization_id request_config c.reads in
      after_add (S.add c.state job) job (c.reads + 2) c

  -- `self.db.commit(); self.db.refresh(job); return job`, after `n` readings of the clock.
  abbrev pub commit : ℕ → Job → Method
  commit n job c = (some job, record { state = S.save c.state job; reads = c.reads + n })

  -- `job = self.get_job(scan_id)`, and `return None` where there is none.
  abbrev pub on_found : Option Job → (Job → Method) → Method
  on_found none body c = (none, c)
  on_found (some job) body c = body job c

  abbrev pub on_job : String → (Job → Method) → Method
  on_job scan_id body c = on_found (S.get c.state scan_id) body c

  -- The job as an accepted update leaves it.
  abbrev pub with_status : JobStatus → ℕ → Job → Job
  with_status status reads job =
      let moved = record job { status = status; updated_at = clock reads } in
      if status ∈? (completed ∷ failed ∷ cancelled ∷ [])
      then record moved { completed_at = some (clock (reads + 1)) }
      else moved

  abbrev pub status_reads : JobStatus → ℕ
  status_reads status = if status ∈? (completed ∷ failed ∷ cancelled ∷ []) then 2 else 1

  unfoldable pub update_job_status : String → JobStatus → Method
  update_job_status scan_id status = on_job scan_id λ job c.
      if not (is_valid_transition job.status status)
      then (some job, c)
      else commit (status_reads status) (with_status status c.reads job) c

  unfoldable pub resume_job : String → JobStatus → Method
  resume_job scan_id status = on_job scan_id λ job c.
      if not (job.status ∈? (failed ∷ cancelled ∷ []))
      then (none, c)
      else if not (status ∈? main_chain)
      then (none, c)
      else commit 1
          (record job {
            status = status;
            error_message = none;
            completed_at = none;
            updated_at = clock c.reads;
          })
          c

  unfoldable pub update_heartbeat : String → Method
  update_heartbeat scan_id = on_job scan_id λ job c.
      commit 2
        (record job { last_heartbeat = some (clock c.reads); updated_at = clock (c.reads + 1) }) c

  -- `error` is the text of the exception, `str(error)`.
  unfoldable pub fail_job : String → String → Method
  fail_job scan_id error = on_job scan_id λ job c.
      if job.status ∈? (completed ∷ failed ∷ cancelled ∷ [])
      then (none, c)
      else commit 2
          (record job {
            status = failed;
            error_message = some (take_text 4000 error);
            completed_at = some (clock c.reads);
            updated_at = clock (c.reads + 1);
          })
          c

  unfoldable pub cancel_job : String → Option String → Option String → Method
  cancel_job scan_id reason actor = on_job scan_id λ job c.
      if job.status ∈? (completed ∷ failed ∷ cancelled ∷ [])
      then (none, c)
      else commit 2
          (record job {
            status = cancelled;
            cancel_reason = reason;
            cancelled_by = actor;
            completed_at = some (clock c.reads);
            updated_at = clock (c.reads + 1);
          })
          c

  -- `job.field = value`, if `value is not None`
  abbrev if_given : {A : Type 0} → Option A → Option A → Option A
  if_given none old = old
  if_given (some v) old = some v

  unfoldable pub update_batch_info : String → Option (List BatchItem) → Option (Dict Json) → Method
  update_batch_info scan_id batch_job_ids batch_status = on_job scan_id λ job c.
      let first = not (is_some job.batch_requested_at) in
      let stamped : ℕ = if first then 1 else 0 in
      commit (stamped + 1)
        (record job {
          batch_job_ids = if_given batch_job_ids job.batch_job_ids;
          batch_status = if_given batch_status job.batch_status;
          batch_requested_at = if first then some (clock c.reads) else job.batch_requested_at;
          updated_at = clock (c.reads + stamped);
        })
        c

  unfoldable pub update_download_info : String → Option (Dict String) → Option (Dict ℕ) → Method
  update_download_info scan_id file_paths file_sizes = on_job scan_id λ job c.
      commit 2
        (record job {
          file_paths = if_given file_paths job.file_paths;
          file_sizes = if_given file_sizes job.file_sizes;
          downloaded_at = some (clock c.reads);
          updated_at = clock (c.reads + 1);
        })
        c

  unfoldable pub update_extraction_info : String → Option (Dict ℕ) → Method
  update_extraction_info scan_id extracted_file_counts = on_job scan_id λ job c.
      commit 2
        (record job {
          entity_record_counts = if_given extracted_file_counts job.entity_record_counts;
          extracted_at = some (clock c.reads);
          updated_at = clock (c.reads + 1);
        })
        c

  unfoldable pub store_entity_record_counts : String → Dict ℕ → Method
  store_entity_record_counts scan_id counts_by_object = on_job scan_id λ job c.
      commit 1
        (record job {
          entity_record_counts =
              some (update (or_default job.entity_record_counts []) counts_by_object);
          updated_at = clock c.reads;
        })
        c

  unfoldable pub start_normalization : String → Method
  start_normalization scan_id = update_job_status scan_id normalizing

  -- What `complete_normalization` and `complete_minio_upload` do after their change of status.
  abbrev pub after_status :
      JobStatus → (Job → ℕ → Job) → Option Job × Context S → Option Job × Context S
  after_status status finish (none, c) = (none, c)
  after_status status finish (some job, c) =
      if not (job.status == status) then (some job, c) else commit 2 (finish job c.reads) c

  unfoldable pub complete_normalization : String → Option (Dict ℕ) → Method
  complete_normalization scan_id stats c =
      after_status normalized
        (λ job reads. record job {
          normalized_at = some (clock reads);
          normalization_stats = some (or_default stats []);
          updated_at = clock (reads + 1);
        })
        (update_job_status scan_id normalized c)

  unfoldable pub start_minio_upload : String → Method
  start_minio_upload scan_id = update_job_status scan_id uploading_to_minio

  unfoldable pub complete_minio_upload : String → Option (Dict String) → Method
  complete_minio_upload scan_id uploaded_keys c =
      after_status uploaded_to_minio
        (λ job reads. record job {
          minio_uploaded_at = some (clock reads);
          minio_object_keys = some (or_default uploaded_keys []);
          updated_at = clock (reads + 1);
        })
        (update_job_status scan_id uploaded_to_minio c)
