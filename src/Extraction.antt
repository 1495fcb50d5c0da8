-- ===== src/Extraction.antt =====
-- `ExtractionService` of src/app/services/extraction_service.py, over the job service. The polling
-- service is an interface; a step of it may change the world and may raise.
pub mod Consistency
pub mod Operations
pub mod Failures
use mathlib.Core.Option
use salesforce_master_servic.Base.{
  ℕ, Bool, true, false, not, ◌&&◌, Option, none, some, List, [], ◌∷◌, ◌++◌, map, if◌then◌else◌,
  nat_eq, string_eq, ◌==◌, ◌∈?◌, is_some, or_default, Dict, lookup, insert, erase, update, keep,
  String, ◌<>◌, take_text,
}
use salesforce_master_servic.Status.{
  JobStatus, status_eq, pending, batch_processing, extracting, extracted, completed, failed,
  cancelled,
}
use salesforce_master_servic.Json.{Json, null, str, arr, Items, nil, cons}
use salesforce_master_servic.Errors.{
  Kind, Exception, Result, is_os_error, value_error, runtime_error, type_error, key_error,
  other_error, salesforce, raised, ok, err,
}
use salesforce_master_servic.Job.{BatchItem, Job}
use salesforce_master_servic.Session.{Session}
use salesforce_master_servic.JobService.{
  get_job, create_job, update_job_status, resume_job, fail_job, cancel_job, update_extraction_info,
}
use salesforce_master_servic.Flow.{
  World, Act, pure, raise, ◌>>=◌, ◌>>◌, call, or_raise, write_audit, try_except, try_finally,
}
use salesforce_master_servic.Normalization.{FileInfo}

pub record PollingService (S : Session) : Type 0 where
  pub configure : Dict Json → Act S (Unit {0})
  pub submit_batch_jobs : String → List String → Act S (Unit {0})
  pub poll_until_ready : String → Act S (Unit {0})
  pub download_results : String → Act S (Unit {0})
  -- `retry_call(abort_job, ...)`
  pub abort_job : String → World S → Result (Unit {0})
  -- `BatchFileService.get_file_info`
  pub get_file_info : String → World S → Result (List FileInfo)

pub record ScanStartRequest : Type 0 where
  pub organization_id : String
  pub salesforce_credentials : Dict Json
  pub object_names : Option (List String)
  pub processing_date : Option String
  pub metadata : Json

-- `except (RuntimeError, ValueError, TypeError, OSError, TimeoutError)`
abbrev pub is_kind_handled : Kind → Bool
is_kind_handled runtime_error = true
is_kind_handled value_error = true
is_kind_handled type_error = true
is_kind_handled kind = is_os_error kind

unfoldable pub is_handled : Exception → Bool
is_handled (salesforce e) = false
is_handled (raised kind message) = is_kind_handled kind

-- `except (OSError, RuntimeError, TimeoutError, ValueError)`
abbrev pub is_kind_ignored : Kind → Bool
is_kind_ignored runtime_error = true
is_kind_ignored value_error = true
is_kind_ignored kind = is_os_error kind

unfoldable pub is_abort_failure : Exception → Bool
is_abort_failure (salesforce e) = false
is_abort_failure (raised kind message) = is_kind_ignored kind

-- `bool(items)`, for a list that may be missing
abbrev pub has_items : {A : Type 0} → Option (List A) → Bool
has_items none = false
has_items (some []) = false
has_items (some (x ∷ xs)) = true

-- `objects or list(settings.SF_BULK_SUPPORTED_OBJECTS)`
abbrev pub selected : Option (List String) → List String → List String
selected none supported = supported
selected (some []) supported = supported
selected (some (x ∷ xs)) supported = x ∷ xs

-- The status at which a stopped job goes on: the last stage that it has results of.
unfoldable pub resume_target : Job → JobStatus
resume_target job =
    if is_some job.extracted_at
    then extracted
    else if is_some job.downloaded_at
    then extracting
    else if has_items job.batch_job_ids
    then batch_processing
    else pending

abbrev pub optional_text : Option String → Json
optional_text none = null
optional_text (some s) = str s

abbrev pub text_items : List String → Items
text_items [] = nil
text_items (s ∷ rest) = cons (str s) (text_items rest)

abbrev pub optional_texts : Option (List String) → Json
optional_texts none = null
optional_texts (some names) = arr (text_items names)

-- `model_dump(exclude={"salesforce_credentials"})`
abbrev pub config_of : ScanStartRequest → Dict Json
config_of request =
    ("organization_id", str request.organization_id)
    ∷ ("object_names", optional_texts request.object_names)
    ∷ ("processing_date", optional_text request.processing_date)
    ∷ ("metadata", request.metadata)
    ∷ []

-- `{item["object_name"]: item["record_count"] for item in info["files"]}`
abbrev pub record_counts : List FileInfo → Dict ℕ
record_counts infos = update [] (map (λ i. (i.object_name, i.record_count)) infos)

module _ (S : Session) (clock : ℕ → ℕ) (polling : PollingService S) (supported : List String) where
  abbrev pub scan_event :
      String → String → String → Option String → Option String → Act S (Unit {0})
  scan_event event_type outcome scan_id organization_id detail = write_audit (record {
    category = "scan";
    event_type = event_type;
    outcome = outcome;
    organization_id = organization_id;
    resource_id = some scan_id;
    error_detail = detail;
  })

  abbrev pub job_of : String → World S → Option Job
  job_of scan_id w = get_job S clock scan_id w.context

  abbrev pub no_scan : {A : Type 0} → String → Act S A
  no_scan scan_id = raise (raised value_error ("scan " <> scan_id <> " not found"))

  abbrev pub set_credentials : String → Dict Json → Act S (Unit {0})
  set_credentials scan_id found w =
      (ok tt, record w { credentials = insert scan_id found w.credentials })

  abbrev pub drop_credentials : String → World S → World S
  drop_credentials scan_id w = record w { credentials = erase scan_id w.credentials }

  abbrev pub create_task : String → Option (List String) → Act S (Unit {0})
  create_task scan_id objects w = (ok tt, record w { tasks = w.tasks ++ (scan_id, objects) ∷ [] })

  -- `scan_id` is made of a fresh `uuid4`.
  unfoldable pub start_scan : String → ScanStartRequest → Act S (String × JobStatus)
  start_scan scan_id request = do
    set_credentials scan_id request.salesforce_credentials
    created ←
        call (create_job S clock scan_id (some request.organization_id) (some (config_of request)))
    or_raise created (raised other_error "IntegrityError")
    scan_event "scan_created" "success" scan_id (some request.organization_id) none
    create_task scan_id request.object_names
    pure (scan_id, pending)

  -- Submission, polling and download, or, for a job that has batch jobs, the step to EXTRACTING.
  unfoldable pub fetch : String → List String → Job → Act S (Unit {0})
  fetch scan_id objects job =
      if not (has_items job.batch_job_ids)
      then (polling.submit_batch_jobs scan_id objects
          >> polling.poll_until_ready scan_id
          >> polling.download_results scan_id)
      else if is_some job.downloaded_at && not (is_some job.extracted_at)
      then (call (update_job_status S clock scan_id extracting) >> pure tt)
      else pure tt

  abbrev pub listed : String → Act S (List FileInfo)
  listed scan_id w = (polling.get_file_info scan_id w, w)

  unfoldable pub extract_files : String → Act S (Unit {0})
  extract_files scan_id = do
    call (update_job_status S clock scan_id extracting)
    infos ← (λ (w : World S). (polling.get_file_info scan_id w, w))
    call (update_extraction_info S clock scan_id (some (record_counts infos)))
    call (update_job_status S clock scan_id extracted)
    pure tt

  abbrev pub runtime_credentials : String → Act S (Dict Json)
  runtime_credentials scan_id w =
      or_raise (lookup scan_id w.credentials) (raised key_error scan_id) w

  abbrev run_job : String → Option (List String) → Job → Act S (Unit {0})
  run_job scan_id objects job =
      if job.status == cancelled
      then pure tt
      else if is_some job.extracted_at
      then pure tt
      else (runtime_credentials scan_id
          >>= polling.configure
          >> fetch scan_id (selected objects supported) job
          >> extract_files scan_id)

  abbrev pub run_found : String → Option (List String) → Option Job → Act S (Unit {0})
  run_found scan_id objects none = no_scan scan_id
  run_found scan_id objects (some job) = run_job scan_id objects job

  -- The body of the `try` block.
  unfoldable pub workflow_body : String → Option (List String) → Act S (Unit {0})
  workflow_body scan_id objects w = run_found scan_id objects (job_of scan_id w) w

  abbrev pub organization_of : Option Job → Option String
  organization_of none = none
  organization_of (some job) = job.organization_id

  unfoldable pub workflow_failed : String → (Exception → String) → Exception → Act S (Unit {0})
  workflow_failed scan_id text exc =
      if is_handled exc
      then (call (fail_job S clock scan_id (text exc)) >> (λ (w : World S).
          scan_event "scan_failed" "failure" scan_id (organization_of (job_of scan_id w))
            (some (take_text 4000 (text exc))) w))
      else raise exc

  -- `_execute_batch_workflow`
  unfoldable pub execute_batch_workflow :
      String → Option (List String) → (Exception → String) → Act S (Unit {0})
  execute_batch_workflow scan_id objects text =
      try_finally (try_except (workflow_body scan_id objects) (workflow_failed scan_id text))
        (drop_credentials scan_id)

  abbrev pub given_credentials : String → Option (Dict Json) → Act S (Unit {0})
  given_credentials scan_id none = pure tt
  given_credentials scan_id (some found) = set_credentials scan_id found

  abbrev pub need_credentials : String → Act S (Unit {0})
  need_credentials scan_id w = if is_some (lookup scan_id w.credentials) then (ok tt, w) else (
    err (
        raised runtime_error
          "Salesforce credentials must be supplied when resuming after a restart"),
    w,
  )

  abbrev pub start_again : String → JobStatus → Act S (Unit {0})
  start_again scan_id target = if target == extracted then pure tt else create_task scan_id none

  -- A job that was not stopped keeps its status.
  abbrev pub resume_found : String → Job → Act S JobStatus
  resume_found scan_id job =
      if job.status ∈? (failed ∷ cancelled ∷ [])
      then (call (resume_job S clock scan_id (resume_target job)) >>= λ resumed.
          or_raise resumed (raised runtime_error "scan cannot be resumed from its persisted state")
          >>= λ (now : Job). (start_again scan_id (resume_target job) >> pure now.status))
      else (start_again scan_id job.status >> pure job.status)

  abbrev pub resume_option : String → Option (Dict Json) → Option Job → Act S JobStatus
  resume_option scan_id found none = no_scan scan_id
  resume_option scan_id found (some job) =
      given_credentials scan_id found >> need_credentials scan_id >> resume_found scan_id job

  unfoldable pub resume_scan : String → Option (Dict Json) → Act S JobStatus
  resume_scan scan_id found w = resume_option scan_id found (job_of scan_id w) w

  -- One abort, whose failure is logged if it is of the classes that are caught.
  abbrev pub abort_one : Result (Unit {0}) → Act S (Unit {0})
  abort_one (ok u) = pure tt
  abort_one (err exc) = if is_abort_failure exc then pure tt else raise exc

  abbrev pub abort_item : BatchItem → Act S (Unit {0})
  abort_item item w =
      (if w.has_client then abort_one (polling.abort_job item.job_id w) else pure tt) w

  unfoldable pub abort_all : List BatchItem → Act S (Unit {0})
  abort_all [] = pure tt
  abort_all (item ∷ rest) = abort_item item >> abort_all rest

  abbrev pub after_cancel : String → Option String → Option Job → Act S (Option JobStatus)
  after_cancel scan_id organization_id updated = do
    (λ (w : World S). (ok tt, drop_credentials scan_id w))
    scan_event "scan_cancelled" "success" scan_id organization_id none
    pure (Option.map (λ (j : Job). j.status) updated)

  abbrev pub cancel_option : String → Option String → Option Job → Act S (Option JobStatus)
  cancel_option scan_id reason none = no_scan scan_id
  cancel_option scan_id reason (some job) = do
    abort_all (or_default job.batch_job_ids [])
    updated ← call (cancel_job S clock scan_id reason none)
    after_cancel scan_id job.organization_id updated

  unfoldable pub cancel_scan : String → Option String → Act S (Option JobStatus)
  cancel_scan scan_id reason w = cancel_option scan_id reason (job_of scan_id w) w

  abbrev pub delete_scan : String → Act S (Unit {0})
  delete_scan scan_id w = (
    ok tt,
    record w {
      directories = keep (λ d. not (d == scan_id)) w.directories;
      context = record (w.context) { state = S.delete w.context.state scan_id };
    },
  )

  abbrev pub remove_option : String → Option Job → Act S Bool
  remove_option scan_id none = pure false
  remove_option scan_id (some job) =
      if not (job.status ∈? (completed ∷ failed ∷ cancelled ∷ []))
      then raise (raised value_error "active scans cannot be removed")
      else (delete_scan scan_id
          >> scan_event "scan_removed" "success" scan_id job.organization_id none
          >> pure true)

  unfoldable pub remove_scan : String → Act S Bool
  remove_scan scan_id w = remove_option scan_id (job_of scan_id w) w
