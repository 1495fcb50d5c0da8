-- ===== src/Polling.antt =====
-- `BatchPollingService` of src/app/services/batch_polling_service.py, over the job service. The
-- clients are an interface: a call stands for the retried call, with what it gives in the end. Dead
-- letters go to `get_session_factory`, which is no session: they write nothing, and are left out.
pub mod Loop
pub mod Consistency
pub mod Scans
use salesforce_master_servic.Base.{
  ℕ, zero, suc, ◌+◌, ◌*◌, Bool, true, false, not, ◌&&◌, ◌||◌, Option, none, some, List, [], ◌∷◌,
  ◌++◌, map, if◌then◌else◌, leb, nat_eq, string_eq, ◌==◌, or_default, Dict, insert, String, ◌<>◌,
  show,
}
use salesforce_master_servic.Status.{
  status_eq, value, batch_requested, batch_processing, batch_ready, downloading, downloaded,
}
use salesforce_master_servic.Json.{◌or_else◌, get_field, Json, str, obj, Fields, end, field}
use salesforce_master_servic.Errors.{
  Result, value_error, runtime_error, timeout_error, raised, ok, err,
}
use salesforce_master_servic.Job.{BatchItem, Job}
use salesforce_master_servic.Session.{Session}
use salesforce_master_servic.JobService.{
  get_job, update_job_status, update_heartbeat, update_batch_info, update_download_info,
}
use salesforce_master_servic.Flow.{World, Act, pure, raise, ◌>>=◌, ◌>>◌, call, write_audit}
use salesforce_master_servic.Normalization.{FileInfo}
use salesforce_master_servic.Extraction.{PollingService, has_items}

pub record DownloadInfo : Type 0 where
  pub path : String
  pub file_size : ℕ

pub record BatchClient (S : Session) : Type 0 where
  -- `get_access_token` and the new client
  pub connect : Dict Json → World S → Result (Unit {0})
  -- The job id, and the state if there is one.
  pub create_query_job : String → World S → Result (String × Option Json)
  pub get_job_status : String → World S → Result Fields
  -- The pages of a job's results, saved under the scan and the object.
  pub download : String → String → String → World S → Result DownloadInfo
  pub abort_remote : String → World S → Result (Unit {0})
  pub file_info : String → World S → Result (List FileInfo)

abbrev pub is_text : String → Json → Bool
is_text text (str s) = s == text
is_text text value = false

-- `status.get("state", "Unknown")`
unfoldable pub state_of : Fields → Json
state_of end = str "Unknown"
state_of (field k v fs) = let rest = state_of fs in if k == "state" then v else rest

-- `states and states <= {"JobComplete"}`, over the statuses of all objects.
unfoldable pub all_complete : Dict Fields → Bool
all_complete [] = true
all_complete ((name, status) ∷ rest) =
    is_text "JobComplete" (get_field "state" status) && all_complete rest

abbrev pub is_ready : Dict Fields → Bool
is_ready [] = false
is_ready (s ∷ rest) = all_complete (s ∷ rest)

abbrev pub is_failed_state : Json → Bool
is_failed_state state = is_text "Failed" state || is_text "Aborted" state

-- `"; ".join(texts)`
abbrev pub joined : List String → String
joined [] = ""
joined (t ∷ []) = t
joined (t ∷ u ∷ rest) = t <> "; " <> joined (u ∷ rest)

module _ (S : Session) (clock : ℕ → ℕ) (client : BatchClient S) (formatted : Json → String) where
  abbrev pub asked : {A : Type 0} → (World S → Result A) → Act S A
  asked f w = (f w, w)

  abbrev pub external_event : String → String → String → Option String → Act S (Unit {0})
  external_event event_type outcome scan_id organization_id = write_audit (record {
    category = "external";
    event_type = event_type;
    outcome = outcome;
    organization_id = organization_id;
    resource_id = some scan_id;
    error_detail = none;
  })

  abbrev pub set_client : Act S (Unit {0})
  set_client w = (ok tt, record w { has_client = true })

  unfoldable pub configure : Dict Json → Act S (Unit {0})
  configure found = asked (client.connect found) >> set_client

  abbrev pub row_of : String → World S → Option Job
  row_of scan_id w = get_job S clock scan_id w.context

  -- One query job for each object, with the ids and states so far.
  unfoldable pub create_all :
      List String → List BatchItem × Dict Json → Act S (List BatchItem × Dict Json)
  create_all [] so_far = pure so_far
  create_all (object_name ∷ rest) so_far = do
    made ← asked (client.create_query_job object_name)
    create_all rest (
      so_far.0 ++ record { object_name = object_name; job_id = made.0 } ∷ [],
      insert object_name (or_default made.1 (str "UploadComplete")) so_far.1,
    )

  abbrev pub submit : String → List String → Option String → Act S (Unit {0})
  submit scan_id objects organization_id = do
    made ← create_all objects ([], [])
    call (update_batch_info S clock scan_id (some made.0) (some made.1))
    call (update_job_status S clock scan_id batch_processing)
    call (update_heartbeat S clock scan_id)
    external_event "batch_submission_success" "success" scan_id organization_id

  abbrev pub need_client : Act S (Unit {0})
  need_client w =
      if w.has_client
      then (ok tt, w)
      else (err (raised runtime_error "BatchPollingService is not configured"), w)

  abbrev pub organization : Option Job → Option String
  organization none = none
  organization (some job) = job.organization_id

  abbrev pub submit_in : String → List String → Act S (Unit {0})
  submit_in scan_id objects w = submit scan_id objects (organization (row_of scan_id w)) w

  unfoldable pub submit_batch_jobs : String → List String → Act S (Unit {0})
  submit_batch_jobs scan_id [] =
      raise (raised value_error "at least one Salesforce object is required")
  submit_batch_jobs scan_id (o ∷ objects) = do
    need_client
    call (update_job_status S clock scan_id batch_requested)
    submit_in scan_id (o ∷ objects)

  -- The statuses of the jobs by object, and a text for each that failed.
  unfoldable pub ask_all :
      List BatchItem → Dict Fields × List String → Act S (Dict Fields × List String)
  ask_all [] so_far = pure so_far
  ask_all (item ∷ rest) so_far = do
    status ← asked (client.get_job_status item.job_id)
    let state = state_of status
    let problem =
        item.object_name <> ": " <> formatted (get_field "error_message" status or_else state)
    ask_all rest (
      insert item.object_name status so_far.0,
      (if is_failed_state state then so_far.1 ++ problem ∷ [] else so_far.1),
    )

  abbrev pub as_values : Dict Fields → Dict Json
  as_values statuses = map (λ s. (s.0, obj s.1)) statuses

  abbrev pub conclude : String → Job → Dict Fields → List String → Act S Bool
  conclude scan_id job statuses [] =
      if is_ready statuses
      then (call (update_job_status S clock scan_id batch_ready) >> pure true)
      else pure false
  conclude scan_id job statuses (p ∷ problems) =
      external_event "batch_failure" "failure" scan_id job.organization_id
      >> raise (raised runtime_error ("Salesforce batch failure: " <> joined (p ∷ problems)))

  abbrev pub check_job : String → Job → List BatchItem → Act S Bool
  check_job scan_id job items = do
    found ← ask_all items ([], [])
    call (update_batch_info S clock scan_id none (some (as_values found.0)))
    call (update_heartbeat S clock scan_id)
    conclude scan_id job found.0 found.1

  abbrev pub unavailable : String → Act S Bool
  unavailable scan_id = raise (raised value_error ("batch jobs unavailable for scan " <> scan_id))

  abbrev pub check_found : String → Option Job → Bool → Act S Bool
  check_found scan_id none connected = unavailable scan_id
  check_found scan_id (some job) connected =
      if not (has_items job.batch_job_ids) || not connected
      then unavailable scan_id
      else check_job scan_id job (or_default job.batch_job_ids [])

  -- Whether the batch is ready.
  unfoldable pub check_and_update_status : String → Act S Bool
  check_and_update_status scan_id w = check_found scan_id (row_of scan_id w) w.has_client w

  abbrev pub timed_out : ℕ → Result (Unit {0})
  timed_out minutes = err (
      raised timeout_error
        ("Salesforce batch jobs did not complete within " <> show minutes <> " minutes"))

  -- What the loop does with an answer: it raises, returns, or goes on.
  abbrev pub after_check :
      Result Bool
      → World S
      → Option (Result (Unit {0}) × World S)
      → Option (Result (Unit {0}) × World S)
  after_check (err exc) w again = some (err exc, w)
  after_check (ok true) w again = some (ok tt, w)
  after_check (ok false) w again = again

  -- `while time.monotonic() <= deadline`, with fuel; `none` is a loop that is still running. The n-th
  -- reading of the clock, in seconds, is `monotonic n`.
  unfoldable pub poll_loop :
      (ℕ → ℕ) → ℕ → ℕ → ℕ → ℕ → String → World S → Option (Result (Unit {0}) × World S)
  poll_loop monotonic minutes deadline zero n scan_id w = none
  poll_loop monotonic minutes deadline (suc fuel) n scan_id w =
      let again =
        poll_loop monotonic minutes deadline fuel (n + 1) scan_id
          (check_and_update_status scan_id w).1 in
      if leb (monotonic n) deadline
      then after_check (check_and_update_status scan_id w).0 (check_and_update_status scan_id w).1
          again
      else some (timed_out minutes, w)

  unfoldable pub poll_until_ready :
      (ℕ → ℕ) → ℕ → ℕ → String → World S → Option (Result (Unit {0}) × World S)
  poll_until_ready monotonic minutes fuel scan_id w =
      poll_loop monotonic minutes (monotonic 0 + minutes * 60) fuel 1 scan_id w

  -- The outcome of the loop; with too little fuel, as if the time were up.
  abbrev pub poll_outcome :
      ℕ → Option (Result (Unit {0}) × World S) → World S → Result (Unit {0}) × World S
  poll_outcome minutes none w = (timed_out minutes, w)
  poll_outcome minutes (some r) w = r

  -- The files of the items, with the paths and sizes so far.
  unfoldable pub download_all :
      String → List BatchItem → Dict String × Dict ℕ → Act S (Dict String × Dict ℕ)
  download_all scan_id [] so_far = pure so_far
  download_all scan_id (item ∷ rest) so_far = do
    info ← asked (client.download scan_id item.job_id item.object_name)
    call (update_heartbeat S clock scan_id)
    download_all scan_id rest (
      insert item.object_name info.path so_far.0,
      insert item.object_name info.file_size so_far.1,
    )

  abbrev pub download_found : String → Option Job → Act S (Unit {0})
  download_found scan_id none = raise (raised value_error ("scan " <> scan_id <> " not found"))
  download_found scan_id (some job) = do
    found ← download_all scan_id (or_default job.batch_job_ids []) ([], [])
    call (update_download_info S clock scan_id (some found.0) (some found.1))
    call (update_job_status S clock scan_id downloaded)
    pure tt

  abbrev pub download_in : String → Act S (Unit {0})
  download_in scan_id w = download_found scan_id (row_of scan_id w) w

  unfoldable pub download_results : String → Act S (Unit {0})
  download_results scan_id = do
    need_client
    call (update_job_status S clock scan_id downloading)
    download_in scan_id

  -- The service as the extraction uses it.
  unfoldable pub polling_service : (ℕ → ℕ) → ℕ → ℕ → PollingService S
  polling_service monotonic minutes fuel = record {
    configure = configure;
    submit_batch_jobs = submit_batch_jobs;
    poll_until_ready = λ i w. poll_outcome minutes (poll_until_ready monotonic minutes fuel i w) w;
    download_results = download_results;
    abort_job = client.abort_remote;
    get_file_info = client.file_info;
  }
