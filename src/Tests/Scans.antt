-- ===== src/Tests/Scans.antt =====
-- Scans, at concrete inputs, in memory.
use salesforce_master_servic.Json.{get_field, Json, str, end, field}
use salesforce_master_servic.Normalization.{
  NormalizationFiles, NormalizeOptions, normalize_body, normalize_failed, normalize_scan,
}
use salesforce_master_servic.Normalization.Outcomes.{normalize_scan-stops}
use salesforce_master_servic.Extraction.Failures.{execute_batch_workflow-ends}
use salesforce_master_servic.Base.{
  ℕ, ◌*◌, ◌≡◌, refl, ◌⊎◌, true, false, none, some, List, [], ◌∷◌, arith, is_some, or_default,
  lookup, insert, erase, String,
}
use salesforce_master_servic.Status.{is_terminal, is_valid_transition, extracted}
use salesforce_master_servic.Errors.{Exception, os_error, timeout_error, raised, ok, err}
use salesforce_master_servic.Job.{Job}
use salesforce_master_servic.Session.Memory.{memory, memory-IsLawful}
use salesforce_master_servic.JobService.{
  get_job, update_job_status, resume_job, update_heartbeat, fail_job, cancel_job, update_batch_info,
  update_download_info, update_extraction_info, start_normalization,
}
use salesforce_master_servic.JobService.Steps.{IsConsistent}
use salesforce_master_servic.Flow.{World, pure, raise}
use salesforce_master_servic.Extraction.{
  PollingService, is_handled, resume_target, fetch, extract_files, workflow_body, workflow_failed,
  execute_batch_workflow, resume_scan, abort_all, cancel_scan,
}
use salesforce_master_servic.Extraction.Operations.{
  ScanOperation, run, resume_one, cancel_one, operate, operate_all,
}
use salesforce_master_servic.Tests.Jobs.{clock, iso, fresh_job, table, table-AllConsistent}
use salesforce_master_servic.Polling.{
  BatchClient, state_of, all_complete, configure, create_all, submit_batch_jobs, ask_all,
  check_and_update_status, poll_loop, poll_until_ready, download_all, download_results,
  polling_service,
}
use salesforce_master_servic.Polling.Loop.{poll_until_ready-ends}
use salesforce_master_servic.Polling.Scans.{scans-IsSound}
use salesforce_master_servic.Routes.{http_exception, cancel_route, resume_route}
use salesforce_master_servic.Routes.Services.{cancel_resume_lem}

abbrev text : Exception → String
text exc = "failed"

-- Salesforce does not answer.
abbrev polling : PollingService memory
polling = record {
  configure = λ found. pure tt;
  submit_batch_jobs = λ i objects. raise (raised timeout_error "no answer");
  poll_until_ready = λ i. pure tt;
  download_results = λ i. pure tt;
  abort_job = λ i w. ok tt;
  get_file_info = λ i w. ok [];
}

abbrev world : World memory
world = record {
  context = table;
  audit = [];
  has_client = true;
  credentials = ("scan-1", []) ∷ [];
  tasks = [];
  directories = [];
}

-- Every batch is complete at the first question, and the clock jumps by 5000 seconds.
abbrev client : BatchClient memory
client = record {
  connect = λ found w. ok tt;
  create_query_job = λ o w. ok ("750", none);
  get_job_status = λ i w. ok (field "state" (str "JobComplete") end);
  download = λ scan i o w. ok (record { path = "a.csv"; file_size = 3 });
  abort_remote = λ i w. err (raised timeout_error "no answer");
  file_info = λ i w. ok [];
}

abbrev jumps : ℕ → ℕ
jumps n = n * 5000

abbrev shown : Json → String
shown j = "state"

abbrev operations : List ScanOperation
operations =
    run "scan-1" (some ("Account" ∷ []))
    ∷ cancel_one "scan-2" none
    ∷ resume_one "scan-2" (some [])
    ∷ []

abbrev after_operations : World memory
after_operations =
    operate_all memory clock iso memory-IsLawful
      (polling_service memory clock client shown jumps 120 2) ("Account" ∷ []) text operations world

abbrev last_job : Job
unfolding memory operate operate_all execute_batch_workflow workflow_body workflow_failed fail_job
    resume_scan resume_job cancel_scan cancel_job abort_all fetch get_job resume_target lookup
    is_handled insert erase polling_service configure submit_batch_jobs update_job_status
    is_valid_transition create_all poll_until_ready poll_loop check_and_update_status
    update_heartbeat update_batch_info ask_all state_of all_complete get_field download_results
    download_all extract_files update_extraction_info update_download_info
last_job = or_default (memory.get after_operations.context.state "scan-2") fresh_job

scans-IsSound_example : IsConsistent last_job
unfolding memory operate operate_all execute_batch_workflow workflow_body workflow_failed fail_job
    resume_scan resume_job cancel_scan cancel_job abort_all fetch get_job resume_target lookup
    is_handled insert erase polling_service configure submit_batch_jobs update_job_status
    is_valid_transition create_all poll_until_ready poll_loop check_and_update_status
    update_heartbeat update_batch_info ask_all state_of all_complete get_field download_results
    download_all extract_files update_extraction_info update_download_info
scans-IsSound_example =
    scans-IsSound memory clock iso memory-IsLawful client shown jumps 120 2 ("Account" ∷ []) text
      operations world table-AllConsistent "scan-2" last_job refl

poll_until_ready-ends_example :
    is_some (poll_until_ready memory clock client shown jumps 120 2 "scan-1" world) ≡ true
poll_until_ready-ends_example =
    poll_until_ready-ends memory clock client shown jumps 120 "scan-1" 1 2 world (omega arith)
      (omega arith)

execute_batch_workflow-ends_example :
    (lookup "scan-1"
        (execute_batch_workflow memory clock polling [] "scan-1" none text world).1.credentials
      ≡ none)
    × (((true ≡ true)
          × ((execute_batch_workflow memory clock polling [] "scan-1" none text world).0 ≡ ok tt)
          × ((job : Job)
              → memory.get
                  (execute_batch_workflow memory clock polling [] "scan-1" none text
                    world).1.context.state
                  "scan-1"
                ≡ some job
              → is_terminal job.status ≡ true))
        ⊎ ((true ≡ false)
            × ((execute_batch_workflow memory clock polling [] "scan-1" none text world).0
                ≡ err (raised timeout_error "no answer"))
            × ((execute_batch_workflow memory clock polling [] "scan-1" none text world).1.context
                ≡ (workflow_body memory clock polling [] "scan-1" none world).1.context)))
unfolding memory workflow_body fetch get_job lookup is_handled
execute_batch_workflow-ends_example =
    execute_batch_workflow-ends memory clock memory-IsLawful polling [] "scan-1" none text world
      (raised timeout_error "no answer") refl

abbrev no_files : NormalizationFiles memory
no_files = record {
  get_file_info = λ i w. err (raised os_error "disk");
  read_csv_file = λ path w. ok [];
  save_to_files = λ tables i format w. ok [];
  upload_normalized_data = λ i organization date paths w. ok [];
}

abbrev to_disk : NormalizeOptions
to_disk = record {
  output_format = "json";
  save_to_disk = true;
  upload_to_minio = false;
  date = "2026-01-01";
}

abbrev extracted_job : Job
extracted_job = record fresh_job { status = extracted }

abbrev extracted_world : World memory
unfolding memory
extracted_world = record world { context = record { state = extracted_job ∷ []; reads = 9 } }

abbrev stopped_job : Job
unfolding memory normalize_scan normalize_body normalize_failed get_job fail_job
stopped_job =
    or_default
      (memory.get
        (normalize_scan memory clock no_files "scan-2" to_disk text extracted_world).1.context.state
        "scan-2")
      fresh_job

normalize_scan-stops_example : is_terminal stopped_job.status ≡ true
unfolding memory normalize_scan normalize_body normalize_failed get_job fail_job start_normalization
    update_heartbeat update_job_status is_valid_transition
normalize_scan-stops_example =
    normalize_scan-stops memory clock memory-IsLawful no_files "scan-2" to_disk text extracted_world
      extracted_job (raised os_error "disk") refl refl refl refl stopped_job refl

abbrev first_job : Job
unfolding memory
first_job = or_default (memory.get table.state "scan-1") fresh_job

first_row : get_job memory clock "scan-1" world.context ≡ some first_job
unfolding memory get_job
first_row = refl

cancel_resume_lem_example :
    (cancel_route memory clock iso polling ("Account" ∷ []) "scan-1" world
      ≡ cancel_route memory clock iso
          (polling_service memory clock client shown jumps 120 2)
          ("Account" ∷ [])
          "scan-1"
          world)
    × (resume_route memory clock iso polling ("Account" ∷ []) "scan-1" none world ≡ (
      http_exception 409 "Salesforce credentials must be supplied when resuming after a restart",
      world,
    ))
cancel_resume_lem_example =
    cancel_resume_lem memory clock iso ("Account" ∷ []) polling
      (polling_service memory clock client shown jumps 120 2) "scan-1" world first_job first_row
