-- ===== src/BatchApi/Jobs.antt =====
-- The requests on one job of src/app/salesforce/batch_api_client.py.
use salesforce_master_servic.Base.{
  ℕ, not, Option, none, some, List, [], ◌∷◌, if◌then◌else◌, nat_eq, string_eq, ◌==◌, ◌∈?◌, String,
  ◌<>◌, strip, take_text, ℤ,
}
use salesforce_master_servic.Json.{
  truthy, ◌or_else◌, get_field, get_field_or, Json, str, obj, Fields, end, field,
}
use salesforce_master_servic.Errors.{Result, plain, salesforce_error, server_error, ok, err}
use salesforce_master_servic.Auth.{Outside}
use salesforce_master_servic.BatchApi.{
  Client, Network, refuse, validate_job_id, safe_int, text_of, request,
}

-- What `create_query_job` returns.
pub record CreatedJob : Type 0 where
  pub job_id : Json
  pub operation : Json
  pub object : Json
  pub state : Json
  pub created_date : Json
  pub system_modstamp : Json
  pub concurrency_mode : Json
  pub content_type : Json
  pub api_version : Json
  pub raw : Json

-- What `get_job_status` returns.
pub record JobStatusReport : Type 0 where
  pub job_id : Json
  pub operation : Json
  pub object : Json
  pub state : Json
  pub external_id_field_name : Json
  pub concurrency_mode : Json
  pub content_type : Json
  pub job_type : Json
  pub number_records_processed : Json
  pub number_records_failed : Json
  pub retries : Json
  pub total_processing_time : Json
  pub api_active_processing_time : Json
  pub apex_processing_time : Json
  pub error_message : Json
  pub created_date : Json
  pub system_modstamp : Json
  pub api_version : Json
  pub raw : Json

-- What `abort_job` and `close_job` return.
pub record PatchedJob : Type 0 where
  pub job_id : Json
  pub state : Json
  pub raw : Json

abbrev pub valid_operations : List String
valid_operations = "query" ∷ "queryAll" ∷ []

abbrev after {ℓ} : {A B : Type ℓ} → Result A → (A → Result B) → Result B
after (ok a) f = f a
after (err exc) f = err exc

module _ (outside : Outside) (repr : String → String) (truncated : String → Option ℤ) where
  abbrev raw_text : Json → Json
  raw_text value = obj (field "raw" (str (take_text 500 (text_of outside value))) end)

  abbrev server_failure {ℓ} : {A : Type ℓ} → String → Json → Result A
  server_failure message payload =
      err (salesforce_error server_error message (record plain { given_payload = payload }))

  abbrev pub created : Client → String → String → Json → Result CreatedJob
  created client object_name operation (obj fs) =
      if truthy (get_field "id" fs or_else get_field "jobId" fs)
      then ok (record {
        job_id = get_field "id" fs or_else get_field "jobId" fs;
        operation = get_field "operation" fs or_else str operation;
        object = get_field "object" fs or_else str object_name;
        state = get_field_or (str "Unknown") "state" fs;
        created_date = get_field "createdDate" fs;
        system_modstamp = get_field "systemModstamp" fs;
        concurrency_mode = get_field "concurrencyMode" fs;
        content_type = get_field "contentType" fs;
        api_version = get_field "apiVersion" fs or_else str client.api_version;
        raw = obj fs;
      })
      else server_failure "Salesforce Bulk API create_query_job response missing id" (obj fs)
  created client object_name operation payload =
      server_failure "Salesforce Bulk API create_query_job returned invalid payload"
        (raw_text payload)

  abbrev job_body : String → String → String → String → Json
  job_body operation soql column_delimiter line_ending = obj (
      field "operation" (str operation) (
        field "query" (str soql) (
          field "contentType" (str "CSV") (
            field "columnDelimiter" (str column_delimiter)
              (field "lineEnding" (str line_ending) end)))))

  unfoldable pub create_query_job :
      Network → Client → ℕ → String → String → String → String → String → Result CreatedJob
  create_query_job network client elapsed_ms object_name soql operation column_delimiter
        line_ending =
      let operation_clean = strip (if operation == "" then "query" else operation) in
      if object_name == ""
      then refuse "object_name is required"
      else if strip soql == ""
      then refuse "soql is required and must be a non-empty string"
      else if not (operation_clean ∈? valid_operations)
      then refuse ("operation must be one of ['query', 'queryAll']; got " <> repr operation_clean)
      else after
          (request outside network client elapsed_ms "POST" "/jobs/query"
            (some (job_body operation_clean soql column_delimiter line_ending))
            (("Content-Type", "application/json") ∷ []))
          (created client object_name operation_clean)

  abbrev pub reported : Client → String → Json → Result JobStatusReport
  reported client job_id (obj fs) = ok (record {
    job_id = get_field "id" fs or_else str job_id;
    operation = get_field "operation" fs;
    object = get_field "object" fs;
    state = get_field_or (str "Unknown") "state" fs;
    external_id_field_name = get_field "externalIdFieldName" fs;
    concurrency_mode = get_field "concurrencyMode" fs;
    content_type = get_field "contentType" fs;
    job_type = get_field "jobType" fs;
    number_records_processed = safe_int truncated (get_field "numberRecordsProcessed" fs);
    number_records_failed = safe_int truncated (get_field "numberRecordsFailed" fs);
    retries = safe_int truncated (get_field "retries" fs);
    total_processing_time = safe_int truncated (get_field "totalProcessingTime" fs);
    api_active_processing_time = safe_int truncated (get_field "apiActiveProcessingTime" fs);
    apex_processing_time = safe_int truncated (get_field "apexProcessingTime" fs);
    error_message = get_field "errorMessage" fs;
    created_date = get_field "createdDate" fs;
    system_modstamp = get_field "systemModstamp" fs;
    api_version = get_field "apiVersion" fs or_else str client.api_version;
    raw = obj fs;
  })
  reported client job_id payload =
      server_failure
        ("Salesforce Bulk API get_job_status returned invalid payload for job_id=" <> job_id)
        (raw_text payload)

  unfoldable pub get_job_status : Network → Client → ℕ → String → Result JobStatusReport
  get_job_status network client elapsed_ms job_id = after (validate_job_id job_id) (λ _.
      after (request outside network client elapsed_ms "GET" ("/jobs/query/" <> job_id) none [])
        (reported client job_id))

  abbrev patched_fields : Json → Fields
  patched_fields (obj fs) = fs
  patched_fields value = field "raw" (str (take_text 500 (text_of outside value))) end

  abbrev patched : String → String → Json → Result PatchedJob
  patched job_id state payload = ok (record {
    job_id = get_field "id" (patched_fields payload) or_else str job_id;
    state = get_field_or (str state) "state" (patched_fields payload);
    raw = obj (patched_fields payload);
  })

  unfoldable pub patch_job_state : Network → Client → ℕ → String → String → Result PatchedJob
  patch_job_state network client elapsed_ms job_id state = after (validate_job_id job_id) (λ _.
      if not (state ∈? ("Aborted" ∷ "Closed" ∷ []))
      then refuse ("Invalid job state transition target: " <> state)
      else after
          (request outside network client elapsed_ms "PATCH" ("/jobs/query/" <> job_id)
            (some (obj (field "state" (str state) end)))
            (("Content-Type", "application/json; charset=UTF-8") ∷ []))
          (patched job_id state))

  unfoldable pub abort_job : Network → Client → ℕ → String → Result PatchedJob
  abort_job network client elapsed_ms job_id =
      patch_job_state network client elapsed_ms job_id "Aborted"

  unfoldable pub close_job : Network → Client → ℕ → String → Result PatchedJob
  close_job network client elapsed_ms job_id =
      patch_job_state network client elapsed_ms job_id "Closed"
