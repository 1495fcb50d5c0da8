-- ===== src/Routes.antt =====
-- The scan routes, src/app/api/routes/scan.py, and those of normalization.py and maintenance.py
-- beside it that change jobs, behind the request signing and in front of the handler of exceptions
-- of src/app/main.py. Every request makes services of its own: without a
-- client of Salesforce, and without the credentials of earlier requests.
pub mod Services
pub mod Credentials
use salesforce_master_servic.Base.{
  ℕ, Bool, true, false, not, Option, none, some, List, [], Dict, update, length, String, ◌<>◌,
}
use salesforce_master_servic.Json.{Json}
use salesforce_master_servic.Errors.{
  Exception, Result, value_error, runtime_error, file_not_found, raised, ok, err,
}
use salesforce_master_servic.Status.{JobStatus}
use salesforce_master_servic.Job.{Job}
use salesforce_master_servic.Session.{Session}
use salesforce_master_servic.JobService.{get_job}
use salesforce_master_servic.JobService.Queries.{
  get_pipeline_progress, list_jobs, detect_crashed_jobs, cleanup_old_jobs,
}
use salesforce_master_servic.Utils.{PaginationInfo, build_pagination_info}
use salesforce_master_servic.Flow.{World, Act}
use salesforce_master_servic.Extraction.{
  PollingService, ScanStartRequest, start_scan, resume_scan, cancel_scan, remove_scan,
}
use salesforce_master_servic.Hmac.{
  Request, HmacSettings, Times, Verdict, AuthState, accepted, rejected, verify_hmac,
}
use salesforce_master_servic.Normalization.{
  NormalizationFiles, NormalizeOptions, NormalizationSummary, normalize_scan,
}

-- What a route sends: an answer, or an `HTTPException` with its status and detail.
pub data Reply {ℓ} (A : Type ℓ) : Type ℓ where
  answer : A → Reply A
  http_exception : ℕ → String → Reply A

-- `_unhandled_exception_handler`
abbrev pub unhandled {ℓ} : {A : Type ℓ} → Reply A
unhandled = http_exception 500 "internal server error"

-- The handlers of the routes, by the class of the exception.
unfoldable pub cancel_error {ℓ} : {A : Type ℓ} → Exception → Reply A
cancel_error (raised value_error text) = http_exception 404 text
cancel_error _ = unhandled

unfoldable pub resume_error {ℓ} : {A : Type ℓ} → Exception → Reply A
resume_error (raised value_error text) = http_exception 404 text
resume_error (raised runtime_error text) = http_exception 409 text
resume_error _ = unhandled

unfoldable pub remove_error {ℓ} : {A : Type ℓ} → Exception → Reply A
remove_error (raised value_error text) = http_exception 409 text
remove_error _ = unhandled

unfoldable pub normalize_error {ℓ} : {A : Type ℓ} → Exception → Reply A
normalize_error (raised file_not_found text) = http_exception 404 text
normalize_error (raised value_error text) = http_exception 409 text
normalize_error _ = unhandled

module _ (S : Session) where
  -- The services of a new request, in the world as it is.
  abbrev pub new_services : World S → World S
  new_services w = record w { has_client = false; credentials = [] }

  -- Back in the world: the services of the tasks that were started before keep what they have.
  abbrev pub left_by : World S → World S → World S
  left_by before after = record after {
    has_client = before.has_client;
    credentials = update before.credentials after.credentials;
  }

  abbrev pub reply_with : {A : Type 0} → (Exception → Reply A) → Result A → Reply A
  reply_with handler (ok a) = answer a
  reply_with handler (err exc) = handler exc

  -- A route that calls a method of new services.
  abbrev pub served : {A : Type 0} → Act S A → (Exception → Reply A) → World S → Reply A × World S
  served method handler w =
      (reply_with handler (method (new_services w)).0, left_by w (method (new_services w)).1)

module _ (S : Session) (clock : ℕ → ℕ) (iso : ℕ → String) (polling : PollingService S)
    (supported : List String) where
  unfoldable pub start_route :
      String → ScanStartRequest → World S → Reply (String × JobStatus) × World S
  start_route scan_id request =
      served S (start_scan S clock polling supported scan_id request) (λ _. unhandled)

  unfoldable pub cancel_route : String → World S → Reply (Option JobStatus) × World S
  cancel_route scan_id = served S (cancel_scan S clock polling supported scan_id none) cancel_error

  unfoldable pub resume_route : String → Option (Dict Json) → World S → Reply JobStatus × World S
  resume_route scan_id found =
      served S (resume_scan S clock polling supported scan_id found) resume_error

  unfoldable pub remove_route : String → World S → Reply Bool × World S
  remove_route scan_id = served S (remove_scan S clock polling supported scan_id) remove_error

  -- The status page: the row and its progress.
  unfoldable pub status_route : String → World S → Reply (Job × Dict Json)
  status_route scan_id w = elim (get_job S clock scan_id w.context) [
    | none ↦ http_exception 404 ("scan " <> scan_id <> " not found")
    | some job ↦ answer (job, get_pipeline_progress S clock iso scan_id w.context)
  ]

  -- The page of the list, with its paging. FastAPI takes a page from 1, and a size from 1 to 100.
  unfoldable pub list_route : Option String → ℕ → ℕ → World S → List Job × Option PaginationInfo
  list_route organization_id page page_size w =
      let (items, total) = list_jobs S clock iso organization_id none page page_size w.context in
      (items, build_pagination_info page page_size total)

  -- `dependencies=[Depends(hmac_auth_required)]`: the route runs where the request is accepted.
  abbrev pub behind :
      {A : Type 0} → Verdict → (World S → Reply A × World S) → World S → Reply A × World S
  behind (accepted auth) route w = route w
  behind (rejected status reason) route w = (http_exception status reason, w)

  unfoldable pub guarded :
      {A : Type 0}
      → (List ℕ → String)
      → (String → String → String)
      → HmacSettings
      → Times
      → Request
      → (World S → Reply A × World S)
      → AuthState × World S
      → Reply A × AuthState × World S
  guarded sha256 hmac_sha256 settings times request route (state, w) =
      let (verdict, state') = verify_hmac sha256 hmac_sha256 settings times request true state in
      let (reply, w') = behind verdict route w in (reply, state', w')

-- The routes of src/app/api/routes/normalization.py and maintenance.py that change jobs.
module _ (S : Session) (clock : ℕ → ℕ) (iso : ℕ → String) where
  unfoldable pub normalize_route :
      NormalizationFiles S
      → (Exception → String)
      → String
      → NormalizeOptions
      → World S
      → Reply NormalizationSummary × World S
  normalize_route files text scan_id options w =
      let (result, w') = normalize_scan S clock files scan_id options text w in
      (reply_with S normalize_error result, w')

  -- FastAPI takes at least one day.
  unfoldable pub cleanup_route : ℕ → World S → ℕ × World S
  cleanup_route days_old w =
      let (deleted, context) = cleanup_old_jobs S clock iso days_old w.context in
      (deleted, record w { context = context })

  -- The scans that crashed and their number; FastAPI takes at least one minute.
  unfoldable pub detect_route : ℕ → World S → (List String × ℕ) × World S
  detect_route timeout_minutes w =
      let (crashed, context) = detect_crashed_jobs S clock iso timeout_minutes w.context in
      ((crashed, length crashed), record w { context = context })
