-- ===== src/Flow/Keeps.antt =====
-- Predicates that the steps of a flow keep, and the steps that call the job service,
-- src/app/services/job_service.py.
use salesforce_master_servic.Base.{
  ℕ, ◌≡◌, refl, sym, subst, ◌≢◌, Bool, true, false, Option, none, some, List, if◌then◌else◌, Dict,
  String,
}
use salesforce_master_servic.Json.{Json}
use salesforce_master_servic.Errors.{Exception, Result, ok, err}
use salesforce_master_servic.Status.{JobStatus, normalizing, uploading_to_minio, completed}
use salesforce_master_servic.Job.{BatchItem, Job}
use salesforce_master_servic.Session.{Session, IsLawful}
use salesforce_master_servic.JobService.{
  Context, create_job, update_job_status, resume_job, update_heartbeat, fail_job, cancel_job,
  update_batch_info, update_download_info, update_extraction_info, start_normalization,
  complete_normalization, start_minio_upload, complete_minio_upload,
}
use salesforce_master_servic.JobService.History.{
  Call, IsAllowed, create, set_status, beat, fail_with, cancel_with, batch, downloads, extraction,
  finish_normalization, finish_upload, perform, AllConsistent, perform-AllConsistent,
}
use salesforce_master_servic.Flow.{
  World, Act, pure, raise, after_result, ◌>>=◌, ◌>>◌, call, or_raise, handle, try_except,
}

module _ {S : Session} (P : World S → Type 0) where
  unfoldable pub Keeps : {A : Type 0} → Act S A → Type 0
  Keeps m = (w : World S) → P w → P (m w).1

  pub pure-Keeps : {A : Type 0} (a : A) → Keeps (pure a)
  unfolding Keeps
  pure-Keeps a w h = h

  pub raise-Keeps : (A : Type 0) (exc : Exception) → Keeps (raise {A = A} exc)
  unfolding Keeps
  raise-Keeps A exc w h = h

  after_result-Keeps :
      {A B : Type 0} (r : Result A) (f : A → Act S B)
      → ((a : A) → Keeps (f a))
      → Keeps (after_result r f)
  unfolding Keeps
  after_result-Keeps (ok a) f h = h a
  after_result-Keeps (err exc) f h = λ w p. p

  pub bind-Keeps :
      {A B : Type 0} (m : Act S A) (f : A → Act S B)
      → Keeps m
      → ((a : A) → Keeps (f a))
      → Keeps (m >>= f)
  unfolding Keeps
  bind-Keeps m f h k w p = after_result-Keeps (m w).0 f k (m w).1 (h w p)

  pub then-Keeps : {A B : Type 0} (m : Act S A) (n : Act S B) → Keeps m → Keeps n → Keeps (m >> n)
  then-Keeps m n h k = bind-Keeps m (λ _. n) h (λ _. k)

  pub if-Keeps :
      {A : Type 0} (b : Bool) (m n : Act S A) → Keeps m → Keeps n → Keeps (if b then m else n)
  if-Keeps true m n h k = h
  if-Keeps false m n h k = k

  handle-Keeps :
      {A : Type 0} (r : Result A) (handler : Exception → Act S A)
      → ((exc : Exception) → Keeps (handler exc))
      → Keeps (handle r handler)
  unfolding Keeps
  handle-Keeps (ok a) handler h = λ w p. p
  handle-Keeps (err exc) handler h = h exc

  pub try_except-Keeps :
      {A : Type 0} (body : Act S A) (handler : Exception → Act S A)
      → Keeps body
      → ((exc : Exception) → Keeps (handler exc))
      → Keeps (try_except body handler)
  unfolding Keeps
  try_except-Keeps body handler h k w p = handle-Keeps (body w).0 handler k (body w).1 (h w p)

  pub or_raise-Keeps : {A : Type 0} (o : Option A) (exc : Exception) → Keeps (or_raise o exc)
  or_raise-Keeps none exc = raise-Keeps _ exc
  or_raise-Keeps (some a) exc = pure-Keeps a

module _ (S : Session) (clock : ℕ → ℕ) (iso : ℕ → String) (L : IsLawful S) where
  -- Every job of the world has a completion time exactly when its status is terminal.
  abbrev pub IsSound : World S → Type 0
  IsSound w = AllConsistent S clock iso L w.context

  pub called-IsSound :
      (c : Call) (method : Context S → Option Job × Context S)
      → IsAllowed c
      → ((x : Context S) → (method x).1 ≡ perform S clock iso c x)
      → Keeps IsSound (call method)
  unfolding Keeps
  called-IsSound c method allowed same w h =
      subst (λ (x : Context S). AllConsistent S clock iso L x) (sym (same w.context))
        (perform-AllConsistent S clock iso L c w.context allowed h)

  -- A step that leaves the jobs as they are.
  pub untouched-IsSound :
      {A : Type 0} (m : Act S A) → ((w : World S) → (m w).1.context ≡ w.context) → Keeps IsSound m
  unfolding Keeps
  untouched-IsSound m same w h =
      subst (λ (x : Context S). AllConsistent S clock iso L x) (sym (same w)) h

  pub status-IsSound :
      (i : String) (status : JobStatus) → Keeps IsSound (call (update_job_status S clock i status))
  unfolding perform
  status-IsSound i status = called-IsSound (set_status i status) _ tt (λ x. refl)

  pub heartbeat-IsSound : (i : String) → Keeps IsSound (call (update_heartbeat S clock i))
  unfolding perform
  heartbeat-IsSound i = called-IsSound (beat i) _ tt (λ x. refl)

  pub fail_job-IsSound : (i error : String) → Keeps IsSound (call (fail_job S clock i error))
  unfolding perform
  fail_job-IsSound i error = called-IsSound (fail_with i error) _ tt (λ x. refl)

  pub start_normalization-IsSound :
      (i : String) → Keeps IsSound (call (start_normalization S clock i))
  unfolding perform start_normalization
  start_normalization-IsSound i = status-IsSound i normalizing

  pub start_minio_upload-IsSound :
      (i : String) → Keeps IsSound (call (start_minio_upload S clock i))
  unfolding perform start_minio_upload
  start_minio_upload-IsSound i = status-IsSound i uploading_to_minio

  pub complete_normalization-IsSound :
      (i : String) (stats : Option (Dict ℕ))
      → Keeps IsSound (call (complete_normalization S clock i stats))
  unfolding perform
  complete_normalization-IsSound i stats =
      called-IsSound (finish_normalization i stats) _ tt (λ x. refl)

  pub complete_minio_upload-IsSound :
      (i : String) (keys : Option (Dict String))
      → Keeps IsSound (call (complete_minio_upload S clock i keys))
  unfolding perform
  complete_minio_upload-IsSound i keys = called-IsSound (finish_upload i keys) _ tt (λ x. refl)

  pub update_extraction_info-IsSound :
      (i : String) (found : Option (Dict ℕ))
      → Keeps IsSound (call (update_extraction_info S clock i found))
  unfolding perform
  update_extraction_info-IsSound i found = called-IsSound (extraction i found) _ tt (λ x. refl)

  pub create_job-IsSound :
      (i : String) (org : Option String) (config : Option (Dict Json))
      → Keeps IsSound (call (create_job S clock i org config))
  unfolding perform
  create_job-IsSound i org config = called-IsSound (create i org config) _ tt (λ x. refl)

  pub cancel_job-IsSound :
      (i : String) (reason actor : Option String)
      → Keeps IsSound (call (cancel_job S clock i reason actor))
  unfolding perform
  cancel_job-IsSound i reason actor = called-IsSound (cancel_with i reason actor) _ tt (λ x. refl)

  pub resume_job-IsSound :
      (i : String) (status : JobStatus)
      → status ≢ completed
      → Keeps IsSound (call (resume_job S clock i status))
  unfolding perform
  resume_job-IsSound i status h = called-IsSound (Call.resume i status) _ h (λ x. refl)

  pub update_batch_info-IsSound :
      (i : String) (ids : Option (List BatchItem)) (statuses : Option (Dict Json))
      → Keeps IsSound (call (update_batch_info S clock i ids statuses))
  unfolding perform
  update_batch_info-IsSound i ids statuses = called-IsSound (batch i ids statuses) _ tt (λ x. refl)

  pub update_download_info-IsSound :
      (i : String) (paths : Option (Dict String)) (sizes : Option (Dict ℕ))
      → Keeps IsSound (call (update_download_info S clock i paths sizes))
  unfolding perform
  update_download_info-IsSound i paths sizes =
      called-IsSound (downloads i paths sizes) _ tt (λ x. refl)
