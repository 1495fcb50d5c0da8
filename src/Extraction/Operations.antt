-- ===== src/Extraction/Operations.antt =====
-- Any sequence of scan operations of src/app/services/extraction_service.py, from any requests.
use salesforce_master_servic.Base.{
  ℕ, ◌≡◌, refl, sym, ◌∙◌, inl, inr, true, false, Option, none, some, List, [], ◌∷◌, nat_eq,
  string_eq, ◌==◌, Bool-cases, or_default, Dict, String,
}
use salesforce_master_servic.Json.{Json}
use salesforce_master_servic.Errors.{Exception}
use salesforce_master_servic.Status.{status_eq}
use salesforce_master_servic.Job.{BatchItem, Job}
use salesforce_master_servic.Session.{Session, IsLawful}
use salesforce_master_servic.Flow.{World, Act, pure}
use salesforce_master_servic.Flow.Keeps.{
  Keeps, pure-Keeps, raise-Keeps, bind-Keeps, then-Keeps, if-Keeps, IsSound, untouched-IsSound,
  cancel_job-IsSound,
}
use salesforce_master_servic.Extraction.{
  PollingService, ScanStartRequest, scan_event, job_of, start_scan, execute_batch_workflow,
  resume_scan, abort_one, abort_item, abort_all, after_cancel, cancel_option, cancel_scan,
  delete_scan, remove_option, remove_scan,
}
use salesforce_master_servic.Extraction.Consistency.{
  Sound, IsSoundPolling, start_scan-Sound, execute-Sound, resume-Sound, abort_one-Sound,
}

-- An operation with its arguments; `run` is a workflow that a request started.
pub data ScanOperation : Type 0 where
  start : String → ScanStartRequest → ScanOperation
  run : String → Option (List String) → ScanOperation
  resume_one : String → Option (Dict Json) → ScanOperation
  cancel_one : String → Option String → ScanOperation
  remove_one : String → ScanOperation

module _ (S : Session) (clock : ℕ → ℕ) (iso : ℕ → String) (L : IsLawful S)
    (polling : PollingService S) (supported : List String) (text : Exception → String) where
  -- The world after it, whether it raised or not.
  unfoldable pub operate : ScanOperation → World S → World S
  operate (start i request) w = (start_scan S clock polling supported i request w).1
  operate (run i objects) w = (execute_batch_workflow S clock polling supported i objects text w).1
  operate (resume_one i found) w = (resume_scan S clock polling supported i found w).1
  operate (cancel_one i reason) w = (cancel_scan S clock polling supported i reason w).1
  operate (remove_one i) w = (remove_scan S clock polling supported i w).1

  unfoldable pub operate_all : List ScanOperation → World S → World S
  operate_all [] w = w
  operate_all (o ∷ rest) w = operate_all rest (operate o w)

  abbrev Kept : {A : Type 0} → Act S A → Type 0
  Kept m = Sound S clock iso L polling supported m

  abort_item-Kept : (item : BatchItem) → Kept (abort_item S clock polling supported item)
  unfolding Keeps
  abort_item-Kept item w h =
      if-Keeps (IsSound S clock iso L) w.has_client
        (abort_one S clock polling supported (polling.abort_job item.job_id w)) (pure tt)
        (abort_one-Sound S clock iso L polling supported (polling.abort_job item.job_id w))
        (pure-Keeps _ tt) w h

  abort_all-Kept : (items : List BatchItem) → Kept (abort_all S clock polling supported items)
  unfolding abort_all
  abort_all-Kept [] = pure-Keeps _ tt
  abort_all-Kept (item ∷ rest) = then-Keeps _ _ _ (abort_item-Kept item) (abort_all-Kept rest)

  cancel-Kept :
      (i : String) (reason : Option String) (job : Option Job)
      → Kept (cancel_option S clock polling supported i reason job)
  cancel-Kept i reason none = raise-Keeps _ _ _
  cancel-Kept i reason (some job) =
      then-Keeps _ _ _ (abort_all-Kept (or_default job.batch_job_ids [])) (
        bind-Keeps _ _ _ (cancel_job-IsSound S clock iso L i reason none) (λ updated.
          untouched-IsSound S clock iso L
            (after_cancel S clock polling supported i job.organization_id updated) (λ w. refl)))

  delete-Kept : (i : String) → Kept (delete_scan S clock polling supported i)
  unfolding Keeps
  delete-Kept i w h k job row = elim (Bool-cases (i == k)) [
    | inl e ↦ let p : none ≡ some job = sym (L.get-delete w.context.state i k ∙ rw e) ∙ row in cc
    | inr e ↦ h k job (sym (L.get-delete w.context.state i k ∙ rw e) ∙ row)
  ]

  remove-Kept :
      (i : String) (job : Option Job) → Kept (remove_option S clock polling supported i job)
  remove-Kept i none = pure-Keeps _ false
  remove-Kept i (some job) = if-Keeps _ _ _ _ (raise-Keeps _ _ _) (
      then-Keeps _ _ _
        (then-Keeps _ _ _ (delete-Kept i) (
          untouched-IsSound S clock iso L
            (scan_event S clock polling supported "scan_removed" "success" i job.organization_id
              none)
            (λ w. refl)))
        (pure-Keeps _ true))

  operate-IsSound :
      (p : IsSoundPolling S clock iso L polling supported) (o : ScanOperation) (w : World S)
      → IsSound S clock iso L w
      → IsSound S clock iso L (operate o w)
  unfolding operate Keeps resume_scan cancel_scan remove_scan
  operate-IsSound p (start i request) w h =
      start_scan-Sound S clock iso L polling supported i request w h
  operate-IsSound p (run i objects) w h =
      execute-Sound S clock iso L polling supported p i objects text w h
  operate-IsSound p (resume_one i found) w h =
      resume-Sound S clock iso L polling supported i found (job_of S clock polling supported i w) w
        h
  operate-IsSound p (cancel_one i reason) w h =
      cancel-Kept i reason (job_of S clock polling supported i w) w h
  operate-IsSound p (remove_one i) w h = remove-Kept i (job_of S clock polling supported i w) w h

  -- After any sequence of scan operations, by any requests, some of them failing, every job has a
  -- completion time exactly when its status is terminal, provided that this held before and that the
  -- polling service keeps it.
  pub operate_all-IsSound :
      (p : IsSoundPolling S clock iso L polling supported) (operations : List ScanOperation)
      (w : World S)
      → IsSound S clock iso L w
      → IsSound S clock iso L (operate_all operations w)
  unfolding operate_all
  operate_all-IsSound p [] w h = h
  operate_all-IsSound p (o ∷ rest) w h =
      operate_all-IsSound p rest (operate o w) (operate-IsSound p o w h)
