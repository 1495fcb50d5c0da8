-- ===== src/Normalization/Outcomes.antt =====
-- How `normalize_scan` of src/app/services/normalization_service.py ends, and which rows it keeps.
use salesforce_master_servic.Base.{
  ℕ, ◌≡◌, ap, subst, inl, inr, true, false, not, Option, some, List, [], map, arith, nat_eq,
  string_eq, ◌==◌, Bool-cases, or_default, lookup, insert, update, lookup-insert, keep, String,
}
use salesforce_master_servic.Errors.{Exception, Result, is_cancelled, ok, err}
use salesforce_master_servic.Status.{status_eq, is_terminal, extracted}
use salesforce_master_servic.Job.{Job}
use salesforce_master_servic.Session.{Session, IsLawful}
use salesforce_master_servic.JobService.{get_job, fail_job}
use salesforce_master_servic.Normalizers.{
  Record, TableSet, row, is_event, main_row, normalize, task_event_normalizer,
}
use salesforce_master_servic.Normalizers.Tables.{rows_of}
use salesforce_master_servic.Flow.{World, handle}
use salesforce_master_servic.JobService.Stops.{fail_job-stops}
use salesforce_master_servic.Normalization.{
  NormalizationFiles, NormalizeOptions, NormalizationSummary, merge_file, normalize_failed,
  normalize_scan,
}

module _ (S : Session) (clock : ℕ → ℕ) (L : IsLawful S) (files : NormalizationFiles S) (i : String)
    (options : NormalizeOptions) (text : Exception → String) where
  abbrev Stopped : World S → Type 0
  Stopped w = (job : Job) → S.get w.context.state i ≡ some job → is_terminal job.status ≡ true

  handled_stops :
      (job : Job) (exc thrown : Exception) (w : World S)
      → is_cancelled exc ≡ false
      → (normalize_failed S clock files i text job thrown w).0 ≡ err exc
      → Stopped (normalize_failed S clock files i text job thrown w).1
  unfolding normalize_failed
  handled_stops job exc thrown w kept h = elim (Bool-cases (is_cancelled thrown)) [
    | inl e ↦
        let h' : ◌≡◌ {A = Result NormalizationSummary} (err thrown) (err exc) = rw e at h in
        let same : thrown ≡ exc = cc in
        let e' : is_cancelled exc ≡ true =
          subst (λ (x : Exception). is_cancelled x ≡ true) same e in
        cc
    | inr e ↦
        rw e
          (λ (j : Job)
              (row : S.get (fail_job S clock i (text thrown) w.context).1.state i ≡ some j).
            fail_job-stops S clock L i (text thrown) w.context j row)
  ]

  try_stops :
      (job : Job) (exc : Exception) (w : World S) (r : Result NormalizationSummary)
      → is_cancelled exc ≡ false
      → (handle r (normalize_failed S clock files i text job) w).0 ≡ err exc
      → Stopped (handle r (normalize_failed S clock files i text job) w).1
  try_stops job exc w (ok a) kept h = cc
  try_stops job exc w (err thrown) kept h = handled_stops job exc thrown w kept h

  -- When the normalization of an EXTRACTED scan raises, and was not cancelled, the job, if it is
  -- still there, is in a terminal status: it is never left in NORMALIZING or UPLOADING_TO_MINIO.
  pub normalize_scan-stops :
      (w : World S) (job : Job) (exc : Exception)
      → S.get w.context.state i ≡ some job
      → job.status ≡ extracted
      → (normalize_scan S clock files i options text w).0 ≡ err exc
      → is_cancelled exc ≡ false
      → (after : Job)
      → S.get (normalize_scan S clock files i options text w).1.context.state i ≡ some after
      → is_terminal after.status ≡ true
  unfolding normalize_scan get_job
  normalize_scan-stops w job exc row at_start h kept after row' =
      let begun : (job.status == extracted) ≡ true = ground (arith, at_start) in
      try_stops job exc _ _ kept (rw (row, begun) at h) after (rw (row, begun) at row')

-- A file of tasks or events replaces the event rows of every earlier one: after a file of events and
-- then one of tasks, the event rows are those of the second alone.
pub merge_file-replaces :
    (tables : TableSet) (events tasks : List Record)
    → rows_of "events"
        (merge_file (merge_file tables task_event_normalizer events) task_event_normalizer tasks)
      ≡ rows_of "events" (normalize task_event_normalizer tasks)
unfolding merge_file normalize update lookup
merge_file-replaces tables events tasks =
    let before =
      insert "tasks" (map (main_row task_event_normalizer) (keep (λ r. not (is_event r)) tasks))
        (merge_file tables task_event_normalizer events) in
    ap (λ (o : Option (List Record)). or_default o [])
      (lookup-insert "events" "events" (map (main_row task_event_normalizer) (keep is_event tasks))
        before)
