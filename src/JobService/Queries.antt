-- ===== src/JobService/Queries.antt =====
-- The methods of `JobService` (src/app/services/job_service.py) that report on jobs, or go through
-- all rows of the table. `iso` is `datetime.isoformat`.
use salesforce_master_servic.Base.{
  ℕ, suc, ◌+◌, ◌-◌, ◌*◌, Bool, true, false, ◌&&◌, Option, none, some, List, [], ◌∷◌, ◌++◌, map,
  if◌then◌else◌, ltb, leb, nat_eq, string_eq, ◌==◌, Dict, length, take, drop, keep, String, ◌<>◌,
  show,
}
use salesforce_master_servic.Status.{
  JobStatus, status_eq, value, in_progress_statuses, main_chain, failed, cancelled,
}
use salesforce_master_servic.Json.{Json, null, str}
use salesforce_master_servic.Job.{Job}
use salesforce_master_servic.Session.{Session}
use salesforce_master_servic.JobService.{Context}

-- `ORDER BY created_at DESC`, where rows of the same time keep their order.
insert_newest : Job → List Job → List Job
insert_newest job [] = job ∷ []
insert_newest job (j ∷ js) =
    if leb j.created_at job.created_at then job ∷ j ∷ js else j ∷ insert_newest job js

unfoldable pub newest_first : List Job → List Job
unfolding insert_newest
newest_first [] = []
newest_first (job ∷ js) = insert_newest job (newest_first js)

-- `query.filter(Job.organization_id == organization_id)`, if an id is given that is not empty.
abbrev pub of_organization : Option String → Job → Bool
of_organization none job = true
of_organization (some org) job =
    if org == "" then true else elim job.organization_id [ none ↦ false | some o ↦ o == org ]

abbrev pub of_status : Option JobStatus → Job → Bool
of_status none job = true
of_status (some status) job = job.status == status

abbrev pub count_status : JobStatus → List Job → ℕ
count_status status [] = 0
count_status status (job ∷ js) =
    let rest = count_status status js in if job.status == status then suc rest else rest

-- `GROUP BY status`: a row for each status that some job has.
abbrev group_counts : List JobStatus → List Job → Dict ℕ
group_counts [] jobs = []
group_counts (s ∷ statuses) jobs =
    let rest = group_counts statuses jobs in
    if count_status s jobs == 0 then rest else (value s, count_status s jobs) ∷ rest

module _ (S : Session) (clock : ℕ → ℕ) (iso : ℕ → String) where
  abbrev time : Option ℕ → Json
  time none = null
  time (some t) = str (iso t)

  unfoldable pub get_pipeline_progress : String → Context S → Dict Json
  get_pipeline_progress scan_id c = elim (S.get c.state scan_id) [
    | none ↦ []
    | some job ↦
        ("status", str (value job.status))
        ∷ ("created_at", str (iso job.created_at))
        ∷ ("updated_at", str (iso job.updated_at))
        ∷ ("batch_requested_at", time job.batch_requested_at)
        ∷ ("downloaded_at", time job.downloaded_at)
        ∷ ("extracted_at", time job.extracted_at)
        ∷ ("normalized_at", time job.normalized_at)
        ∷ ("minio_uploaded_at", time job.minio_uploaded_at)
        ∷ ("completed_at", time job.completed_at)
        ∷ ("last_heartbeat", time job.last_heartbeat)
        ∷ []
  ]

  -- The rows of a page, and the number of all rows that the filters leave.
  unfoldable pub list_jobs : Option String → Option JobStatus → ℕ → ℕ → Context S → List Job × ℕ
  list_jobs organization_id status page page_size c =
      let query =
        keep (of_status status) (keep (of_organization organization_id) (S.rows c.state)) in
      (take page_size (drop ((page - 1) * page_size) (newest_first query)), length query)

  unfoldable pub get_statistics : Context S → Dict ℕ
  get_statistics c = group_counts (main_chain ++ failed ∷ cancelled ∷ []) (S.rows c.state)

  -- `(Job.last_heartbeat < cutoff) | Job.last_heartbeat.is_(None)`
  abbrev pub is_stale : ℕ → Job → Bool
  is_stale cutoff job = elim job.last_heartbeat [ none ↦ true | some t ↦ ltb t cutoff ]

  abbrev crash_message : Job → ℕ → String
  crash_message job timeout_minutes =
      "crash detected: job was in status "
      <> value job.status
      <> " with no heartbeat for >"
      <> show timeout_minutes
      <> " minutes"

  abbrev pub crashed_job : ℕ → ℕ → Job → Job
  crashed_job timeout_minutes reads job = record job {
    status = failed;
    error_message = some (crash_message job timeout_minutes);
    completed_at = some (clock reads);
    updated_at = clock (reads + 1);
  }

  unfoldable pub mark_crashed : ℕ → List Job → Context S → Context S
  mark_crashed timeout_minutes [] c = c
  mark_crashed timeout_minutes (job ∷ jobs) c = mark_crashed timeout_minutes jobs (record {
    state = S.save c.state (crashed_job timeout_minutes c.reads job);
    reads = c.reads + 2;
  })

  -- The rows found, for each status in turn. The session does not flush before a query, so every
  -- query reads the table as it was at the start.
  unfoldable pub find_crashed : ℕ → List JobStatus → List Job → List Job
  find_crashed cutoff [] rows = []
  find_crashed cutoff (status ∷ statuses) rows =
      keep (λ job. job.status == status && is_stale cutoff job) rows
      ++ find_crashed cutoff statuses rows

  abbrev pub microseconds_per_minute : ℕ
  microseconds_per_minute = 60000000

  unfoldable pub detect_crashed_jobs : ℕ → Context S → List String × Context S
  detect_crashed_jobs timeout_minutes c =
      let cutoff = clock c.reads - timeout_minutes * microseconds_per_minute in
      let crashed = find_crashed cutoff in_progress_statuses (S.rows c.state) in
      (
        map (λ job. job.scan_id) crashed,
        mark_crashed timeout_minutes crashed (record c { reads = c.reads + 1 }),
      )

  unfoldable pub delete_all : List Job → Context S → Context S
  delete_all [] c = c
  delete_all (job ∷ jobs) c = delete_all jobs (record c { state = S.delete c.state job.scan_id })

  abbrev pub microseconds_per_day : ℕ
  microseconds_per_day = 86400000000

  unfoldable pub cleanup_old_jobs : ℕ → Context S → ℕ × Context S
  cleanup_old_jobs days_old c =
      let cutoff = clock c.reads - days_old * microseconds_per_day in
      let old_jobs = keep (λ job. ltb job.created_at cutoff) (S.rows c.state) in
      (length old_jobs, delete_all old_jobs (record c { reads = c.reads + 1 }))
