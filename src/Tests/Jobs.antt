-- ===== src/Tests/Jobs.antt =====
-- The lifecycle and the service of the jobs, at concrete inputs, in memory.
use salesforce_master_servic.JobService.Steps.{IsConsistent, Move}
use salesforce_master_servic.JobService.History.{
  Call, fail_with, perform, perform_all, perform-moves, AllConsistent, perform_all-AllConsistent,
}
use salesforce_master_servic.Utils.{PaginationInfo, build_pagination_info}
use salesforce_master_servic.Utils.Paging.{pages_from, pages_cover}
use salesforce_master_servic.Base.{
  ℕ, ◌+◌, ◌<◌, ◌≡◌, refl, subst, ◌↔◌, inl, inr, true, none, some, List, [], ◌∷◌, arith, nat_eq,
  string_eq, ◌==◌, Bool-cases, or_default, String,
}
use salesforce_master_servic.Status.{
  status_eq, is_terminal, is_valid_transition, batch_processing, downloading, downloaded,
  extracting,
}
use salesforce_master_servic.Status.Transitions.{Edge, is_valid_transition-iff-Edge}
use salesforce_master_servic.Job.{Job}
use salesforce_master_servic.Session.Memory.{memory, memory-IsLawful}
use salesforce_master_servic.JobService.{Context, new_job, resume_job, fail_job}
use salesforce_master_servic.JobService.Queries.{cleanup_old_jobs}
use salesforce_master_servic.JobService.Cleanup.{unless_older, cutoff_of, cleanup_old_jobs-deletes}

abbrev pub clock : ℕ → ℕ
clock n = 10000000000 + n

abbrev pub iso : ℕ → String
iso n = "2026-01-01T00:00:00"

abbrev pub downloading_job : Job
downloading_job = record (new_job memory clock "scan-1" none none 0) {
  status = downloading;
  last_heartbeat = some 5;
}

abbrev pub fresh_job : Job
fresh_job = record (new_job memory clock "scan-2" none none 0) {
  status = extracting;
  last_heartbeat = some 9999999999;
}

abbrev pub table : Context memory
unfolding memory
table = record { state = downloading_job ∷ fresh_job ∷ []; reads = 7 }

is_valid_transition-iff-Edge_example :
    (is_valid_transition downloading downloaded ≡ true) ↔ Edge downloading downloaded
is_valid_transition-iff-Edge_example = is_valid_transition-iff-Edge downloading downloaded

abbrev calls : List Call
calls = fail_with "scan-2" "disk full" ∷ Call.resume "scan-2" batch_processing ∷ []

abbrev failed_job : Job
unfolding memory perform fail_job
failed_job =
    or_default
      (memory.get (perform memory clock iso (fail_with "scan-2" "disk full") table).state "scan-2")
      fresh_job

perform-moves_example :
    Move extracting failed_job.status
    × (failed_job.scan_id ≡ "scan-2")
    × (failed_job.organization_id ≡ none)
    × (failed_job.created_at ≡ 10000000000)
unfolding memory perform fail_job
perform-moves_example =
    perform-moves memory clock iso memory-IsLawful (fail_with "scan-2" "disk full") table "scan-2"
      fresh_job failed_job tt refl refl

pub table-AllConsistent : AllConsistent memory clock iso memory-IsLawful table
unfolding memory is_terminal
table-AllConsistent k job h = elim (Bool-cases ("scan-1" == k)) [
  | inl e ↦
      let p : some downloading_job ≡ some job = rw e at h in
      let q : downloading_job ≡ job = cc in subst (λ (x : Job). IsConsistent x) q refl
  | inr e ↦ elim (Bool-cases ("scan-2" == k)) [
    | inl f ↦
        let p : some fresh_job ≡ some job = rw (e, f) at h in
        let q : fresh_job ≡ job = cc in subst (λ (x : Job). IsConsistent x) q refl
    | inr f ↦ let p : none ≡ some job = rw (e, f) at h in cc
  ]
]

abbrev resumed_job : Job
unfolding memory perform perform_all fail_job resume_job
resumed_job =
    or_default (memory.get (perform_all memory clock iso calls table).state "scan-2") fresh_job

perform_all-AllConsistent_example : IsConsistent resumed_job
unfolding memory perform perform_all fail_job resume_job
perform_all-AllConsistent_example =
    perform_all-AllConsistent memory clock iso memory-IsLawful calls table (tt, ((λ e. cc), tt))
      table-AllConsistent "scan-2" resumed_job refl

abbrev five : List ℕ
five = 1 ∷ 2 ∷ 3 ∷ 4 ∷ 5 ∷ []

pages_cover_example :
    (info : PaginationInfo) × (build_pagination_info 2 2 5 ≡ some info)
    × (pages_from 1 info.total_pages 2 five ≡ five)
    × ((info.has_next ≡ true) ↔ (4 < 5))
pages_cover_example = pages_cover five 2 2 (omega arith) (omega arith)

cleanup_old_jobs-deletes_example :
    memory.get (cleanup_old_jobs memory clock iso 0 table).1.state "scan-1"
    ≡ unless_older memory clock iso memory-IsLawful
        (cutoff_of memory clock iso memory-IsLawful 0 table)
        (memory.get table.state "scan-1")
cleanup_old_jobs-deletes_example =
    cleanup_old_jobs-deletes memory clock iso memory-IsLawful 0 table "scan-1"
