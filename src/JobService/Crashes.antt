-- ===== src/JobService/Crashes.antt =====
-- `detect_crashed_jobs` and `cleanup_old_jobs` of src/app/services/job_service.py, job by job.
use salesforce_master_servic.Status.Transitions.{fail}
use mathlib.Core.List.{Memᴰ}
use salesforce_master_servic.Session.{Session, IsLawful}
use salesforce_master_servic.JobService.{Context}
use salesforce_master_servic.JobService.Steps.{
  JobStep, stopped-terminal, edge, Evolves, Evolves-refl, row_at_own_key, Evolves-save_after,
}
use salesforce_master_servic.Base.{
  ℕ, ◌+◌, ◌-◌, ◌*◌, ◌≡◌, refl, sym, ap, ◌∙◌, subst, ◌⊎◌, inl, inr, Bool, true, false, ◌&&◌, some,
  List, [], ◌∷◌, if◌then◌else◌, nat_eq, string_eq, ◌==◌, Bool-cases, ◌∈?◌, or_and_left,
  or_and_right, Memᴰ-cons, keep, Memᴰ-append_left, Memᴰ-append_right, of_Memᴰ-append, Memᴰ-keep,
  of_Memᴰ-keep, String, eq_iff,
}
use salesforce_master_servic.Status.{JobStatus, status_eq, in_progress_statuses}
use salesforce_master_servic.Job.{Job}
use salesforce_master_servic.JobService.Queries.{
  is_stale, crashed_job, mark_crashed, find_crashed, microseconds_per_minute, detect_crashed_jobs,
}

module _ (S : Session) (clock : ℕ → ℕ) (iso : ℕ → String) where
  -- The condition of the query, over all statuses in progress.
  abbrev pub has_crashed : ℕ → Job → Bool
  has_crashed cutoff job = job.status ∈? in_progress_statuses && is_stale S clock iso cutoff job

  mem-find_crashed :
      (cutoff : ℕ) (statuses : List JobStatus) (rows : List Job) (job : Job)
      → Memᴰ job rows
      → (job.status ∈? statuses && is_stale S clock iso cutoff job) ≡ true
      → Memᴰ job (find_crashed S clock iso cutoff statuses rows)
  unfolding find_crashed
  mem-find_crashed cutoff [] rows job m h = cc
  mem-find_crashed cutoff (s ∷ statuses) rows job m h = elim (Bool-cases (job.status == s)) [
    | inl e ↦ Memᴰ-append_left _ _ (Memᴰ-keep _ rows m (rw e (rw e at h)))
    | inr e ↦ Memᴰ-append_right _ _ (mem-find_crashed cutoff statuses rows job m (rw e at h))
  ]

  of_mem-find_crashed :
      (cutoff : ℕ) (statuses : List JobStatus) (rows : List Job) (job : Job)
      → Memᴰ job (find_crashed S clock iso cutoff statuses rows)
      → Memᴰ job rows × ((job.status ∈? statuses && is_stale S clock iso cutoff job) ≡ true)
  unfolding find_crashed
  of_mem-find_crashed cutoff [] rows job m = elim m [ ]
  of_mem-find_crashed cutoff (s ∷ statuses) rows job m = elim (of_Memᴰ-append (keep _ rows) _ m) [
    | inl l ↦
        let h = of_Memᴰ-keep _ rows l in
        (h.0, or_and_left (job.status == s) (job.status ∈? statuses) _ h.1)
    | inr r ↦
        let h = of_mem-find_crashed cutoff statuses rows job r in
        (h.0, or_and_right (job.status == s) (job.status ∈? statuses) _ h.1)
  ]

  module _ (L : IsLawful S) (minutes : ℕ) (s : S.State) where
    -- Every row of the first state is still in the table.
    abbrev Present : Context S → Type 0
    Present c =
        (k : String) (job : Job) → S.get s k ≡ some job → (now : Job) × (S.get c.state k ≡ some now)

    abbrev AreRows : List Job → Type 0
    AreRows jobs = (job : Job) → Memᴰ job jobs → S.get s job.scan_id ≡ some job

    abbrev mark : Job → Context S → Context S
    mark job c = record {
      state = S.save c.state (crashed_job S clock iso minutes c.reads job);
      reads = c.reads + 2;
    }

    get-mark :
        (job : Job) (c : Context S) (k : String)
        → Present c
        → S.get s job.scan_id ≡ some job
        → S.get (mark job c).state k ≡ (
            if job.scan_id == k
            then some (crashed_job S clock iso minutes c.reads job)
            else S.get c.state k)
    get-mark job c k present row =
        let (now, e) = present job.scan_id job row in
        L.get-save c.state (crashed_job S clock iso minutes c.reads job) now k e

    mark-Present :
        (job : Job) (c : Context S)
        → S.get s job.scan_id ≡ some job
        → Present c
        → Present (mark job c)
    mark-Present job c row present k old h = elim (Bool-cases (job.scan_id == k)) [
      | inl e ↦ (crashed_job S clock iso minutes c.reads job, get-mark job c k present row ∙ rw e)
      | inr e ↦ let (now, q) = present k old h in (now, get-mark job c k present row ∙ rw e q)
    ]

    -- A row that is not listed stays as it is.
    get-mark_crashed_other :
        (jobs : List Job) (c : Context S) (k : String)
        → Present c
        → AreRows jobs
        → ((job : Job) → Memᴰ job jobs → (job.scan_id == k) ≡ false)
        → S.get (mark_crashed S clock iso minutes jobs c).state k ≡ S.get c.state k
    unfolding mark_crashed
    get-mark_crashed_other [] c k present rows other = refl
    get-mark_crashed_other (job ∷ jobs) c k present rows other =
        let row = rows job (Memᴰ.head refl) in
        get-mark_crashed_other jobs (mark job c) k (mark-Present job c row present)
          (λ i m. rows i (Memᴰ.tail m)) (λ i m. other i (Memᴰ.tail m))
        ∙ get-mark job c k present row
        ∙ rw (other job (Memᴰ.head refl))

    -- The row of the job holds it as a crashed job.
    abbrev IsMarked : Job → Context S → Type 0
    IsMarked job c =
        (n : ℕ) × (S.get c.state job.scan_id ≡ some (crashed_job S clock iso minutes n job))

    mark-IsMarked :
        (i job : Job) (c : Context S)
        → S.get s i.scan_id ≡ some i
        → S.get s job.scan_id ≡ some job
        → Present c
        → (i ≡ job) ⊎ IsMarked job c
        → IsMarked job (mark i c)
    mark-IsMarked i job c row_i row present h = elim (Bool-cases (i.scan_id == job.scan_id)) [
      | inl e ↦
          let same : i.scan_id ≡ job.scan_id = (eq_iff i.scan_id job.scan_id).0 e in
          let row' : S.get s job.scan_id ≡ some i =
            subst (λ (x : String). S.get s x ≡ some i) same row_i in
          let p : i ≡ job = cc in
          (
            c.reads,
            get-mark i c job.scan_id present row_i
                ∙ rw e (ap (λ (x : Job). some (crashed_job S clock iso minutes c.reads x)) p),
          )
      | inr e ↦ elim h [
        | inl p ↦
            let q : (i.scan_id == job.scan_id) ≡ true =
              (eq_iff i.scan_id job.scan_id).1 (ap (λ (x : Job). x.scan_id) p) in
            cc
        | inr (n, q) ↦ (n, get-mark i c job.scan_id present row_i ∙ rw e q)
      ]
    ]

    mark_crashed-IsMarked :
        (jobs : List Job) (job : Job) (c : Context S)
        → S.get s job.scan_id ≡ some job
        → Present c
        → AreRows jobs
        → Memᴰ job jobs ⊎ IsMarked job c
        → IsMarked job (mark_crashed S clock iso minutes jobs c)
    unfolding mark_crashed
    mark_crashed-IsMarked [] job c row present rows (inl m) = elim m [ ]
    mark_crashed-IsMarked [] job c row present rows (inr q) = q
    mark_crashed-IsMarked (i ∷ jobs) job c row present rows h =
        let row_i = rows i (Memᴰ.head refl) in
        mark_crashed-IsMarked jobs job (mark i c) row (mark-Present i c row_i present)
          (λ x m. rows x (Memᴰ.tail m))
          (elim h [
            | inl m ↦ elim (Memᴰ-cons m) [
              | inl p ↦ inr (mark-IsMarked i job c row_i row present (inl (sym p)))
              | inr r ↦ inl r
            ]
            | inr q ↦ inr (mark-IsMarked i job c row_i row present (inr q))
          ])

    JobStep-crashed : (job : Job) (n : ℕ) → JobStep job (crashed_job S clock iso minutes n job)
    JobStep-crashed job n = record {
      same_id = refl;
      same_organization = refl;
      same_creation = refl;
      moves = edge (fail refl);
      consistent = λ _. stopped-terminal.0;
    }

    mark-Evolves :
        (i : Job) (c : Context S)
        → S.get s i.scan_id ≡ some i
        → Present c
        → Evolves S L s c.state
        → Evolves S L s (mark i c).state
    mark-Evolves i c row present evolved =
        let (mid, e) = present i.scan_id i row in
        let same : mid.scan_id ≡ i.scan_id = L.key c.state i.scan_id mid e in
        Evolves-save_after S L s c.state mid _ (row_at_own_key S L c.state i.scan_id mid e)
          (sym same) evolved
          (λ old at _.
            let row' : S.get s i.scan_id ≡ some old =
              subst (λ (x : String). S.get s x ≡ some old) same at in
            let p : i ≡ old = cc in
            subst (λ (x : Job). JobStep x (crashed_job S clock iso minutes c.reads i)) p
              (JobStep-crashed i c.reads))

    -- The rows that are listed become crashed jobs, and that is a step of each.
    mark_crashed-Evolves :
        (jobs : List Job) (c : Context S)
        → Present c
        → AreRows jobs
        → Evolves S L s c.state
        → Evolves S L s (mark_crashed S clock iso minutes jobs c).state
    unfolding mark_crashed
    mark_crashed-Evolves [] c present rows evolved = evolved
    mark_crashed-Evolves (i ∷ jobs) c present rows evolved =
        let row_i = rows i (Memᴰ.head refl) in
        mark_crashed-Evolves jobs (mark i c) (mark-Present i c row_i present)
          (λ x m. rows x (Memᴰ.tail m)) (mark-Evolves i c row_i present evolved)

  abbrev pub crash_cutoff : ℕ → Context S → ℕ
  crash_cutoff minutes c = clock c.reads - minutes * microseconds_per_minute S clock iso

  module _ (L : IsLawful S) (minutes : ℕ) (c : Context S) where
    rows_found :
        (job : Job)
        → Memᴰ job (
            find_crashed S clock iso (crash_cutoff minutes c) in_progress_statuses (S.rows c.state))
        → S.get c.state job.scan_id ≡ some job
    rows_found job m =
        L.get_of_mem-rows c.state job (of_mem-find_crashed _ in_progress_statuses _ job m).0

    pub detect_crashed_jobs-Evolves :
        Evolves S L c.state (detect_crashed_jobs S clock iso minutes c).1.state
    unfolding detect_crashed_jobs
    detect_crashed_jobs-Evolves =
        mark_crashed-Evolves L minutes c.state _ (record c { reads = c.reads + 1 })
          (λ k job h. (job, h)) rows_found (Evolves-refl S L c.state)

    -- The crash detection fails a job that is in progress with a stale heartbeat or none, with the
    -- time, and with the status that it was in.
    pub detect_crashed_jobs-marks :
        (job : Job)
        → S.get c.state job.scan_id ≡ some job
        → has_crashed (crash_cutoff minutes c) job ≡ true
        → (n : ℕ) × (S.get (detect_crashed_jobs S clock iso minutes c).1.state job.scan_id
            ≡ some (crashed_job S clock iso minutes n job))
    unfolding detect_crashed_jobs
    detect_crashed_jobs-marks job row h =
        mark_crashed-IsMarked L minutes c.state _ job (record c { reads = c.reads + 1 }) row
          (λ k job h. (job, h)) rows_found
          (inl (
            mem-find_crashed _ in_progress_statuses _ job (L.mem-rows c.state job.scan_id job row)
              h))

    -- The crash detection leaves a job that is not in progress, or has a newer heartbeat, as it is.
    pub detect_crashed_jobs-spares :
        (job : Job)
        → S.get c.state job.scan_id ≡ some job
        → has_crashed (crash_cutoff minutes c) job ≡ false
        → S.get (detect_crashed_jobs S clock iso minutes c).1.state job.scan_id ≡ some job
    unfolding detect_crashed_jobs
    detect_crashed_jobs-spares job row h =
        get-mark_crashed_other L minutes c.state _ (record c { reads = c.reads + 1 }) job.scan_id
          (λ k job h. (job, h)) rows_found
          (λ i m. elim (Bool-cases (i.scan_id == job.scan_id)) [
            | inl e ↦
                let (_, crashed) =
                  of_mem-find_crashed (crash_cutoff minutes c) in_progress_statuses (S.rows c.state)
                    i m in
                let same : i.scan_id ≡ job.scan_id = (eq_iff i.scan_id job.scan_id).0 e in
                let row' : S.get c.state job.scan_id ≡ some i =
                  subst (λ (x : String). S.get c.state x ≡ some i) same (rows_found i m) in
                let p : i ≡ job = cc in
                let q : has_crashed (crash_cutoff minutes c) job ≡ true =
                  subst (λ (x : Job). has_crashed (crash_cutoff minutes c) x ≡ true) p crashed in
                cc
            | inr e ↦ e
          ])
        ∙ row
