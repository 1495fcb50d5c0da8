-- ===== src/JobService/Cleanup.antt =====
-- Which rows `cleanup_old_jobs` of src/app/services/job_service.py deletes.
use mathlib.Core.List.{Memᴰ}
use salesforce_master_servic.Base.{
  ℕ, ◌+◌, ◌-◌, ◌*◌, ◌≡◌, refl, sym, ap, ◌∙◌, subst, inl, inr, Bool, false, Option, none, some, List,
  [], ◌∷◌, arith, if◌then◌else◌, ltb, nat_eq, string_eq, ◌==◌, Bool-cases, keep, Memᴰ-keep,
  of_Memᴰ-keep, String, eq_iff,
}
use salesforce_master_servic.Job.{Job}
use salesforce_master_servic.Session.{Session, IsLawful}
use salesforce_master_servic.JobService.{Context}
use salesforce_master_servic.JobService.Queries.{delete_all, microseconds_per_day, cleanup_old_jobs}

module _ (S : Session) (clock : ℕ → ℕ) (iso : ℕ → String) (L : IsLawful S) where
  abbrev deleted : List Job → Context S → S.State
  deleted jobs c = (delete_all S clock iso jobs c).state

  delete_all-gone :
      (jobs : List Job) (c : Context S) (k : String)
      → S.get c.state k ≡ none
      → S.get (deleted jobs c) k ≡ none
  unfolding delete_all
  delete_all-gone [] c k h = h
  delete_all-gone (job ∷ jobs) c k h =
      delete_all-gone jobs (record c { state = S.delete c.state job.scan_id }) k
        (L.get-delete c.state job.scan_id k
          ∙ (elim (Bool-cases (job.scan_id == k)) [ inl e ↦ rw e refl | inr e ↦ rw e h ]))

  delete_all-listed :
      (jobs : List Job) (c : Context S) (job : Job)
      → Memᴰ job jobs
      → S.get (deleted jobs c) job.scan_id ≡ none
  unfolding delete_all
  delete_all-listed [] c job m = elim m [ ]
  delete_all-listed (j ∷ jobs) c job (Memᴰ.head e) =
      delete_all-gone jobs (record c { state = S.delete c.state j.scan_id }) job.scan_id
        (L.get-delete c.state j.scan_id job.scan_id
          ∙ (let same : j.scan_id ≡ job.scan_id = ap (λ (x : Job). x.scan_id) (sym e) in
              rw ((eq_iff j.scan_id job.scan_id).1 same) refl))
  delete_all-listed (j ∷ jobs) c job (Memᴰ.tail m) =
      delete_all-listed jobs (record c { state = S.delete c.state j.scan_id }) job m

  delete_all-spared :
      (jobs : List Job) (c : Context S) (k : String)
      → ((job : Job) → Memᴰ job jobs → (job.scan_id == k) ≡ false)
      → S.get (deleted jobs c) k ≡ S.get c.state k
  unfolding delete_all
  delete_all-spared [] c k other = refl
  delete_all-spared (j ∷ jobs) c k other =
      delete_all-spared jobs (record c { state = S.delete c.state j.scan_id }) k
        (λ job m. other job (Memᴰ.tail m))
      ∙ L.get-delete c.state j.scan_id k
      ∙ rw (other j (Memᴰ.head refl)) refl

  -- A row that is older than the cutoff is gone, any other stays as it is.
  abbrev pub unless_older : ℕ → Option Job → Option Job
  unless_older cutoff none = none
  unless_older cutoff (some job) = if ltb job.created_at cutoff then none else some job

  module _ (days : ℕ) (c : Context S) where
    abbrev pub cutoff_of : ℕ
    cutoff_of = clock c.reads - days * microseconds_per_day S clock iso

    abbrev is_old : Job → Bool
    is_old job = ltb job.created_at cutoff_of

    -- A row that is deleted stands under the key of another one.
    spared :
        (k : String)
        → ((job : Job) → S.get c.state k ≡ some job → is_old job ≡ false)
        → (job : Job) → Memᴰ job (keep is_old (S.rows c.state))
        → (job.scan_id == k) ≡ false
    spared k young job m = elim (Bool-cases (job.scan_id == k)) [
      | inr e ↦ e
      | inl e ↦
          let row = of_Memᴰ-keep is_old (S.rows c.state) m in
          let same : job.scan_id ≡ k = (eq_iff job.scan_id k).0 e in
          let here : S.get c.state k ≡ some job =
            subst (λ (x : String). S.get c.state x ≡ some job) same
              (L.get_of_mem-rows c.state job row.0) in
          absurd (ground (arith, young job here, row.1))
    ]

    cleaned :
        (k : String) (found : Option Job)
        → S.get c.state k ≡ found
        → S.get (cleanup_old_jobs S clock iso days c).1.state k ≡ unless_older cutoff_of found
    unfolding cleanup_old_jobs
    cleaned k none h =
        delete_all-gone (keep is_old (S.rows c.state)) (record c { reads = c.reads + 1 }) k h
    cleaned k (some job) h = elim (Bool-cases (is_old job)) [
      | inl e ↦
          let m = Memᴰ-keep is_old (S.rows c.state) (L.mem-rows c.state k job h) e in
          rw e (
            subst
              (λ (x : String).
                S.get (deleted (keep is_old (S.rows c.state)) (record c { reads = c.reads + 1 })) x
                ≡ none)
              (L.key c.state k job h)
              (delete_all-listed (keep is_old (S.rows c.state)) (record c { reads = c.reads + 1 })
                job m))
      | inr e ↦ rw e (
          delete_all-spared (keep is_old (S.rows c.state)) (record c { reads = c.reads + 1 }) k
            (spared k (λ j g. ground (arith, e, sym h ∙ g)))
          ∙ h)
    ]

    -- The clean-up deletes exactly the rows that were created before the cutoff, the given number of
    -- days before the clock's time, whatever their status, and leaves every other row as it is.
    pub cleanup_old_jobs-deletes :
        (k : String)
        → S.get (cleanup_old_jobs S clock iso days c).1.state k
          ≡ unless_older cutoff_of (S.get c.state k)
    cleanup_old_jobs-deletes k = cleaned k (S.get c.state k) refl
