-- ===== src/JobService/Stops.antt =====
-- What `fail_job` of src/app/services/job_service.py leaves.
use salesforce_master_servic.Base.{
  ℕ, ◌+◌, ◌≡◌, refl, subst, inl, inr, true, some, [], ◌∷◌, nat_eq, string_eq, Bool-cases,
  Option-cases, ◌∈?◌, String, take_text,
}
use salesforce_master_servic.Status.{status_eq, is_terminal, completed, failed, cancelled}
use salesforce_master_servic.Job.{Job}
use salesforce_master_servic.Session.{Session, IsLawful}
use salesforce_master_servic.JobService.{Context, fail_job}
use salesforce_master_servic.JobService.Steps.{row_at_own_key, get-save_self}

module _ (S : Session) (clock : ℕ → ℕ) (L : IsLawful S) where
  terminal_save :
      (i error : String) (c : Context S) (old job : Job)
      → S.get c.state i ≡ some old
      → S.get (fail_job S clock i error c).1.state i ≡ some job
      → is_terminal job.status ≡ true
  unfolding fail_job is_terminal
  terminal_save i error c old job row h =
      elim (Bool-cases (old.status ∈? (completed ∷ failed ∷ cancelled ∷ []))) [
        | inl e ↦
            let h' : S.get c.state i ≡ some job = rw (row, e) at h in
            let same : old ≡ job = cc in subst (λ (x : Job). is_terminal x.status ≡ true) same e
        | inr e ↦
            let stopped : Job = record old {
              status = failed;
              error_message = some (take_text 4000 error);
              completed_at = some (clock c.reads);
              updated_at = clock (c.reads + 1);
            } in
            let saved : S.get (S.save c.state stopped) old.scan_id ≡ some stopped =
              get-save_self S L c.state old stopped (row_at_own_key S L c.state i old row) refl in
            let saved' : S.get (S.save c.state stopped) i ≡ some stopped =
              subst (λ (x : String). S.get (S.save c.state stopped) x ≡ some stopped)
                (L.key c.state i old row) saved in
            let h' : S.get (S.save c.state stopped) i ≡ some job = rw (row, e) at h in
            let same : stopped ≡ job = cc in
            subst (λ (x : Job). is_terminal x.status ≡ true) same refl
      ]

  -- Where there is a job after `fail_job`, its status is terminal.
  pub fail_job-stops :
      (i error : String) (c : Context S) (job : Job)
      → S.get (fail_job S clock i error c).1.state i ≡ some job
      → is_terminal job.status ≡ true
  unfolding fail_job
  fail_job-stops i error c job h = elim (Option-cases (S.get c.state i)) [
    | inl e ↦ let h' : S.get c.state i ≡ some job = rw e at h in cc
    | inr (old, e) ↦ terminal_save i error c old job e h
  ]
