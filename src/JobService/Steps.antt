-- ===== src/JobService/Steps.antt =====
-- How one job may change from one call of the service (src/app/services/job_service.py) to the next,
-- and the rules by which a method's step is put together.
use salesforce_master_servic.Base.{
  ℕ, ◌≡◌, refl, sym, ap, ◌∙◌, subst, ◌⊎◌, inl, inr, Bool, true, false, Option, none, some, arith,
  if◌then◌else◌, nat_eq, string_eq, ◌==◌, Bool-cases, ◌∈?◌, is_some, String, eq_iff, eq_refl,
}
use salesforce_master_servic.Status.{
  JobStatus, status_eq, main_chain, is_terminal, is_valid_transition, failed, cancelled,
}
use salesforce_master_servic.Status.Transitions.{Edge, is_valid_transition-iff-Edge, stay}
use salesforce_master_servic.Job.{Job}
use salesforce_master_servic.Session.{Session, IsLawful}
use salesforce_master_servic.JobService.{Context, Method, on_found, on_job, with_status}

-- A job has a completion time exactly when its status is terminal.
abbrev pub IsConsistent : Job → Type 0
IsConsistent job = is_some job.completed_at ≡ is_terminal job.status

-- A change of status: an edge of the lifecycle, or a resumption on the main chain.
pub data Move (s : JobStatus) (t : JobStatus) : Type 0 where
  edge : Edge s t → Move s t
  resume : (s ≡ failed) ⊎ (s ≡ cancelled) → t ∈? main_chain ≡ true → Move s t

pub record JobStep (old : Job) (new : Job) : Type 0 where
  pub same_id : new.scan_id ≡ old.scan_id
  pub same_organization : new.organization_id ≡ old.organization_id
  pub same_creation : new.created_at ≡ old.created_at
  pub moves : Move old.status new.status
  pub consistent : IsConsistent old → IsConsistent new

pub JobStep-refl : (job : Job) → JobStep job job
JobStep-refl job = record {
  same_id = refl;
  same_organization = refl;
  same_creation = refl;
  moves = edge (stay refl);
  consistent = λ h. h;
}

-- A transition into a status that is not terminal starts at one that is not.
pub terminal_absorbs :
    (s t : JobStatus)
    → is_valid_transition s t ≡ true
    → is_terminal t ≡ false
    → is_terminal s ≡ false
unfolding is_valid_transition is_terminal
terminal_absorbs s t h k = ground arith

pub JobStep-with_status :
    (clock : ℕ → ℕ) (S : Session) (status : JobStatus) (reads : ℕ) (job : Job)
    → is_valid_transition job.status status ≡ true
    → JobStep job (with_status S clock status reads job)
unfolding is_terminal
JobStep-with_status clock S status reads job h = elim (Bool-cases (is_terminal status)) [
  | inl e ↦ rw e (record {
    same_id = refl;
    same_organization = refl;
    same_creation = refl;
    moves = edge ((is_valid_transition-iff-Edge job.status status).0 h);
    consistent = λ _. sym e;
  })
  | inr e ↦ rw e (record {
    same_id = refl;
    same_organization = refl;
    same_creation = refl;
    moves = edge ((is_valid_transition-iff-Edge job.status status).0 h);
    consistent = λ c. c ∙ terminal_absorbs job.status status h e ∙ sym e;
  })
]

pub stopped-terminal : (true ≡ is_terminal failed) × (true ≡ is_terminal cancelled)
unfolding is_terminal
stopped-terminal = (refl, refl)

-- A change that keeps the status and the completion time.
pub JobStep-same_status :
    (old new : Job)
    → new.scan_id ≡ old.scan_id
    → new.organization_id ≡ old.organization_id
    → new.created_at ≡ old.created_at
    → new.status ≡ old.status
    → new.completed_at ≡ old.completed_at
    → JobStep old new
JobStep-same_status old new i o t s f = record {
  same_id = i;
  same_organization = o;
  same_creation = t;
  moves = edge (stay (sym s));
  consistent = λ h. ap is_some f ∙ h ∙ ap is_terminal (sym s);
}

module _ (S : Session) (L : IsLawful S) where
  -- Every job of the second state was there in the first, and has made a step.
  abbrev pub Evolves : S.State → S.State → Type 0
  Evolves s t =
      (k : String) (new : Job)
      → S.get t k ≡ some new
      → (old : Job) × (S.get s k ≡ some old) × JobStep old new

  pub Evolves-refl : (s : S.State) → Evolves s s
  Evolves-refl s k job h = (job, h, JobStep-refl job)

  pub row_at_own_key :
      (s : S.State) (k : String) (job : Job) → S.get s k ≡ some job → S.get s job.scan_id ≡ some job
  row_at_own_key s k job h = subst (λ (i : String). S.get s i ≡ some job) (sym (L.key s k job h)) h

  -- A write to a row that is there is a step of that row and of no other. It may come after a step
  -- of every row, where it keeps the status.
  pub Evolves-save_after :
      (s t : S.State) (mid new : Job)
      → S.get t mid.scan_id ≡ some mid
      → new.scan_id ≡ mid.scan_id
      → Evolves s t
      → ((old : Job) → S.get s mid.scan_id ≡ some old → JobStep old mid → JobStep old new)
      → Evolves s (S.save t new)
  Evolves-save_after s t mid new at_mid same evolved finish k j' h' =
      let here : S.get t new.scan_id ≡ some mid =
        subst (λ (i : String). S.get t i ≡ some mid) (sym same) at_mid in
      elim (Bool-cases (new.scan_id == k)) [
        | inl e ↦
            let at : mid.scan_id ≡ k = sym same ∙ (eq_iff new.scan_id k).0 e in
            let saved : some new ≡ some j' = rw e at (sym (L.get-save t new mid k here) ∙ h') in
            let q : new ≡ j' = cc in
            let (old, row, step) = evolved mid.scan_id mid at_mid in
            (
              old,
              subst (λ (i : String). S.get s i ≡ some old) at row,
              subst (λ (x : Job). JobStep old x) q (finish old row step),
            )
        | inr e ↦ evolved k j' (rw e at (sym (L.get-save t new mid k here) ∙ h'))
      ]

  pub Evolves-save :
      (s : S.State) (old new : Job)
      → S.get s old.scan_id ≡ some old
      → JobStep old new
      → Evolves s (S.save s new)
  Evolves-save s old new at_old step =
      Evolves-save_after s s old new at_old step.same_id (Evolves-refl s)
        λ j row _. let p : old ≡ j = cc in subst (λ (x : Job). JobStep x new) p step

  pub Evolves-save_same :
      (s t : S.State) (mid new : Job)
      → S.get t mid.scan_id ≡ some mid
      → Evolves s t
      → JobStep mid new
      → new.status ≡ mid.status
      → Evolves s (S.save t new)
  Evolves-save_same s t mid new at_mid evolved step same =
      Evolves-save_after s t mid new at_mid step.same_id evolved λ old _ first. record {
        same_id = step.same_id ∙ first.same_id;
        same_organization = step.same_organization ∙ first.same_organization;
        same_creation = step.same_creation ∙ first.same_creation;
        moves = subst (λ (x : JobStatus). Move old.status x) (sym same) first.moves;
        consistent = λ h. step.consistent (first.consistent h);
      }

  Evolves-on_found :
      (clock : ℕ → ℕ) (found : Option Job) (body : Job → Method S clock) (c : Context S)
      → ((job : Job) → found ≡ some job → Evolves c.state (body job c).1.state)
      → Evolves c.state (on_found S clock found body c).1.state
  Evolves-on_found clock none body c step = Evolves-refl c.state
  Evolves-on_found clock (some job) body c step = step job refl

  -- The rule for a method that looks its job up: it is enough to follow the branch where it is found.
  pub Evolves-on_job :
      (clock : ℕ → ℕ) (scan_id : String) (body : Job → Method S clock) (c : Context S)
      → ((job : Job) → S.get c.state job.scan_id ≡ some job → Evolves c.state (body job c).1.state)
      → Evolves c.state (on_job S clock scan_id body c).1.state
  Evolves-on_job clock scan_id body c step =
      Evolves-on_found clock (S.get c.state scan_id) body c
        λ job e. step job (row_at_own_key c.state scan_id job e)

  pub Evolves-choose :
      (b : Bool) (s : S.State) (m n : Option Job × Context S)
      → (b ≡ true → Evolves s m.1.state)
      → (b ≡ false → Evolves s n.1.state)
      → Evolves s (if b then m else n).1.state
  Evolves-choose true s m n first second = first refl
  Evolves-choose false s m n first second = second refl

  pub get-save_self :
      (s : S.State) (old new : Job)
      → S.get s old.scan_id ≡ some old
      → new.scan_id ≡ old.scan_id
      → S.get (S.save s new) new.scan_id ≡ some new
  get-save_self s old new at_old same =
      let here : S.get s new.scan_id ≡ some old =
        subst (λ (i : String). S.get s i ≡ some old) (sym same) at_old in
      L.get-save s new old new.scan_id here ∙ rw eq_refl
