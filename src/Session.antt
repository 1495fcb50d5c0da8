-- ===== src/Session.antt =====
-- What the services use of a SQLAlchemy session on the `jobs` table, over an unknown state, and the
-- documented behaviour that they rely on.
pub mod Memory
use mathlib.Core.List.{Memᴰ}
use salesforce_master_servic.Base.{
  ◌≡◌, Option, none, some, List, if◌then◌else◌, nat_eq, string_eq, ◌==◌, String,
}
use salesforce_master_servic.Job.{Job}

pub record Session : Type 1 where
  pub State : Type 0
  -- `db.get(Job, scan_id)`
  pub get : State → String → Option Job
  -- `db.add(job); db.commit()` of a new row; `none` is the `IntegrityError` of a key that is taken.
  pub add : State → Job → Option State
  -- Attribute writes to a persistent row, `db.commit()` and `db.refresh(job)`.
  pub save : State → Job → State
  -- `db.delete(job); db.commit()`
  pub delete : State → String → State
  -- `db.query(Job).all()`
  pub rows : State → List Job

pub record IsLawful (S : Session) : Type 0 where
  pub key : (s : S.State) (k : String) (j : Job) → S.get s k ≡ some j → j.scan_id ≡ k
  pub add_taken : (s : S.State) (j old : Job) → S.get s j.scan_id ≡ some old → S.add s j ≡ none
  pub add_new :
      (s : S.State) (j : Job)
      → S.get s j.scan_id ≡ none
      → (t : S.State) × (S.add s j ≡ some t)
        × ((k : String) → S.get t k ≡ (if j.scan_id == k then some j else S.get s k))
  pub get-save :
      (s : S.State) (j old : Job) (k : String)
      → S.get s j.scan_id ≡ some old
      → S.get (S.save s j) k ≡ (if j.scan_id == k then some j else S.get s k)
  pub get-delete :
      (s : S.State) (i k : String) → S.get (S.delete s i) k ≡ (if i == k then none else S.get s k)
  pub mem-rows : (s : S.State) (k : String) (j : Job) → S.get s k ≡ some j → Memᴰ j (S.rows s)
  pub get_of_mem-rows : (s : S.State) (j : Job) → Memᴰ j (S.rows s) → S.get s j.scan_id ≡ some j
