-- ===== src/Flow.antt =====
-- What the services of src/app/services/ share: the world that a request or a background task sees,
-- and steps on it that may raise. A step that raises keeps what was written before.
pub mod Keeps
use salesforce_master_servic.Base.{Bool, Option, none, some, List, [], ◌∷◌, ◌++◌, Dict, String}
use salesforce_master_servic.Json.{Json}
use salesforce_master_servic.Errors.{Exception, Result, ok, err}
use salesforce_master_servic.Job.{Job}
use salesforce_master_servic.Session.{Session}
use salesforce_master_servic.JobService.{Context}

-- An event of `write_audit_nonblocking`, without its metadata.
pub record AuditEvent : Type 0 where
  pub category : String
  pub event_type : String
  pub outcome : String
  pub organization_id : Option String
  pub resource_id : Option String
  pub error_detail : Option String

pub record World (S : Session) : Type 0 where
  pub context : Context S
  pub audit : List AuditEvent
  -- `batch_client is not None`
  pub has_client : Bool
  -- `_runtime_credentials`
  pub credentials : Dict (Dict Json)
  -- The workflows that `asyncio.create_task` started, with the objects that were asked for.
  pub tasks : List (String × Option (List String))
  -- The scans that have a directory.
  pub directories : List String

module _ (S : Session) where
  abbrev pub Act : Type 0 → Type 0
  Act A = World S → Result A × World S

module _ {S : Session} where
  abbrev pub pure : {A : Type 0} → A → Act S A
  pure a w = (ok a, w)

  abbrev pub raise : {A : Type 0} → Exception → Act S A
  raise exc w = (err exc, w)

  abbrev pub after_result : {A B : Type 0} → Result A → (A → Act S B) → Act S B
  after_result (ok a) f w = f a w
  after_result (err exc) f w = (err exc, w)

  infixl 5 ◌>>=◌ ◌>>◌
  abbrev pub ◌>>=◌ : {A B : Type 0} → Act S A → (A → Act S B) → Act S B
  ◌>>=◌ m f w = after_result (m w).0 f (m w).1

  abbrev pub ◌>>◌ : {A B : Type 0} → Act S A → Act S B → Act S B
  m >> k = m >>= λ _. k

  -- A method of the job service.
  abbrev pub call : (Context S → Option Job × Context S) → Act S (Option Job)
  call method w = (ok (method w.context).0, record w { context = (method w.context).1 })

  abbrev pub or_raise : {A : Type 0} → Option A → Exception → Act S A
  or_raise none exc = raise exc
  or_raise (some a) exc = pure a

  abbrev pub write_audit : AuditEvent → Act S (Unit {0})
  write_audit event w = (ok tt, record w { audit = w.audit ++ event ∷ [] })

  -- `try: body; except ...: handler`, the handler being told whether it catches.
  abbrev pub handle : {A : Type 0} → Result A → (Exception → Act S A) → Act S A
  handle (ok a) handler w = (ok a, w)
  handle (err exc) handler w = handler exc w

  abbrev pub try_except : {A : Type 0} → Act S A → (Exception → Act S A) → Act S A
  try_except body handler w = handle (body w).0 handler (body w).1

  -- `try: body; finally: cleanup`
  abbrev pub try_finally : {A : Type 0} → Act S A → (World S → World S) → Act S A
  try_finally body cleanup w = ((body w).0, cleanup (body w).1)
