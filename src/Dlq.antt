-- ===== src/Dlq.antt =====
-- The dead-letter queue: src/app/resilience/dlq.py and src/app/models/failed_external_call.py.
-- `byte_size` is the length of `json.dumps` in UTF-8, `formatted` what an f-string shows of a value.
pub mod Redaction
pub mod Writes
use salesforce_master_servic.Base.{
  ℕ, Bool, true, false, not, Option, none, some, List, [], ◌∷◌, ◌++◌, if◌then◌else◌, ltb, nat_eq,
  string_eq, ◌==◌, ◌∈?◌, String, ◌<>◌, lower, show, take_text, pos,
}
use salesforce_master_servic.Json.{
  truthy, Json, null, bool, int, float, str, arr, obj, Items, nil, cons, Fields, end, field,
}
use salesforce_master_servic.Errors.{
  SalesforceError, Exception, Result, is_os_error, value_error, runtime_error, type_error,
  attribute_error, salesforce, raised, ok, err,
}

abbrev pub sensitive_keys : List String
sensitive_keys =
    "password" ∷ "client_secret" ∷ "access_token" ∷ "refresh_token" ∷ "private_key" ∷ "secret"
    ∷ "token" ∷ "security_token" ∷ "signature" ∷ "assertion" ∷ "jwt" ∷ "client_assertion"
    ∷ "authorization" ∷ []

unfoldable pub is_sensitive : String → Bool
is_sensitive k = lower k ∈? sensitive_keys

abbrev pub redacted : Json
redacted = str "***REDACTED***"

unfoldable mutual
  pub deep_scrub : Json → Json
  deep_scrub (obj fs) = obj (deep_scrub_fields fs)
  deep_scrub (arr xs) = arr (deep_scrub_items xs)
  deep_scrub null = null
  deep_scrub (bool b) = bool b
  deep_scrub (int i) = int i
  deep_scrub (float s) = float s
  deep_scrub (str s) = str s

  pub deep_scrub_items : Items → Items
  deep_scrub_items nil = nil
  deep_scrub_items (cons x xs) = cons (deep_scrub x) (deep_scrub_items xs)

  pub deep_scrub_fields : Fields → Fields
  deep_scrub_fields end = end
  deep_scrub_fields (field k v fs) =
      let inner = deep_scrub v in
      field k (if is_sensitive k then redacted else inner) (deep_scrub_fields fs)

-- `scrubbed if isinstance(scrubbed, dict) else {"data": scrubbed}`
abbrev pub as_dict : Json → Fields
as_dict (obj fs) = fs
as_dict value = field "data" value end

pub data DlqStatus : Type 0 where
  new retriable manual resolved : DlqStatus

pub record FailedExternalCall : Type 0 where
  pub target_service : String
  pub operation : String
  pub organization_id : Option String
  pub scan_id : Option String
  pub payload : Option Fields
  pub payload_size_bytes : ℕ
  pub attempts : ℕ
  pub last_error : Option String
  pub status : DlqStatus
  pub created_at : ℕ

-- The failure that is given: an exception, or a text.
pub data Failure : Type 0 where
  thrown : Exception → Failure
  told : String → Failure

-- What the calls on a session raise, if they do.
pub record DbSession : Type 0 where
  pub add : Option Exception
  pub commit : Option Exception
  pub close : Option Exception

-- What is used as `db`: a session, or another object without `add`, such as the maker of sessions that
-- `get_session_factory` returns, or the generator of `get_db`.
pub data Db : Type 0 where
  opened : DbSession → Db
  without_add : Db

-- What `db_factory` is: an object that is used itself, a function, which returns one or raises, or a
-- generator, which cannot be called.
pub data DbFactory : Type 0 where
  object : Db → DbFactory
  function : Result Db → DbFactory
  generator : DbFactory

-- `except (AttributeError, OSError, RuntimeError, TypeError, ValueError)`
unfoldable pub is_suppressed : Exception → Bool
is_suppressed (raised attribute_error _) = true
is_suppressed (raised runtime_error _) = true
is_suppressed (raised type_error _) = true
is_suppressed (raised value_error _) = true
is_suppressed (raised kind _) = is_os_error kind
is_suppressed (salesforce _) = false

unfoldable pub db_of : DbFactory → Result Db
db_of (object db) = ok db
db_of (function made) = made
db_of generator = err (raised type_error "'generator' object is not callable")

abbrev pub raised_by : Option Exception → Result (Unit {0})
raised_by none = ok tt
raised_by (some exc) = err exc

-- `add`, `commit` and `close`: a row that was committed stays, also where `close` raises.
unfoldable pub persist_row :
    Db → FailedExternalCall → List FailedExternalCall → Result (Unit {0}) × List FailedExternalCall
persist_row without_add row table = (err (raised attribute_error "add"), table)
persist_row (opened session) row table = added session.add session.commit
  where
    added : Option Exception → Option Exception → Result (Unit {0}) × List FailedExternalCall
    added (some exc) commit = (err exc, table)
    added none (some exc) = (err exc, table)
    added none none = (raised_by session.close, table ++ row ∷ [])

-- The handlers of `_persist_to_db` and of `write_to_dlq`, which are the same.
abbrev pub suppressed : Result (Unit {0}) → Result (Unit {0})
suppressed (ok _) = ok tt
suppressed (err exc) = if is_suppressed exc then ok tt else err exc

unfoldable pub persist_to_db :
    Result Db
    → FailedExternalCall
    → List FailedExternalCall
    → Result (Unit {0}) × List FailedExternalCall
persist_to_db (err exc) row table = (suppressed (err exc), table)
persist_to_db (ok db) row table =
    (suppressed (persist_row db row table).0, (persist_row db row table).1)

module _ (byte_size : Json → ℕ) (formatted : Json → String) where
  -- A value of `json` is always serialized, so the handler of its errors is never reached.
  unfoldable pub scrub_payload : Option Json → ℕ → Option Fields
  scrub_payload none max_bytes = none
  scrub_payload (some payload) max_bytes =
      let scrubbed = deep_scrub payload in
      if ltb max_bytes (byte_size scrubbed)
      then some
          (field "_truncated" (bool true) (field "size_bytes" (int (pos (byte_size scrubbed))) end))
      else some (as_dict scrubbed)

  -- `SalesforceAPIError.__str__`
  unfoldable pub salesforce_text : SalesforceError → String
  salesforce_text e =
      e.message
      <> (elim e.status_code [ none ↦ "" | some code ↦ " | status_code=" <> show code ])
      <> (if truthy e.error_code then " | error_code=" <> formatted e.error_code else "")
      <> (elim e.retryable [
        | none ↦ ""
        | some b ↦ " | retryable=" <> (if b then "True" else "False")
      ])

  -- `error_str`: the text that is given, if any, or the exception's with its status in front.
  unfoldable pub error_text : Option Failure → Option String
  error_text none = none
  error_text (some (told s)) = if s == "" then none else some (take_text 4000 s)
  error_text (some (thrown (raised kind message))) = some (take_text 4000 message)
  error_text (some (thrown (salesforce e))) =
      let shown = take_text 4000 (salesforce_text e) in
      some (elim e.status_code [
        | none ↦ shown
        | some code ↦ "status_code=" <> show code <> "; " <> shown
      ])

  -- `json.dumps` of a payload that is missing or empty is not measured.
  abbrev pub payload_size : Option Fields → ℕ
  payload_size none = 0
  payload_size (some end) = 0
  payload_size (some (field k v fs)) = byte_size (obj (field k v fs))

  abbrev pub failed_call :
      ℕ
      → ℕ
      → String
      → String
      → Option Json
      → ℕ
      → Option Failure
      → Option String
      → Option String
      → FailedExternalCall
  failed_call max_bytes now target_service operation payload attempts error organization_id
        scan_id =
      let scrubbed = scrub_payload payload max_bytes in
      record {
        target_service = take_text 64 target_service;
        operation = take_text 128 operation;
        organization_id = organization_id;
        scan_id = scan_id;
        payload = scrubbed;
        payload_size_bytes = payload_size scrubbed;
        attempts = attempts;
        last_error = error_text error;
        status = new;
        created_at = now;
      }

  -- `write_to_dlq` with the table's rows, the oldest first. No factory is a log line only.
  unfoldable pub write_to_dlq :
      ℕ
      → ℕ
      → String
      → String
      → Option Json
      → ℕ
      → Option Failure
      → Option String
      → Option String
      → Option DbFactory
      → List FailedExternalCall
      → Result (Unit {0}) × List FailedExternalCall
  write_to_dlq max_bytes now target_service operation payload attempts error organization_id scan_id
        none table =
      (ok tt, table)
  write_to_dlq max_bytes now target_service operation payload attempts error organization_id scan_id
        (some db_factory) table =
      persist_to_db (db_of db_factory)
        (failed_call max_bytes now target_service operation payload attempts error organization_id
          scan_id)
        table
