-- ===== src/Dlq/Writes.antt =====
-- What `write_to_dlq` of src/app/resilience/dlq.py leaves in the table.
use salesforce_master_servic.Base.{
  ℕ, ◌≤◌, ◌<◌, ◌≡◌, refl, ◌⊎◌, inl, inr, Bool, true, false, Option, none, some, List, [], ◌∷◌, ◌++◌,
  arith, if◌then◌else◌, ltb, Bool-cases, String, take_text, pos,
}
use salesforce_master_servic.Json.{Json, bool, int, Fields, end, field}
use salesforce_master_servic.Errors.{
  Exception, Result, type_error, attribute_error, raised, ok, err,
}
use salesforce_master_servic.Dlq.{
  as_dict, Db, DbFactory, is_suppressed, db_of, raised_by, persist_row, suppressed, persist_to_db,
  deep_scrub, new, FailedExternalCall, Failure, opened, without_add, object, function, generator,
  scrub_payload, error_text, failed_call, write_to_dlq,
}
use salesforce_master_servic.Dlq.Redaction.{deep_scrub-Scrubs, Scrubs}

-- The payload of a row: none for none, the scrubbed payload as a dict where it is small enough, and
-- else its size only.
abbrev pub IsPayload : (Json → ℕ) → ℕ → Option Json → Option Fields → Type 0
IsPayload byte_size max_bytes none kept = kept ≡ none
IsPayload byte_size max_bytes (some payload) kept =
    (scrubbed : Json) × Scrubs payload scrubbed
    × (((byte_size scrubbed ≤ max_bytes) × (kept ≡ some (as_dict scrubbed)))
        ⊎ ((max_bytes < byte_size scrubbed)
            × (kept
                ≡ some (
                    field "_truncated" (bool true)
                      (field "size_bytes" (int (pos (byte_size scrubbed))) end)))))

-- What the use of an object as a session leads to: the row is in the table exactly where `add` and
-- `commit` went well.
pub data Used : Db → Bool → Option Exception → Type 0 where
  no_session : Used without_add false (some (raised attribute_error "add"))
  not_added :
      {exc : Exception} {commit close : Option Exception}
      → Used (opened (record { add = some exc; commit = commit; close = close })) false (some exc)
  not_committed :
      {exc : Exception} {close : Option Exception}
      → Used (opened (record { add = none; commit = some exc; close = close })) false (some exc)
  committed :
      {close : Option Exception}
      → Used (opened (record { add = none; commit = none; close = close })) true close

-- How a write ends, by the factory: whether the row is in the table, and which exception came up.
pub data Ends : DbFactory → Bool → Option Exception → Type 0 where
  no_call : Ends generator false (some (raised type_error "'generator' object is not callable"))
  not_made : {exc : Exception} → Ends (function (err exc)) false (some exc)
  object_used :
      {db : Db} {written : Bool} {exc : Option Exception}
      → Used db written exc
      → Ends (object db) written exc
  made :
      {db : Db} {written : Bool} {exc : Option Exception}
      → Used db written exc
      → Ends (function (ok db)) written exc

-- What comes out of the handlers: an exception of the five classes, or none, is no exception any more.
abbrev pub ComesOut : Option Exception → Result (Unit {0}) → Type 0
ComesOut none result = result ≡ ok tt
ComesOut (some exc) result =
    ((is_suppressed exc ≡ true) × (result ≡ ok tt))
    ⊎ ((is_suppressed exc ≡ false) × (result ≡ err exc))

comes_out : (exc : Option Exception) → ComesOut exc (suppressed (raised_by exc))
comes_out none = refl
comes_out (some exc) = elim (Bool-cases (is_suppressed exc)) [
  | inl e ↦ rw e (inl (refl, refl))
  | inr e ↦ rw e (inr (refl, refl))
]

-- The table after a write, and its result, by how it ends.
abbrev pub Persists :
    DbFactory
    → FailedExternalCall
    → List FailedExternalCall
    → Result (Unit {0}) × List FailedExternalCall
    → Type 0
Persists db_factory row table run =
    (written : Bool) × (exc : Option Exception) × Ends db_factory written exc
    × (run.1 ≡ (if written then table ++ row ∷ [] else table))
    × ComesOut exc run.0

-- The same for an object that is used.
abbrev WritesBy : Db → FailedExternalCall → List FailedExternalCall → Type 0
WritesBy db row table =
    (written : Bool) × (exc : Option Exception) × Used db written exc
    × ((persist_row db row table).1 ≡ (if written then table ++ row ∷ [] else table))
    × ComesOut exc (suppressed (persist_row db row table).0)

persist_row-WritesBy :
    (db : Db) (row : FailedExternalCall) (table : List FailedExternalCall) → WritesBy db row table
unfolding persist_row
persist_row-WritesBy without_add row table = (
  false,
  some (raised attribute_error "add"),
  no_session,
  refl,
  comes_out (some (raised attribute_error "add")),
)
persist_row-WritesBy (opened session) row table = used session.add session.commit session.close
  where
    used :
        (add commit close : Option Exception)
        → WritesBy (opened (record { add = add; commit = commit; close = close })) row table
    used (some exc) commit close = (false, some exc, not_added, refl, comes_out (some exc))
    used none (some exc) close = (false, some exc, not_committed, refl, comes_out (some exc))
    used none none close = (true, close, committed, refl, comes_out close)

persist_to_db-Persists :
    (db_factory : DbFactory) (row : FailedExternalCall) (table : List FailedExternalCall)
    → Persists db_factory row table (persist_to_db (db_of db_factory) row table)
unfolding persist_to_db db_of
persist_to_db-Persists generator row table =
    let exc = some (raised type_error "'generator' object is not callable") in
    (false, exc, no_call, refl, comes_out exc)
persist_to_db-Persists (function (err exc)) row table =
    (false, some exc, not_made, refl, comes_out (some exc))
persist_to_db-Persists (function (ok db)) row table =
    let (written, exc, used, same, out) = persist_row-WritesBy db row table in
    (written, exc, made used, same, out)
persist_to_db-Persists (object db) row table =
    let (written, exc, used, same, out) = persist_row-WritesBy db row table in
    (written, exc, object_used used, same, out)

module _ (byte_size : Json → ℕ) (formatted : Json → String) where
  scrub_payload-IsPayload :
      (max_bytes : ℕ) (payload : Option Json)
      → IsPayload byte_size max_bytes payload (scrub_payload byte_size formatted payload max_bytes)
  unfolding scrub_payload
  scrub_payload-IsPayload max_bytes none = refl
  scrub_payload-IsPayload max_bytes (some payload) =
      elim (Bool-cases (ltb max_bytes (byte_size (deep_scrub payload)))) [
        | inl e ↦
            rw e (deep_scrub payload, (deep_scrub-Scrubs payload).0, inr (ground (arith, e), refl))
        | inr e ↦
            rw e (deep_scrub payload, (deep_scrub-Scrubs payload).0, inl (ground (arith, e), refl))
      ]

  -- A write to the queue makes a row of the call's attempts and ids, with the payload scrubbed, or its
  -- size where it is too large, and appends it to the table exactly where the factory gives a session,
  -- itself or by a call, whose `add` and `commit` go well; else the table stays as it is. The five
  -- classes of exceptions that are handled do not come out; any other, such as those of SQLAlchemy,
  -- does. The factory that the services pass returns a maker of sessions, and writes nothing.
  pub write_to_dlq-Persists :
      (max_bytes now : ℕ) (target_service operation : String) (payload : Option Json) (attempts : ℕ)
      (error : Option Failure) (organization_id scan_id : Option String) (db_factory : DbFactory)
      (table : List FailedExternalCall)
      → (row : FailedExternalCall) × Persists db_factory row table (
          write_to_dlq byte_size formatted max_bytes now target_service operation payload attempts
            error organization_id scan_id
            (some db_factory)
            table)
        × IsPayload byte_size max_bytes payload row.payload
        × (row.attempts ≡ attempts)
        × (row.organization_id ≡ organization_id)
        × (row.scan_id ≡ scan_id)
        × (row.target_service ≡ take_text 64 target_service)
        × (row.operation ≡ take_text 128 operation)
        × (row.last_error ≡ error_text byte_size formatted error)
        × (row.status ≡ new)
  unfolding write_to_dlq
  write_to_dlq-Persists max_bytes now target_service operation payload attempts error
        organization_id scan_id db_factory table =
      let row =
        failed_call byte_size formatted max_bytes now target_service operation payload attempts
          error organization_id scan_id in
      (
        row,
        persist_to_db-Persists db_factory row table,
        scrub_payload-IsPayload max_bytes payload,
        refl,
        refl,
        refl,
        refl,
        refl,
        refl,
        refl,
      )
