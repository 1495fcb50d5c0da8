-- ===== src/Normalization.antt =====
-- `NormalizationService` of src/app/services/normalization_service.py, over the job service. The
-- files and the object storage are an interface: what each call gives, in the world it is made in.
pub mod Outcomes
use salesforce_master_servic.Base.{
  ℕ, ◌+◌, Bool, true, false, not, ◌||◌, Option, none, some, List, [], ◌∷◌, map, if◌then◌else◌,
  nat_eq, string_eq, ◌==◌, Dict, lookup, update, length, String, ◌<>◌, show, take_text,
}
use salesforce_master_servic.Status.{status_eq, value, extracted, completed}
use salesforce_master_servic.Errors.{Exception, Result, is_cancelled, value_error, raised, ok}
use salesforce_master_servic.Job.{Job}
use salesforce_master_servic.Session.{Session}
use salesforce_master_servic.JobService.{
  get_job, update_job_status, update_heartbeat, fail_job, start_normalization,
  complete_normalization, start_minio_upload, complete_minio_upload,
}
use salesforce_master_servic.Normalizers.{
  Record, TableSet, Normalizer, normalize, normalizer_registry,
}
use salesforce_master_servic.Flow.{
  World, Act, pure, raise, ◌>>=◌, ◌>>◌, call, write_audit, try_except,
}

pub record FileInfo : Type 0 where
  pub object_name : String
  pub path : String
  pub record_count : ℕ

pub record NormalizationFiles (S : Session) : Type 0 where
  pub get_file_info : String → World S → Result (List FileInfo)
  pub read_csv_file : String → World S → Result (List Record)
  -- The path of each table's file.
  pub save_to_files : TableSet → String → String → World S → Result (Dict String)
  -- The object keys.
  pub upload_normalized_data :
      String → String → String → Dict String → World S → Result (List String)

pub record NormalizeOptions : Type 0 where
  pub output_format : String
  pub save_to_disk : Bool
  pub upload_to_minio : Bool
  -- `processing_date or` today's date
  pub date : String

pub record NormalizationSummary : Type 0 where
  pub scan_id : String
  pub status : String
  pub tables : Dict ℕ
  pub paths : Dict String

-- `{name: len(rows) for name, rows in all_tables.items()}`
abbrev pub table_counts : TableSet → Dict ℕ
table_counts tables = map (λ t. (t.0, length t.1)) tables

-- `{str(index): key for index, key in enumerate(keys)}`
abbrev pub numbered : ℕ → List String → Dict String
numbered n [] = []
numbered n (key ∷ keys) = (show n, key) ∷ numbered (n + 1) keys

-- `job.organization_id or "unknown"`
abbrev pub or_unknown : Option String → String
or_unknown none = "unknown"
or_unknown (some s) = if s == "" then "unknown" else s

-- `updated.status.value if updated else "UNKNOWN"`
abbrev pub status_text : Option Job → String
status_text none = "UNKNOWN"
status_text (some job) = value job.status

-- The tables so far, after those of one more file.
unfoldable pub merge_file : TableSet → Normalizer → List Record → TableSet
merge_file all_tables normalizer records = update all_tables (normalize normalizer records)

module _ (S : Session) (clock : ℕ → ℕ) (files : NormalizationFiles S) where
  abbrev outside : {A : Type 0} → (World S → Result A) → Act S A
  outside f w = (f w, w)

  abbrev heartbeat : String → Act S (Option Job)
  heartbeat scan_id = call (update_heartbeat S clock scan_id)

  abbrev event : String → String → String → Job → String → Option String → Act S (Unit {0})
  event category event_type outcome job scan_id detail = write_audit (record {
    category = category;
    event_type = event_type;
    outcome = outcome;
    organization_id = job.organization_id;
    resource_id = some scan_id;
    error_detail = detail;
  })

  abbrev save_if : Bool → TableSet → String → String → Act S (Dict String)
  save_if true tables scan_id format = outside (files.save_to_files tables scan_id format)
  save_if false tables scan_id format = pure []

  -- One file, with the tables and paths so far; an object without a normalizer is passed over.
  unfoldable pub normalize_file :
      String
      → NormalizeOptions
      → FileInfo
      → Option Normalizer
      → TableSet × Dict String
      → Act S (TableSet × Dict String)
  normalize_file scan_id options info none so_far = pure so_far
  normalize_file scan_id options info (some normalizer) so_far = do
    records ← outside (files.read_csv_file info.path)
    heartbeat scan_id
    saved ←
        save_if (options.save_to_disk || options.upload_to_minio) (normalize normalizer records)
          scan_id options.output_format
    pure (merge_file so_far.0 normalizer records, update so_far.1 saved)

  unfoldable pub normalize_files :
      String
      → NormalizeOptions
      → List FileInfo
      → TableSet × Dict String
      → Act S (TableSet × Dict String)
  normalize_files scan_id options [] so_far = pure so_far
  normalize_files scan_id options (info ∷ rest) so_far = do
    heartbeat scan_id
    next ← normalize_file scan_id options info (lookup info.object_name normalizer_registry) so_far
    normalize_files scan_id options rest next

  -- The upload's own handler: an audit event, and the exception again. The dead letter that it sends
  -- goes to `get_session_factory`, which is no session: it writes nothing.
  abbrev upload_failed : String → Job → (Exception → String) → Exception → Act S (List String)
  upload_failed scan_id job text exc =
      if is_cancelled exc
      then raise exc
      else (event "external" "minio_upload_failure" "failure" job scan_id
            (some (take_text 4000 (text exc)))
          >> raise exc)

  unfoldable pub upload :
      String → NormalizeOptions → Job → (Exception → String) → Dict String → Act S (Unit {0})
  upload scan_id options job text paths = do
    call (start_minio_upload S clock scan_id)
    heartbeat scan_id
    keys ←
        try_except
          (outside (
            files.upload_normalized_data scan_id (or_unknown job.organization_id) options.date
              paths))
          (upload_failed scan_id job text)
    call (complete_minio_upload S clock scan_id (some (numbered 0 keys)))
    heartbeat scan_id
    call (update_job_status S clock scan_id completed)
    event "external" "minio_upload_success" "success" job scan_id none

  abbrev upload_if :
      Bool → String → NormalizeOptions → Job → (Exception → String) → Dict String → Act S (Unit {0})
  upload_if true scan_id options job text paths = upload scan_id options job text paths
  upload_if false scan_id options job text paths = pure tt

  -- The body of the `try` block.
  unfoldable pub normalize_body :
      String → NormalizeOptions → (Exception → String) → Job → Act S NormalizationSummary
  normalize_body scan_id options text job = do
    infos ← outside (files.get_file_info scan_id)
    made ← normalize_files scan_id options infos ([], [])
    call (complete_normalization S clock scan_id (some (table_counts made.0)))
    event "normalization" "normalization_success" "success" job scan_id none
    upload_if options.upload_to_minio scan_id options job text made.1
    λ w. (
      ok (record {
        scan_id = scan_id;
        status = status_text (get_job S clock scan_id w.context);
        tables = table_counts made.0;
        paths = made.1;
      }),
      w,
    )

  -- `except Exception`, which lets a cancellation through.
  unfoldable pub normalize_failed :
      String → (Exception → String) → Job → Exception → Act S NormalizationSummary
  normalize_failed scan_id text job exc =
      if is_cancelled exc
      then raise exc
      else (call (fail_job S clock scan_id (text exc))
          >> event "normalization" "normalization_failure" "failure" job scan_id
              (some (take_text 4000 (text exc)))
          >> raise exc)

  abbrev normalize_found :
      String → NormalizeOptions → (Exception → String) → Option Job → Act S NormalizationSummary
  normalize_found scan_id options text none =
      raise (raised value_error ("scan " <> scan_id <> " not found"))
  normalize_found scan_id options text (some job) =
      if not (job.status == extracted)
      then raise (raised value_error "normalization requires an EXTRACTED scan")
      else (call (start_normalization S clock scan_id)
          >> heartbeat scan_id
          >> try_except (normalize_body scan_id options text job)
              (normalize_failed scan_id text job))

  unfoldable pub normalize_scan :
      String → NormalizeOptions → (Exception → String) → Act S NormalizationSummary
  normalize_scan scan_id options text w =
      normalize_found scan_id options text (get_job S clock scan_id w.context) w
