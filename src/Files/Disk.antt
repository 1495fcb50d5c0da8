-- ===== src/Files/Disk.antt =====
-- What src/app/services/batch_file_service.py does to the files under the data root. A path is its
-- components; there are no symbolic links, and the disk itself does not fail. `count_rows` is the
-- number of rows that `csv.DictReader` finds, or the text of a `UnicodeError` or `csv.Error`.

use salesforce_master_servic.Base.{
  ℕ, ◌⊎◌, inl, inr, Bool, false, not, ◌&&◌, ◌||◌, List, [], ◌∷◌, if◌then◌else◌, nat_eq, string_eq,
  ◌==◌, Dict, insert, erase, length, drop, String, ◌<>◌, starts_with,
}
use salesforce_master_servic.Errors.{Exception, Result, is_cancelled, value_error, raised, ok, err}
use salesforce_master_servic.BatchApi.Downloads.{Generated}
use salesforce_master_servic.BatchApi.Pages.{concat}
use salesforce_master_servic.Files.{is_valid_component}

-- The files by their paths, and the directories that were made.
pub record Disk : Type 0 where
  pub files : Dict (List ℕ)
  pub directories : List (List String)

pub record SavedFile : Type 0 where
  pub object_name : String
  pub path : String
  pub file_size : ℕ
  pub record_count : ℕ

-- `Path.resolve()` of a path whose first components are given, the last one first.
unfoldable pub resolve : List String → List String → List String
resolve done [] = done
resolve done (part ∷ parts) =
    let here = resolve done parts in
    let up = resolve (drop 1 done) parts in
    let down = resolve (part ∷ done) parts in
    if part == "." then here else if part == ".." then up else down

-- The text of a path from its components, the last one first.
unfoldable pub path_text : List String → String
path_text [] = ""
path_text (part ∷ parts) = path_text parts <> "/" <> part

-- `root in path.parents`, both with the last component first.
unfoldable pub is_below : List String → List String → Bool
is_below root [] = false
is_below root (part ∷ parts) = (path_text parts == path_text root) || is_below root parts

abbrev pub invalid_component {ℓ} : {A : Type ℓ} → Result A
invalid_component = err (raised value_error "path component contains invalid characters")

module _ (root : List String) where
  -- `scan_dir` of a scan that passed the check makes the directory.
  abbrev pub make_directory : String → Disk → Disk
  make_directory scan_id disk = record disk {
    directories = resolve root (scan_id ∷ "extracted" ∷ []) ∷ disk.directories;
  }

  abbrev pub file_path : String → String → List String
  file_path scan_id object_name =
      resolve root (scan_id ∷ "extracted" ∷ (object_name <> ".csv") ∷ [])

  -- `_safe_file`
  unfoldable pub safe_file : String → String → Disk → Result String × Disk
  safe_file scan_id object_name disk =
      if not (is_valid_component scan_id && is_valid_component object_name)
      then (invalid_component, disk)
      else if is_below root (file_path scan_id object_name)
      then (ok (path_text (file_path scan_id object_name)), make_directory scan_id disk)
      else (err (raised value_error "result path escapes data root"), make_directory scan_id disk)

  -- `cleanup_extracted_files`: every file below the directory goes.
  unfoldable pub cleanup_extracted_files : String → Disk → Result (Unit {0}) × Disk
  cleanup_extracted_files scan_id disk =
      let directory = resolve root (scan_id ∷ "extracted" ∷ []) in
      if not (is_valid_component scan_id)
      then (invalid_component, disk)
      else if is_below root directory
      then (ok tt, record disk { files = without (path_text directory <> "/") disk.files })
      else (err (raised value_error "cleanup path escapes data root"), disk)
    where
      without : String → Dict (List ℕ) → Dict (List ℕ)
      without prefix [] = []
      without prefix ((path, bytes) ∷ files) =
          let rest = without prefix files in
          if starts_with path prefix then rest else (path, bytes) ∷ rest

abbrev pub part_of : String → String
part_of path = path <> ".part"

abbrev pub write_file : String → List ℕ → Disk → Disk
write_file path bytes disk = record disk { files = insert path bytes disk.files }

-- `tmp_path.unlink(missing_ok=True)`
abbrev pub unlink : String → Disk → Disk
unlink path disk = record disk { files = erase path disk.files }

-- `tmp_path.replace(path)`
abbrev pub replace : String → List ℕ → Disk → Disk
replace path bytes disk = record disk {
  files = insert path bytes (erase (part_of path) disk.files);
}

module _ (count_rows : List ℕ → String ⊎ ℕ) where
  abbrev pub counted : String → String → List ℕ → String ⊎ ℕ → Disk → Result SavedFile × Disk
  counted object_name path bytes (inl text) disk = (
    err (raised value_error ("malformed CSV for " <> object_name <> ": " <> text)),
    unlink (part_of path) disk,
  )
  counted object_name path bytes (inr rows) disk = (
    ok (record {
      object_name = object_name;
      path = path;
      file_size = length bytes;
      record_count = rows;
    }),
    replace path bytes disk,
  )

  -- A cancellation is no `Exception`: it leaves the partial file.
  abbrev pub broken_off : String → Exception → Disk → Result SavedFile × Disk
  broken_off path exc disk =
      if is_cancelled exc then (err exc, disk) else (err exc, unlink (part_of path) disk)

  abbrev pub streamed :
      String → String → List ℕ → Result (Unit {0}) → Disk → Result SavedFile × Disk
  streamed object_name path bytes (err exc) disk = broken_off path exc disk
  streamed object_name path bytes (ok _) disk =
      counted object_name path bytes (count_rows bytes) disk

  -- From the path on: the stream goes to the partial file, which then takes the path's place.
  abbrev pub save_at : String → Generated → Result String × Disk → Result SavedFile × Disk
  save_at object_name stream (err exc, disk) = (err exc, disk)
  save_at object_name stream (ok path, disk) =
      streamed object_name path (concat stream.yielded) stream.ended
        (write_file (part_of path) (concat stream.yielded) disk)

  -- `save_async_results_to_disk`
  unfoldable pub save_async_results_to_disk :
      List String → String → String → Generated → Disk → Result SavedFile × Disk
  save_async_results_to_disk root scan_id object_name stream disk =
      save_at object_name stream (safe_file root scan_id object_name disk)

  -- `save_results_to_disk`, from an iterator whose chunks are in UTF-8.
  unfoldable pub save_results_to_disk :
      List String → String → String → Generated → Disk → Result SavedFile × Disk
  save_results_to_disk root scan_id object_name stream disk =
      save_at object_name stream (safe_file root scan_id object_name disk)
