-- ===== src/Files/Saves.antt =====
-- What `save_async_results_to_disk` of src/app/services/batch_file_service.py leaves on the disk, and
-- with the paginated download of src/app/salesforce/batch_api_client.py in front of it.
use salesforce_master_servic.Auth.{Outside}
use salesforce_master_servic.BatchApi.{Client, Network, validate_job_id}
use salesforce_master_servic.BatchApi.Downloads.{ResultMeta, Generated, get_job_results_paginated}
use salesforce_master_servic.BatchApi.Pages.{concat, Delivers, get_job_results_paginated-Yields}
use salesforce_master_servic.Base.{
  ℕ, ◌<◌, ◌≡◌, refl, ap, ◌∙◌, subst, ◌⊎◌, inl, inr, false, Option, none, some, List, arith, nat_eq,
  string_eq, ◌==◌, Bool-cases, Dict, lookup, insert, erase, lookup-insert, lookup-erase, length,
  String, eq_iff, eq_refl, text_length, length-append_text,
}
use salesforce_master_servic.Errors.{Exception, Result, is_cancelled, ok, err}
use salesforce_master_servic.Files.Disk.{
  Disk, SavedFile, part_of, write_file, safe_file, counted, streamed, save_at,
  save_async_results_to_disk,
}

part_other : (path : String) → (part_of path == path) ≡ false
unfolding text_length
part_other path = elim (Bool-cases (part_of path == path)) [
  | inr e ↦ e
  | inl e ↦
      let same : part_of path ≡ path = (eq_iff (part_of path) path).0 e in
      absurd (omega (arith, length-append_text path ".part", ap text_length same))
]

-- The save is whole or not at all. A result means that the stream ended well and the path has all of
-- its bytes; an exception is the stream's, if it raised one, and leaves every file but the partial
-- one as it was. The partial file is gone, unless the exception is a cancellation.
module _ (bytes : List ℕ) (outcome : Result (Unit {0})) (path : String)
    (before : Dict (List ℕ)) where
  abbrev pub IsWhole : Result SavedFile × Disk → Type 0
  IsWhole (ok info, after) =
      (outcome ≡ ok tt)
      × (info.file_size ≡ length bytes)
      × (lookup path after.files ≡ some bytes)
      × (lookup (part_of path) after.files ≡ none)
      × ((k : String)
          → (path == k) ≡ false
          → (part_of path == k) ≡ false
          → lookup k after.files ≡ lookup k before)
  IsWhole (err exc, after) =
      ((failure : Exception) → outcome ≡ err failure → exc ≡ failure)
      × (is_cancelled exc ≡ false → lookup (part_of path) after.files ≡ none)
      × ((k : String) → (part_of path == k) ≡ false → lookup k after.files ≡ lookup k before)

module _ (count_rows : List ℕ → String ⊎ ℕ) where
  erased_part :
      (path : String) (bytes : List ℕ) (files : Dict (List ℕ)) (k : String)
      → (part_of path == k) ≡ false
      → lookup k (erase (part_of path) (insert (part_of path) bytes files)) ≡ lookup k files
  erased_part path bytes files k other =
      lookup-erase (part_of path) k (insert (part_of path) bytes files)
      ∙ rw other (lookup-insert (part_of path) k bytes files ∙ rw other refl)

  no_part :
      (path : String) (files : Dict (List ℕ))
      → lookup (part_of path) (erase (part_of path) files) ≡ none
  no_part path files =
      lookup-erase (part_of path) (part_of path) files ∙ rw (eq_refl (part_of path)) refl

  counted-IsWhole :
      (object_name path : String) (bytes : List ℕ) (found : String ⊎ ℕ) (disk : Disk)
      → IsWhole bytes
          (ok tt)
          path
          disk.files
          (counted count_rows object_name path bytes found (write_file (part_of path) bytes disk))
  counted-IsWhole object_name path bytes (inl text) disk = (
    (λ failure h. absurd (ground (arith, h))),
    (λ _. no_part path (insert (part_of path) bytes disk.files)),
    erased_part path bytes disk.files,
  )
  counted-IsWhole object_name path bytes (inr rows) disk =
      let erased = erase (part_of path) (insert (part_of path) bytes disk.files) in
      let other : (path == part_of path) ≡ false =
        ground (arith, eq_iff path (part_of path), eq_iff (part_of path) path, part_other path) in
      (
        refl,
        refl,
        lookup-insert path path bytes erased ∙ rw (eq_refl path) refl,
        lookup-insert path (part_of path) bytes erased
            ∙ rw other (no_part path (insert (part_of path) bytes disk.files)),
        (λ k p q. lookup-insert path k bytes erased ∙ rw p (erased_part path bytes disk.files k q)),
      )

  streamed-IsWhole :
      (object_name path : String) (bytes : List ℕ) (outcome : Result (Unit {0})) (disk : Disk)
      → IsWhole bytes outcome path disk.files (
          streamed count_rows object_name path bytes outcome (write_file (part_of path) bytes disk))
  streamed-IsWhole object_name path bytes (ok _) disk =
      counted-IsWhole object_name path bytes (count_rows bytes) disk
  streamed-IsWhole object_name path bytes (err exc) disk = elim (Bool-cases (is_cancelled exc)) [
    | inl e ↦ rw e (
      (λ failure h. ground (arith, h)),
      (λ q. absurd (ground (arith, q))),
      (λ k q. lookup-insert (part_of path) k bytes disk.files ∙ rw q refl),
    )
    | inr e ↦ rw e (
      (λ failure h. ground (arith, h)),
      (λ _. no_part path (insert (part_of path) bytes disk.files)),
      erased_part path bytes disk.files,
    )
  ]

  -- The save after the check of the path: a refused path leaves the files as they are.
  abbrev pub IsSaved :
      List ℕ → Result (Unit {0}) → Disk → Result String × Disk → Result SavedFile × Disk → Type 0
  IsSaved bytes outcome before (ok path, _) result = IsWhole bytes outcome path before.files result
  IsSaved bytes outcome before (err exc, _) result =
      (result.0 ≡ err exc) × (result.1.files ≡ before.files)

  save_at-IsSaved :
      (object_name : String) (stream : Generated) (bytes : List ℕ) (outcome : Result (Unit {0}))
      (before : Disk) (checked : Result String × Disk)
      → checked.1.files ≡ before.files
      → concat stream.yielded ≡ bytes
      → stream.ended ≡ outcome
      → IsSaved bytes outcome before checked (save_at count_rows object_name stream checked)
  save_at-IsSaved object_name stream bytes outcome before (err exc, disk) h b o = (refl, h)
  save_at-IsSaved object_name stream bytes outcome before (ok path, disk) h b o =
      rw (b, o)
        (subst
          (λ (files : Dict (List ℕ)). IsWhole bytes outcome path files (
            streamed count_rows object_name path bytes outcome
              (write_file (part_of path) bytes disk)))
          h (streamed-IsWhole object_name path bytes outcome disk))

  safe_file-files :
      (root : List String) (scan_id object_name : String) (disk : Disk)
      → (safe_file root scan_id object_name disk).1.files ≡ disk.files
  unfolding safe_file
  safe_file-files root scan_id object_name disk = ground arith

  module _ (outside : Outside) (urlencode : Dict String → String) (network : Network)
      (client : Client) (job_id : String) (max_records : Option ℕ) where
    -- The download of a job to a file, with fuel above the number of pages that the server delivers.
    -- A path that is refused leaves every file as it is. Otherwise, if the save succeeds, the delivery
    -- ended well and the file has the bytes of all pages in order; if it fails, every file but the
    -- partial one is as it was, and an exception of the delivery is the one that comes out. The
    -- partial file is gone, unless that is a cancellation.
    pub save-download :
        (fuel : ℕ) (meta : Option ResultMeta) (pages : List (List (List ℕ)))
        (outcome : Result (Unit {0})) (root : List String) (scan_id object_name : String)
        (disk : Disk)
        → validate_job_id job_id ≡ ok tt
        → Delivers outside urlencode network client job_id max_records 0 none pages outcome
        → length pages < fuel
        → (stream : Generated) × (get_job_results_paginated outside urlencode network client job_id
              max_records fuel meta
            ≡ some stream)
          × IsSaved
              (concat (concat pages))
              outcome
              disk
              (safe_file root scan_id object_name disk)
              (save_async_results_to_disk count_rows root scan_id object_name stream disk)
    unfolding save_async_results_to_disk
    save-download fuel meta pages outcome root scan_id object_name disk valid d h =
        let (stream, run, bytes, ended) =
          get_job_results_paginated-Yields outside urlencode network client job_id max_records valid
            fuel meta pages outcome d h in
        (
          stream,
          run,
          save_at-IsSaved object_name stream (concat (concat pages)) outcome disk
              (safe_file root scan_id object_name disk)
              (safe_file-files root scan_id object_name disk) bytes ended,
        )
