-- ===== src/Tests/Disks.antt =====
-- The file service, at concrete inputs.
use salesforce_master_servic.Base.{
  ℕ, ◌≡◌, refl, ◌⊎◌, inr, Bool, false, none, some, List, [], ◌∷◌, arith, lookup, length, String,
  lower, int_of_text,
}
use salesforce_master_servic.Errors.{value_error, raised, ok, err}
use salesforce_master_servic.BatchApi.{validate_job_id}
use salesforce_master_servic.BatchApi.Downloads.{Generated, get_job_results_paginated}
use salesforce_master_servic.Files.{all_component_chars, is_valid_component}
use salesforce_master_servic.Files.Disk.{
  Disk, resolve, path_text, is_below, safe_file, save_async_results_to_disk,
}
use salesforce_master_servic.Files.Saves.{IsSaved, save-download}
use salesforce_master_servic.Files.Schema.{
  Record, kind_of, infer_schema, column, column_type, infer_schema-first,
}
use salesforce_master_servic.Tests.Clients.{outside, client, network, encode, delivered}

abbrev all_rows : List ℕ → String ⊎ ℕ
all_rows bytes = inr (length bytes)

abbrev root : List String
root = "data" ∷ []

abbrev disk : Disk
disk = record { files = ("/data/s-1/extracted/Lead.csv", 9 ∷ []) ∷ []; directories = [] }

save-download_example :
    (stream : Generated) × (get_job_results_paginated outside encode network client "1" none 3 none
      ≡ some stream)
    × IsSaved all_rows
        (1 ∷ 2 ∷ 3 ∷ [])
        (ok tt)
        disk
        (safe_file root "s-1" "Lead" disk)
        (save_async_results_to_disk all_rows root "s-1" "Lead" stream disk)
unfolding validate_job_id
save-download_example =
    save-download all_rows outside encode network client "1" none 3 none
      (((1 ∷ []) ∷ [] ∷ (2 ∷ []) ∷ []) ∷ ((3 ∷ []) ∷ []) ∷ []) (ok tt) root "s-1" "Lead" disk refl
      delivered (omega arith)

path_of_lead : (safe_file root "s-1" "Lead" disk).0 ≡ ok "/data/s-1/extracted/Lead.csv"
unfolding safe_file is_valid_component all_component_chars resolve is_below path_text
path_of_lead = refl

outside_root :
    (safe_file root ".." "Lead" disk).0 ≡ err (raised value_error "result path escapes data root")
unfolding safe_file is_valid_component all_component_chars resolve is_below path_text
outside_root = refl

abbrev no_float : String → Bool
no_float s = false

abbrev rows : List Record
rows = (("Id", some "x") ∷ ("N", some "7") ∷ []) ∷ (("Id", some "y") ∷ ("N", some "z") ∷ []) ∷ []

infer_schema-first_example :
    lookup "N" (infer_schema no_float rows) ≡ column_type no_float (column no_float "N" rows)
infer_schema-first_example = infer_schema-first no_float "N" rows

typed_by_first : column_type no_float (column no_float "N" rows) ≡ some "integer"
unfolding kind_of lower int_of_text
typed_by_first = refl
