-- ===== src/Tests/Payloads.antt =====
-- Dead letters and rows, at concrete inputs.
use salesforce_master_servic.Base.{
  ℕ, ◌≡◌, refl, ◌↔◌, true, none, some, List, [], ◌∷◌, map, drop, String, take_text, pos,
}
use salesforce_master_servic.Json.{Json, int, str, arr, obj, nil, cons, end, field}
use salesforce_master_servic.Dlq.{
  DbFactory, is_suppressed, db_of, persist_row, persist_to_db, deep_scrub, new, FailedExternalCall,
  told, opened, function, error_text, write_to_dlq,
}
use salesforce_master_servic.Dlq.Redaction.{deep_scrub-Scrubs, IsRedacted, Scrubs}
use salesforce_master_servic.Dlq.Writes.{IsPayload, Persists, write_to_dlq-Persists}
use salesforce_master_servic.Normalizers.{Record, row, normalize, task_event_normalizer}
use salesforce_master_servic.Normalizers.Tables.{rows_of, count_rows, normalize-keeps}
use salesforce_master_servic.Normalization.{merge_file}
use salesforce_master_servic.Normalization.Outcomes.{merge_file-replaces}
use salesforce_master_servic.Files.{all_component_chars, is_valid_component, read_csv_rows}
use salesforce_master_servic.Files.Pages.{take_limit, read_csv_rows-eq-page}
use salesforce_master_servic.Errors.{other_error, raised, ok, err}

abbrev login : Json
login = obj (
    field "user" (str "a") (
      field "Password" (str "b")
        (field "calls" (arr (cons (obj (field "token" (int (pos 3)) end)) nil)) end)))

deep_scrub-Scrubs_example :
    Scrubs login (deep_scrub login) × ((deep_scrub login ≡ login) ↔ IsRedacted login)
deep_scrub-Scrubs_example = deep_scrub-Scrubs login

abbrev byte_size : Json → ℕ
byte_size j = 10

abbrev formatted : Json → String
formatted j = "x"

-- A session whose commit SQLAlchemy refuses.
abbrev refusing : DbFactory
refusing = function (
    ok (
      opened (record {
        add = none;
        commit = some (raised other_error "database is locked");
        close = none;
      })))

write_to_dlq-Persists_example :
    (row : FailedExternalCall) × Persists refusing row [] (
      write_to_dlq byte_size formatted 100 5 "salesforce" "create"
        (some login)
        4
        (some (told "down"))
        none
        none
        (some refusing)
        [])
    × IsPayload byte_size 100 (some login) row.payload
    × (row.attempts ≡ 4)
    × (row.organization_id ≡ none)
    × (row.scan_id ≡ none)
    × (row.target_service ≡ take_text 64 "salesforce")
    × (row.operation ≡ take_text 128 "create")
    × (row.last_error ≡ error_text byte_size formatted (some (told "down")))
    × (row.status ≡ new)
write_to_dlq-Persists_example =
    write_to_dlq-Persists byte_size formatted 100 5 "salesforce" "create" (some login) 4
      (some (told "down")) none none refusing []

-- The commit's exception comes out, and nothing is written.
refused_commit :
    write_to_dlq byte_size formatted 100 5 "salesforce" "create"
      (some login)
      4
      (some (told "down"))
      none
      none
      (some refusing)
      []
    ≡ (err (raised other_error "database is locked"), [])
unfolding write_to_dlq persist_to_db persist_row db_of is_suppressed
refused_commit = refl

abbrev meeting : Record
meeting = ("Id", str "1") ∷ ("Subject", str " Call ") ∷ ("StartDateTime", str "2026-01-01") ∷ []

abbrev named : Record
named = ("Id", str "7") ∷ ("Name", str "  Acme ") ∷ ("Type", str " ") ∷ []

abbrev todo : Record
todo = ("Id", str "2") ∷ ("Subject", str "Mail") ∷ []

normalize-keeps_example :
    (map (λ t. t.0) (normalize task_event_normalizer (meeting ∷ todo ∷ []))
      ≡ "tasks" ∷ "events" ∷ [])
    × (count_rows ("tasks" ∷ "events" ∷ []) (normalize task_event_normalizer (meeting ∷ todo ∷ []))
        ≡ 2)
normalize-keeps_example = normalize-keeps task_event_normalizer (meeting ∷ todo ∷ [])

merge_file-replaces_example :
    rows_of "events" (
      merge_file
        (merge_file [] task_event_normalizer (meeting ∷ []))
        task_event_normalizer
        (todo ∷ []))
    ≡ rows_of "events" (normalize task_event_normalizer (todo ∷ []))
merge_file-replaces_example = merge_file-replaces [] (meeting ∷ []) (todo ∷ [])

abbrev three : List ℕ
three = 1 ∷ 2 ∷ 3 ∷ []

read_csv_rows-eq-page_example :
    read_csv_rows (some 2) (some 2) three ≡ take_limit (some 2) (drop 2 three)
read_csv_rows-eq-page_example = read_csv_rows-eq-page (some 2) (some 2) three

dots-IsValid : is_valid_component ".." ≡ true
unfolding is_valid_component all_component_chars
dots-IsValid = refl
