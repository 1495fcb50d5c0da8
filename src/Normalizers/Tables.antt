-- ===== src/Normalizers/Tables.antt =====
-- The tables that the normalizers of src/app/normalization/normalizers.py fill, and the loop over
-- the files of a scan.
use salesforce_master_servic.Base.{
  ℕ, ◌+◌, ◌≡◌, refl, inl, inr, Bool, not, List, [], ◌∷◌, map, arith, Bool-cases, or_default, lookup,
  length-map, length, take, keep, String,
}
use salesforce_master_servic.Normalizers.{
  Record, TableSet, is_event, Normalizer, output_tables, main_row, normalize, account_normalizer,
  contact_normalizer, opportunity_normalizer, lead_normalizer, case_normalizer,
  task_event_normalizer, campaign_normalizer, opportunity_contact_role_normalizer,
  case_comment_normalizer, campaign_member_normalizer, user_normalizer,
  opportunity_line_item_normalizer,
}

-- The tables that hold a row for each record.
abbrev pub main_tables : Normalizer → List String
main_tables task_event_normalizer = "tasks" ∷ "events" ∷ []
main_tables n = take 1 (output_tables n)

abbrev pub rows_of : String → TableSet → List Record
rows_of name tables = or_default (lookup name tables) []

unfoldable pub count_rows : List String → TableSet → ℕ
count_rows [] tables = 0
count_rows (name ∷ names) tables = length (rows_of name tables) + count_rows names tables

keep-splits :
    (p : Record → Bool) (records : List Record)
    → length (keep (λ r. not (p r)) records) + length (keep p records) ≡ length records
keep-splits p [] = omega arith
keep-splits p (r ∷ records) = elim (Bool-cases (p r)) [
  | inl e ↦ rw e (omega (arith, keep-splits p records))
  | inr e ↦ rw e (omega (arith, keep-splits p records))
]

one_table :
    (f : Record → Record) (records : List Record) → length (map f records) + 0 ≡ length records
one_table f records = omega (arith, length-map f records)

-- Each normalizer gives the tables of its catalog entry, in that order, and the main ones hold one
-- row for each record: of a task or event normalizer the two tables together.
pub normalize-keeps :
    (n : Normalizer) (records : List Record)
    → (map (λ t. t.0) (normalize n records) ≡ output_tables n)
      × (count_rows (main_tables n) (normalize n records) ≡ length records)
unfolding normalize count_rows lookup
normalize-keeps account_normalizer records = (refl, one_table _ records)
normalize-keeps contact_normalizer records = (refl, one_table _ records)
normalize-keeps opportunity_normalizer records = (refl, one_table _ records)
normalize-keeps lead_normalizer records = (refl, one_table _ records)
normalize-keeps case_normalizer records = (refl, one_table _ records)
normalize-keeps task_event_normalizer records = (
  refl,
  omega (
    arith,
    length-map (main_row task_event_normalizer) (keep (λ r. not (is_event r)) records),
    length-map (main_row task_event_normalizer) (keep is_event records),
    keep-splits is_event records,
  ),
)
normalize-keeps campaign_normalizer records = (refl, one_table _ records)
normalize-keeps opportunity_contact_role_normalizer records = (refl, one_table _ records)
normalize-keeps case_comment_normalizer records = (refl, one_table _ records)
normalize-keeps campaign_member_normalizer records = (refl, one_table _ records)
normalize-keeps user_normalizer records = (refl, one_table _ records)
normalize-keeps opportunity_line_item_normalizer records = (refl, one_table _ records)
