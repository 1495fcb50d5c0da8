-- ===== src/Files/Schema.antt =====
-- `infer_schema` of src/app/services/batch_file_service.py, of rows that are no longer than the
-- header. A value that is missing is `none`; whether `float` reads a text is a parameter.
use salesforce_master_servic.Base.{
  ◌≡◌, refl, sym, ◌∙◌, inl, inr, Bool, false, Option, none, some, List, [], ◌∷◌, ◌++◌, arith,
  if◌then◌else◌, nat_eq, string_eq, ◌==◌, Bool-cases, ◌∈?◌, is_some, or_default, Dict, lookup,
  insert, lookup-insert, take, String, eq_iff, lower, int_of_text, given,
}
use salesforce_master_servic.Files.{read_csv_rows}
use salesforce_master_servic.Files.Pages.{read_csv_rows-eq-page}

abbrev pub Record : Type 0
Record = Dict (Option String)

module _ (is_float : String → Bool) where
  unfoldable pub kind_of : String → String
  kind_of value =
      if lower value ∈? ("true" ∷ "false" ∷ [])
      then "boolean"
      else if is_some (int_of_text value)
      then "integer"
      else if is_float value
      then "number"
      else "string"

  -- A value that is there is looked at only while the field counts as a text.
  abbrev pub note_given : String → Option String → Dict String → Dict String
  note_given key none fields = fields
  note_given key (some value) fields =
      if or_default (lookup key fields) "string" == "string"
      then insert key (kind_of value) fields
      else fields

  -- `for key, value in record.items()`
  unfoldable pub note_record : Record → Dict String → Dict String
  note_record [] fields = fields
  note_record ((key, value) ∷ record') fields =
      note_record record' (note_given key (given value) fields)

  unfoldable pub note_records : List Record → Dict String → Dict String
  note_records [] fields = fields
  note_records (record' ∷ records) fields = note_records records (note_record record' fields)

  -- The fields and their types, from the first hundred rows.
  unfoldable pub infer_schema : List Record → Dict String
  infer_schema rows = note_records (read_csv_rows (some 1) (some 100) rows) []

  -- The values of a column, over all rows.
  abbrev pub values_of : String → Record → List (Option String)
  values_of key [] = []
  values_of key ((k, value) ∷ rest) =
      let values = values_of key rest in if k == key then given value ∷ values else values

  abbrev pub column : String → List Record → List (Option String)
  column key [] = []
  column key (record' ∷ records) = values_of key record' ++ column key records

  -- The type of the first value that is no plain text; a column of plain texts is one of texts, and
  -- one without values has no type.
  abbrev pub column_type : List (Option String) → Option String
  column_type [] = none
  column_type (none ∷ values) = column_type values
  column_type (some value ∷ values) =
      let rest = column_type values in
      if kind_of value == "string" then some (or_default rest "string") else some (kind_of value)

  -- One value at a time, as the loop goes.
  abbrev next_type : Option String → Option String → Option String
  next_type current none = current
  next_type current (some value) =
      if or_default current "string" == "string" then some (kind_of value) else current

  abbrev folded : Option String → List (Option String) → Option String
  folded current [] = current
  folded current (value ∷ values) = folded (next_type current value) values

  lookup-note_given :
      (key k : String) (value : Option String) (fields : Dict String)
      → lookup k (note_given key value fields)
        ≡ (if key == k then next_type (lookup k fields) value else lookup k fields)
  lookup-note_given key k none fields = ground arith
  lookup-note_given key k (some value) fields =
      ground (arith, eq_iff key k, lookup-insert key k (kind_of value) fields)

  lookup-note_record :
      (k : String) (record' : Record) (fields : Dict String)
      → lookup k (note_record record' fields) ≡ folded (lookup k fields) (values_of k record')
  unfolding note_record
  lookup-note_record k [] fields = refl
  lookup-note_record k ((key, value) ∷ rest) fields =
      lookup-note_record k rest (note_given key (given value) fields)
      ∙ (elim (Bool-cases (key == k)) [
        | inl e ↦ rw (lookup-note_given key k (given value) fields, e) refl
        | inr e ↦ rw (lookup-note_given key k (given value) fields, e) refl
      ])

  folded-append :
      (current : Option String) (xs ys : List (Option String))
      → folded current (xs ++ ys) ≡ folded (folded current xs) ys
  folded-append current [] ys = refl
  folded-append current (x ∷ xs) ys = folded-append (next_type current x) xs ys

  lookup-note_records :
      (k : String) (records : List Record) (fields : Dict String)
      → lookup k (note_records records fields) ≡ folded (lookup k fields) (column k records)
  unfolding note_records
  lookup-note_records k [] fields = refl
  lookup-note_records k (record' ∷ records) fields =
      lookup-note_records k records (note_record record' fields)
      ∙ rw (lookup-note_record k record' fields)
          (sym (folded-append (lookup k fields) (values_of k record') (column k records)))

  folded-typed :
      (t : String) (values : List (Option String))
      → (t == "string") ≡ false
      → folded (some t) values ≡ some t
  folded-typed t [] h = refl
  folded-typed t (none ∷ values) h = folded-typed t values h
  folded-typed t (some value ∷ values) h = rw h (folded-typed t values h)

  folded-text :
      (values : List (Option String))
      → folded (some "string") values ≡ some (or_default (column_type values) "string")
  folded-text [] = refl
  folded-text (none ∷ values) = folded-text values
  folded-text (some value ∷ values) = elim (Bool-cases (kind_of value == "string")) [
    | inl e ↦
        let same : kind_of value ≡ "string" = (eq_iff (kind_of value) "string").0 e in
        rw same (folded-text values)
    | inr e ↦ rw e (folded-typed (kind_of value) values e)
  ]

  folded-type : (values : List (Option String)) → folded none values ≡ column_type values
  folded-type [] = refl
  folded-type (none ∷ values) = folded-type values
  folded-type (some value ∷ values) = elim (Bool-cases (kind_of value == "string")) [
    | inl e ↦
        let same : kind_of value ≡ "string" = (eq_iff (kind_of value) "string").0 e in
        rw same (folded-text values)
    | inr e ↦ rw e (folded-typed (kind_of value) values e)
  ]

  -- The type of a field is that of its first value, among the first hundred rows, that is no plain
  -- text, whatever the later values are. A field whose values there are all plain texts is a text,
  -- and one without a value is left out.
  pub infer_schema-first :
      (key : String) (rows : List Record)
      → lookup key (infer_schema rows) ≡ column_type (column key (take 100 rows))
  unfolding infer_schema lookup
  infer_schema-first key rows =
      lookup-note_records key (read_csv_rows (some 1) (some 100) rows) []
      ∙ rw (read_csv_rows-eq-page (some 1) (some 100) rows)
          (folded-type (column key (take 100 rows)))
