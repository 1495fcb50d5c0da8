-- ===== src/Normalizers/Rows.antt =====
-- The rows that src/app/normalization/normalizers.py makes of records.
use mathlib.Core.List.{Memᴰ}
use salesforce_master_servic.Base.{
  ◌≡◌, ◌≢◌, ◌⊎◌, Bool, true, not, ◌&&◌, Option, none, some, List, [], ◌∷◌, map, nat_eq, string_eq,
  ◌∈?◌, String, lower, strip,
}
use salesforce_master_servic.Normalizers.{Record}
use salesforce_master_servic.Json.{Json, null, str}

-- No two different keys of the list are equal in lower case.
abbrev pub HasOwnColumns : List String → Type 0
HasOwnColumns keys = (j k : String) → Memᴰ j keys → Memᴰ k keys → lower j ≡ lower k → j ≡ k

module _ (r : Record) (k : String) where
  Agrees : List String → Type 0
  Agrees keys = (j : String) → Memᴰ j keys → lower j ≡ lower k → j ≡ k

-- The same as a test.
own_columns : List String → Bool
own_columns [] = true
own_columns (k ∷ keys) = not (lower k ∈? map lower keys) && own_columns keys

-- What a row holds in place of a record's value, if the record has it.
abbrev pub IsCleaned : Option Json → Json → Type 0
IsCleaned none value = value ≡ null
IsCleaned (some (str s)) value =
    ((strip s ≡ "") × (value ≡ null)) ⊎ ((strip s ≢ "") × (value ≡ str (strip s)))
IsCleaned (some found) value = value ≡ found
