-- ===== src/Files.antt =====
-- The file service, src/app/services/batch_file_service.py: the check of a path component, and the
-- loop of `read_csv_file` over the rows of a file. A page and its size are not negative.
pub mod Pages
pub mod Disk
pub mod Saves
pub mod Schema
use Prim.Native.Char.{Char, code}
use salesforce_master_servic.Base.{
  ℕ, ◌+◌, ◌-◌, ◌*◌, Bool, true, false, not, ◌&&◌, ◌||◌, Option, none, some, List, [], ◌∷◌, ◌++◌,
  if◌then◌else◌, ltb, leb, nat_eq, string_eq, ◌==◌, ◌∈?◌, or_default, length, String,
}

-- `[A-Za-z0-9_.-]`
abbrev pub is_component_char : Char → Bool
is_component_char c =
    let n = code c in
    (leb b'A' n && leb n b'Z')
    || (leb b'a' n && leb n b'z')
    || (leb b'0' n && leb n b'9')
    || n ∈? (b'_' ∷ b'.' ∷ b'-' ∷ [])

unfoldable pub all_component_chars : String → Bool
all_component_chars String.[] = true
all_component_chars (String.◌∷◌ c s) = is_component_char c && all_component_chars s

-- Whether `_validate_component` raises no `ValueError`.
unfoldable pub is_valid_component : String → Bool
is_valid_component s = not (s == "") && all_component_chars s

-- `0 if page is None else max(0, (page - 1) * (page_size or 0))`
abbrev pub start_of : Option ℕ → Option ℕ → ℕ
start_of none page_size = 0
start_of (some page) page_size = (page - 1) * or_default page_size 0

-- `limit is not None and len(records) >= limit`
abbrev pub is_full : Option ℕ → ℕ → Bool
is_full none size = false
is_full (some limit) size = leb limit size

module _ {ℓ} {A : Type ℓ} where
  -- `for index, row in enumerate(reader)`
  unfoldable pub read_rows : ℕ → Option ℕ → ℕ → List A → List A → List A
  read_rows start limit index [] records = records
  read_rows start limit index (row ∷ rest) records =
      let skipped = read_rows start limit (index + 1) rest records in
      let grown = read_rows start limit (index + 1) rest (records ++ row ∷ []) in
      if ltb index start then skipped else if is_full limit (length records) then records else grown

  unfoldable pub read_csv_rows : Option ℕ → Option ℕ → List A → List A
  read_csv_rows page page_size rows = read_rows (start_of page page_size) page_size 0 rows []
