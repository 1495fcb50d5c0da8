-- ===== src/Utils.antt =====
-- src/app/core/utils.py: paging, chunks and `safe_get`. A duration is in microseconds.
pub mod Paging
use salesforce_master_servic.Base.{
  ℕ, ◌+◌, ◌-◌, ◌/◌, max, Bool, Option, none, some, List, [], ◌∷◌, ◌++◌, if◌then◌else◌, ltb, leb,
  nat_eq, string_eq, ◌==◌, or_default, Dict, lookup, length, String, strip,
}
use salesforce_master_servic.Json.{Json, str}

pub record PaginationInfo : Type 0 where
  pub page : ℕ
  pub page_size : ℕ
  pub total : ℕ
  pub total_pages : ℕ
  pub has_next : Bool
  pub has_prev : Bool

-- `none` is the `ZeroDivisionError` of a page size of 0.
unfoldable pub build_pagination_info : ℕ → ℕ → ℕ → Option PaginationInfo
build_pagination_info page page_size total =
    if page_size == 0
    then none
    else let total_pages = max 1 ((total + page_size - 1) / page_size) in
      some (record {
        page = page;
        page_size = page_size;
        total = total;
        total_pages = total_pages;
        has_next = ltb page total_pages;
        has_prev = ltb 1 page;
      })

-- `calculate_duration`, before it is rounded to milliseconds.
unfoldable pub calculate_duration : Option ℕ → Option ℕ → Option ℕ
calculate_duration none finish = none
calculate_duration (some start) none = none
calculate_duration (some start) (some finish) =
    if ltb finish start then some 0 else some (finish - start)

module _ {ℓ} {A : Type ℓ} where
  -- The generator's loop, with the batch so far.
  unfoldable pub chunks_from : ℕ → List A → List A → List (List A)
  chunks_from size batch (item ∷ rest) =
      let grown = batch ++ item ∷ [] in
      let flushed = chunks_from size [] rest in
      let kept = chunks_from size grown rest in
      if leb size (length grown) then grown ∷ flushed else kept
  chunks_from size [] [] = []
  chunks_from size (b ∷ batch) [] = (b ∷ batch) ∷ []

  -- `none` is the `ValueError` of a size that is not positive.
  unfoldable pub chunks : ℕ → List A → Option (List (List A))
  unfolding chunks_from
  chunks size items = if size == 0 then none else some (chunks_from size [] items)

-- What `safe_get` makes of the value found: a text is stripped, and an empty one is the default.
unfoldable pub cleaned : Json → Json → Json
cleaned (str s) default = let stripped = strip s in if stripped == "" then default else str stripped
cleaned value default = value

-- `safe_get(record, key, default)` of a record that is a dict.
unfoldable pub safe_get : Dict Json → String → Json → Json
unfolding cleaned
safe_get fields key default = cleaned (or_default (lookup key fields) default) default
