-- ===== src/Utils/Paging.antt =====
-- Paging through src/app/core/utils.py and `list_jobs`: the pages cover the rows, and so do chunks.
use salesforce_master_servic.Utils.{PaginationInfo, build_pagination_info}
use native.Mathlib.Nat.{div-add-mod', mod-lt, le-div_iff_mul-le}
use salesforce_master_servic.Base.{
  ℕ, zero, suc, ◌+◌, ◌-◌, ◌*◌, ◌/◌, ◌≤◌, ◌<◌, max, ◌≡◌, refl, sym, ap, ◌∙◌, ◌↔◌, true, some, List,
  [], ◌∷◌, ◌++◌, arith, ltb, length, take, drop,
}

-- The rows of a page, as `.offset((page - 1) * page_size).limit(page_size)` gives them.
abbrev pub page_of {ℓ} : {A : Type ℓ} → ℕ → ℕ → List A → List A
page_of page page_size rows = take page_size (drop ((page - 1) * page_size) rows)

-- The pages from one number on, as many as are asked for.
abbrev pub pages_from {ℓ} : {A : Type ℓ} → ℕ → ℕ → ℕ → List A → List A
pages_from page zero page_size rows = []
pages_from page (suc n) page_size rows =
    page_of page page_size rows ++ pages_from (page + 1) n page_size rows

module _ {ℓ} {A : Type ℓ} where
  drop-nil : (n : ℕ) → drop {A = A} n [] ≡ []
  drop-nil zero = refl
  drop-nil (suc n) = refl

  drop-drop : (a b : ℕ) (xs : List A) → drop a (drop b xs) ≡ drop (a + b) xs
  drop-drop a zero xs = ap (λ (n : ℕ). drop n xs) (omega arith)
  drop-drop a (suc b) [] = drop-nil a ∙ sym (drop-nil (a + suc b))
  drop-drop a (suc b) (x ∷ xs) =
      let e : a + suc b ≡ suc (a + b) = omega arith in
      drop-drop a b xs ∙ sym (ap (λ (n : ℕ). drop n (x ∷ xs)) e)

  take-add : (a b : ℕ) (xs : List A) → take (a + b) xs ≡ take a xs ++ take b (drop a xs)
  take-add zero b xs = ap (λ (n : ℕ). take n xs) (omega arith)
  take-add (suc a) b [] =
      let e : suc a + b ≡ suc (a + b) = omega arith in
      ap (λ (n : ℕ). take {A = A} n []) e ∙ take-nil b
    where
      take-nil : (n : ℕ) → [] ≡ take {A = A} n []
      take-nil zero = refl
      take-nil (suc n) = refl
  take-add (suc a) b (x ∷ xs) =
      let e : suc a + b ≡ suc (a + b) = omega arith in
      ap (λ (n : ℕ). take n (x ∷ xs)) e ∙ ap (λ (ys : List A). x ∷ ys) (take-add a b xs)

  take_all : (n : ℕ) (xs : List A) → length xs ≤ n → take n xs ≡ xs
  take_all zero [] h = refl
  take_all zero (x ∷ xs) h = absurd (omega arith)
  take_all (suc n) [] h = refl
  take_all (suc n) (x ∷ xs) h = ap (λ (ys : List A). x ∷ ys) (take_all n xs (omega arith))

  pages_from-eq-take :
      (page n page_size : ℕ) (rows : List A)
      → 1 ≤ page
      → pages_from page n page_size rows ≡ take (n * page_size) (drop ((page - 1) * page_size) rows)
  pages_from-eq-take page zero page_size rows h =
      let e : 0 ≡ 0 * page_size = omega arith in
      ap (λ (k : ℕ). take k (drop ((page - 1) * page_size) rows)) e
  pages_from-eq-take page (suc n) page_size rows h =
      let start = (page - 1) * page_size in
      let e : suc n * page_size ≡ page_size + n * page_size = grind arith in
      let g : page + 1 - 1 ≡ suc (page - 1) = omega arith in
      let f : suc (page - 1) * page_size ≡ page_size + start = grind arith in
      ap (λ (ys : List A). page_of page page_size rows ++ ys)
        (pages_from-eq-take (page + 1) n page_size rows (omega arith)
          ∙ ap (λ (k : ℕ). take (n * page_size) (drop k rows)) (ap (λ (k : ℕ). k * page_size) g ∙ f)
          ∙ ap (take (n * page_size)) (sym (drop-drop page_size start rows)))
      ∙ sym (
          ap (λ (k : ℕ). take k (drop start rows)) e
          ∙ take-add page_size (n * page_size) (drop start rows))

pages_suffice :
    (total page_size : ℕ) → 1 ≤ page_size → total ≤ (total + page_size - 1) / page_size * page_size
pages_suffice total page_size h = omega (
  arith,
  div-add-mod' (total + page_size - 1) page_size,
  mod-lt (total + page_size - 1) {m = page_size} h,
)

next_exactly :
    (page total page_size : ℕ)
    → 1 ≤ page
    → 1 ≤ page_size
    → (ltb page (max 1 ((total + page_size - 1) / page_size)) ≡ true) ↔ (page * page_size < total)
next_exactly page total page_size h k =
    let q = (total + page_size - 1) / page_size in
    let fits : (suc page ≤ q) ↔ (suc page * page_size ≤ total + page_size - 1) =
      le-div_iff_mul-le {k = page_size} k in
    let expand : suc page * page_size ≡ page_size + page * page_size = grind arith in
    (
      λ e. let below : page < q = ground arith in omega (arith, fits.0 below, expand),
      λ lt. let below : page < q = fits.1 (omega (arith, expand)) in ground arith,
    )

-- For a page size of at least 1 the paging information is given; page after page, from the first to
-- the last of `total_pages`, the rows come back complete and in order, and a page has a next one
-- exactly when rows are left after it.
pub pages_cover {ℓ} :
    {A : Type ℓ} (rows : List A) (page page_size : ℕ)
    → 1 ≤ page
    → 1 ≤ page_size
    → (info : PaginationInfo) × (build_pagination_info page page_size (length rows) ≡ some info)
      × (pages_from 1 info.total_pages page_size rows ≡ rows)
      × ((info.has_next ≡ true) ↔ (page * page_size < length rows))
unfolding build_pagination_info
pages_cover rows page page_size h k =
    let total_pages = max 1 ((length rows + page_size - 1) / page_size) in
    let enough : length rows ≤ total_pages * page_size =
      grind (arith, pages_suffice (length rows) page_size k) in
    let start : (1 - 1) * page_size ≡ 0 = omega arith in
    (
      record {
        page = page;
        page_size = page_size;
        total = length rows;
        total_pages = total_pages;
        has_next = ltb page total_pages;
        has_prev = ltb 1 page;
      },
      ground arith,
      pages_from-eq-take 1 total_pages page_size rows (omega arith)
          ∙ ap (λ (s : ℕ). take (total_pages * page_size) (drop s rows)) start
          ∙ take_all (total_pages * page_size) rows enough,
      next_exactly page (length rows) page_size h k,
    )
