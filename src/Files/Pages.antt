-- ===== src/Files/Pages.antt =====
-- Which rows `read_csv_file` of src/app/services/batch_file_service.py gives.
use salesforce_master_servic.Base.{
  ℕ, zero, suc, ◌+◌, ◌-◌, ◌≤◌, ◌<◌, ◌≡◌, refl, sym, ap, ◌∙◌, inl, inr, false, Option, none, some,
  List, [], ◌∷◌, ◌++◌, arith, ltb, leb, Bool-cases, length, take, drop, length-append,
}
use salesforce_master_servic.Files.{start_of, read_rows, read_csv_rows}

-- The first rows, or all of them.
abbrev pub take_limit {ℓ} : {A : Type ℓ} → Option ℕ → List A → List A
take_limit none xs = xs
take_limit (some n) xs = take n xs

module _ {ℓ} {A : Type ℓ} where
  append_nil : (xs : List A) → xs ++ [] ≡ xs
  append_nil [] = refl
  append_nil (x ∷ xs) = ap (λ (ys : List A). x ∷ ys) (append_nil xs)

  append_assoc : (xs ys zs : List A) → (xs ++ ys) ++ zs ≡ xs ++ (ys ++ zs)
  append_assoc [] ys zs = refl
  append_assoc (x ∷ xs) ys zs = ap (λ (ws : List A). x ∷ ws) (append_assoc xs ys zs)

  take_empty : (n : ℕ) → take {A = A} n [] ≡ []
  take_empty zero = refl
  take_empty (suc n) = refl

  drop_empty : (n : ℕ) → drop {A = A} n [] ≡ []
  drop_empty zero = refl
  drop_empty (suc n) = refl

  limit_empty : (limit : Option ℕ) → take_limit {A = A} limit [] ≡ []
  limit_empty none = refl
  limit_empty (some n) = take_empty n

  take_none : (n : ℕ) (xs : List A) → n ≡ 0 → take n xs ≡ []
  take_none zero xs h = refl
  take_none (suc n) xs h = absurd (omega (arith, h))

  take-cons : (n m : ℕ) (x : A) (xs : List A) → n ≡ suc m → take n (x ∷ xs) ≡ x ∷ take m xs
  take-cons n m x xs h = rw h

  drop-cons : (n m : ℕ) (x : A) (xs : List A) → n ≡ suc m → drop n (x ∷ xs) ≡ drop m xs
  drop-cons n m x xs h = rw h

  -- Behind the rows that are skipped, the loop without a limit appends the rest.
  rest_unlimited :
      (start index : ℕ) (rows records : List A)
      → start ≤ index
      → read_rows start none index rows records ≡ records ++ rows
  unfolding read_rows
  rest_unlimited start index [] records h = sym (append_nil records)
  rest_unlimited start index (row ∷ rest) records h =
      let past : ltb index start ≡ false = ground (arith, h) in
      rw past (
        rest_unlimited start (index + 1) rest (records ++ row ∷ []) (omega (arith, h))
        ∙ append_assoc records (row ∷ []) rest)

  rest_limited :
      (limit start index : ℕ) (rows records : List A)
      → start ≤ index
      → length records ≤ limit
      → read_rows start (some limit) index rows records
        ≡ records ++ take (limit - length records) rows
  unfolding read_rows
  rest_limited limit start index [] records h k = sym (
      ap (λ (ys : List A). records ++ ys) (take_empty (limit - length records))
      ∙ append_nil records)
  rest_limited limit start index (row ∷ rest) records h k =
      let past : ltb index start ≡ false = ground (arith, h) in
      elim (Bool-cases (leb limit (length records))) [
        | inl e ↦
            let none_left : limit - length records ≡ 0 = ground (arith, e) in
            rw (past, e)
              (sym (
                ap (λ (ys : List A). records ++ ys)
                  (take_none (limit - length records) (row ∷ rest) none_left)
                ∙ append_nil records))
        | inr e ↦
            let more : length records < limit = ground (arith, e) in
            let grown : length (records ++ row ∷ []) ≡ length records + 1 =
              length-append records (row ∷ []) in
            let left : limit - length records ≡ suc (limit - length (records ++ row ∷ [])) =
              omega (arith, grown, more) in
            rw (past, e)
              (rest_limited limit start (index + 1) rest (records ++ row ∷ []) (omega (arith, h))
                  (omega (arith, grown, more))
                ∙ append_assoc records (row ∷ []) (take (limit - length (records ++ row ∷ [])) rest)
                ∙ ap (λ (ys : List A). records ++ ys)
                    (sym (
                      take-cons (limit - length records) (limit - length (records ++ row ∷ [])) row
                        rest left)))
      ]

  from_start :
      (start : ℕ) (limit : Option ℕ) (index : ℕ) (rows : List A)
      → start ≤ index
      → read_rows start limit index rows [] ≡ take_limit limit rows
  from_start start none index rows h = rest_unlimited start index rows [] h
  from_start start (some limit) index rows h =
      let all : limit - 0 ≡ limit = omega arith in
      rest_limited limit start index rows [] h (omega arith) ∙ ap (λ (n : ℕ). take n rows) all

  -- Before the start, rows are passed over.
  skip_rows :
      (start : ℕ) (limit : Option ℕ) (index : ℕ) (rows : List A)
      → read_rows start limit index rows [] ≡ take_limit limit (drop (start - index) rows)
  unfolding read_rows
  skip_rows start limit index [] =
      sym (ap (take_limit limit) (drop_empty (start - index)) ∙ limit_empty limit)
  skip_rows start limit index (row ∷ rest) = elim (Bool-cases (ltb index start)) [
    | inl e ↦
        let ahead : start - index ≡ suc (start - (index + 1)) = ground (arith, e) in
        rw e (
          skip_rows start limit (index + 1) rest
          ∙ ap (take_limit limit)
              (sym (drop-cons (start - index) (start - (index + 1)) row rest ahead)))
    | inr e ↦
        let passed : start ≤ index = ground (arith, e) in
        let here : start - index ≡ 0 = omega (arith, passed) in
        from_start start limit index (row ∷ rest) passed ∙ rw here
  ]

  -- The rows that are read are those of the page: without a page size all, from the first row on, and
  -- otherwise as many as the size, from the start of the page on. A page that is not given is the first.
  pub read_csv_rows-eq-page :
      (page page_size : Option ℕ) (rows : List A)
      → read_csv_rows page page_size rows
        ≡ take_limit page_size (drop (start_of page page_size) rows)
  unfolding read_csv_rows
  read_csv_rows-eq-page page page_size rows =
      let whole : start_of page page_size - 0 ≡ start_of page page_size = omega arith in
      skip_rows (start_of page page_size) page_size 0 rows
      ∙ ap (λ (n : ℕ). take_limit page_size (drop n rows)) whole
