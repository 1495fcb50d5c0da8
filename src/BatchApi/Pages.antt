-- ===== src/BatchApi/Pages.antt =====
-- The paginated download of src/app/salesforce/batch_api_client.py against what the server delivers.
use salesforce_master_servic.Errors.{Exception, Result, ok, err}
use salesforce_master_servic.Auth.{Outside}
use salesforce_master_servic.BatchApi.{
  Client, Stream, Network, headers_of, validate_job_id, is_success,
}
use mathlib.Core.List.{append_assoc, append-nil}
use salesforce_master_servic.Base.{
  ℕ, zero, suc, ◌<◌, ◌≡◌, refl, sym, ap, ◌∙◌, subst, ◌≢◌, inl, inr, true, false, Option, none, some,
  List, [], ◌∷◌, ◌++◌, arith, if◌then◌else◌, nat_eq, string_eq, ◌==◌, Bool-cases, Dict, update,
  length, keep, String, ◌<>◌, eq_iff, lower, show, given,
}
use salesforce_master_servic.BatchApi.Downloads.{
  ResultMeta, Generated, unless_written_null, clean_locator, is_chunk, meta_of, read_stream,
  page_of, unless_null, next_locator, request_raw, results_path, get_job_results, page_loop,
  get_job_results_paginated,
}

abbrev pub concat {ℓ} : {A : Type ℓ} → List (List A) → List A
concat [] = []
concat (x ∷ xs) = x ++ concat xs

concat-append {ℓ} :
    {A : Type ℓ} (xs ys : List (List A)) → concat (xs ++ ys) ≡ concat xs ++ concat ys
concat-append [] ys = refl
concat-append (x ∷ xs) ys = ap (λ z. x ++ z) (concat-append xs ys) ∙ sym (append_assoc x _ _)

concat-keep : (chunks : List (List ℕ)) → concat (keep is_chunk chunks) ≡ concat chunks
concat-keep [] = refl
concat-keep ([] ∷ chunks) = concat-keep chunks
concat-keep ((b ∷ bs) ∷ chunks) = ap (λ z. (b ∷ bs) ++ z) (concat-keep chunks)

lower_null : (l : String) → (lower l == "null") ≡ false → (l == "null") ≡ false
unfolding lower
lower_null l h = elim (Bool-cases (l == "null")) [
  | inr e ↦ e
  | inl e ↦
      let same : l ≡ "null" = (eq_iff l "null").0 e in
      absurd (ground (arith, subst (λ (x : String). (lower x == "null") ≡ false) same h))
]

-- A cleaned locator is not changed by the loop's own test.
clean-next :
    (found : Option String)
    → ((l : String) → found ≡ some l → (l == "") ≡ false)
    → unless_null (given (unless_written_null found)) ≡ unless_written_null found
clean-next none full = refl
clean-next (some l) full = elim (Bool-cases (lower l == "null")) [
  | inl e ↦ rw e
  | inr e ↦ rw e (rw (full l refl) (rw (lower_null l e)))
]

given_full : (header : Option String) (l : String) → given header ≡ some l → (l == "") ≡ false
given_full none l h = absurd (ground (arith, h))
given_full (some s) l h = elim (Bool-cases (s == "")) [
  | inl e ↦ absurd (ground (arith, (rw e at h)))
  | inr e ↦ let h' : some s ≡ some l = rw e at h in ground (arith, e, h')
]

next_locator-meta_of :
    (answer : Stream) → next_locator (some (meta_of answer)) ≡ clean_locator answer.locator
unfolding next_locator clean_locator
next_locator-meta_of answer = clean-next (given answer.locator) (given_full answer.locator)

-- What the header of an answer says of the next page: there is none where it is missing, empty, or
-- "null" in any case.
pub data Announces : Option String → Option String → Type 0 where
  missing : Announces none none
  blank : Announces (some "") none
  written_null : {l : String} → lower l ≡ "null" → Announces (some l) none
  names_next : {l : String} → l ≢ "" → lower l ≢ "null" → Announces (some l) (some l)

clean_locator-Announces :
    {header next : Option String}
    → Announces header next
    → (clean_locator header ≡ next) × (given next ≡ next)
unfolding clean_locator
clean_locator-Announces missing = (refl, refl)
clean_locator-Announces blank = (refl, refl)
clean_locator-Announces (written_null {l} e) = elim (Bool-cases (l == "")) [
  | inl p ↦ (rw p refl, refl)
  | inr p ↦ (rw (p, (eq_iff (lower l) "null").1 e) refl, refl)
]
clean_locator-Announces (names_next {l} full d) = elim (Bool-cases (l == "")) [
  | inl p ↦ absurd (full ((eq_iff l "").0 p))
  | inr p ↦ elim (Bool-cases (lower l == "null")) [
    | inl q ↦ absurd (d ((eq_iff (lower l) "null").0 q))
    | inr q ↦ (rw (p, q) refl, rw p refl)
  ]
]

module _ (outside : Outside) (urlencode : Dict String → String) (network : Network)
    (client : Client) (job_id : String) (max_records : Option ℕ) where
  abbrev with_query : String → String
  with_query query = if query == "" then "" else "?" <> query

  -- The parameters of a page: its locator, except for the first one, and its size, if that is given
  -- and positive.
  abbrev page_query : Option String → Option ℕ → String
  page_query none none = ""
  page_query none (some zero) = ""
  page_query none (some (suc n)) = with_query (urlencode (("maxRecords", show (suc n)) ∷ []))
  page_query (some l) none = with_query (urlencode (("locator", l) ∷ []))
  page_query (some l) (some zero) = with_query (urlencode (("locator", l) ∷ []))
  page_query (some l) (some (suc n)) =
      with_query (urlencode (("locator", l) ∷ ("maxRecords", show (suc n)) ∷ []))

  abbrev pub page_path : Option String → String
  page_path locator = "/jobs/query/" <> job_id <> "/results" <> page_query locator max_records

  -- What the `n`-th request is answered with, which asks for the page of a locator.
  abbrev pub asked : ℕ → Option String → Result Stream
  asked n locator =
      network.stream n (client.base <> page_path locator)
        (update (headers_of client.access_token) (("Accept", "text/csv") ∷ []))

  -- What the server delivers from the `n`-th request on, which asks for the page of a locator: the
  -- pages, each given by its chunks and naming the next one in its header, up to the last one, or to
  -- one that is cut off, or to a request that fails.
  pub data Delivers : ℕ → Option String → List (List (List ℕ)) → Result (Unit {0}) → Type 0 where
    last :
        {n : ℕ} {locator : Option String} (answer : Stream)
        → asked n locator ≡ ok answer
        → is_success answer.status_code ≡ true
        → answer.broken ≡ none
        → Announces answer.locator none
        → Delivers n locator (answer.chunks ∷ []) (ok tt)
    more :
        {n : ℕ} {locator : Option String} (answer : Stream) (next : String)
        (pages : List (List (List ℕ))) (outcome : Result (Unit {0}))
        → asked n locator ≡ ok answer
        → is_success answer.status_code ≡ true
        → answer.broken ≡ none
        → Announces answer.locator (some next)
        → Delivers (suc n) (some next) pages outcome
        → Delivers n locator (answer.chunks ∷ pages) outcome
    cut :
        {n : ℕ} {locator : Option String} (answer : Stream) (exc : Exception)
        → asked n locator ≡ ok answer
        → is_success answer.status_code ≡ true
        → answer.broken ≡ some exc
        → Delivers n locator (answer.chunks ∷ []) (err exc)
    fails :
        {n : ℕ} {locator : Option String} (exc : Exception)
        → request_raw outside urlencode network client n (page_path locator) ≡ err exc
        → Delivers n locator [] (err exc)

  -- The run of the loop yields these bytes and ends in this way.
  abbrev pub Yields : Option Generated → List (List (List ℕ)) → Result (Unit {0}) → Type 0
  Yields run pages outcome =
      (g : Generated) × (run ≡ some g)
      × (concat g.yielded ≡ concat (concat pages))
      × (g.ended ≡ outcome)

  module _ (valid : validate_job_id job_id ≡ ok tt) where
    results_path-page_path :
        (locator : Option String)
        → given locator ≡ locator
        → results_path outside urlencode job_id locator max_records ≡ page_path locator
    unfolding results_path
    results_path-page_path locator full = path locator full max_records
      where
        positive : (n : ℕ) → (suc n == 0) ≡ false
        positive n = ground arith

        path :
            (locator : Option String)
            → given locator ≡ locator
            → (most : Option ℕ)
            → results_path outside urlencode job_id locator most
              ≡ "/jobs/query/" <> job_id <> "/results" <> page_query locator most
        path none full none = refl
        path none full (some zero) = refl
        path none full (some (suc n)) = rw (positive n) refl
        path (some l) full none = rw full refl
        path (some l) full (some zero) = rw full refl
        path (some l) full (some (suc n)) = rw (full, positive n) refl

    page_read :
        (n : ℕ) (locator : Option String) (meta : Option ResultMeta) (answer : Stream)
        (broken : Option Exception)
        → given locator ≡ locator
        → asked n locator ≡ ok answer
        → is_success answer.status_code ≡ true
        → answer.broken ≡ broken
        → get_job_results outside urlencode network client n job_id locator max_records meta
          ≡ read_stream meta answer broken
    unfolding get_job_results request_raw
    page_read n locator meta answer broken full e good b =
        rw (valid, results_path-page_path locator full, e, good, b)

    page_failed :
        (n : ℕ) (locator : Option String) (meta : Option ResultMeta) (exc : Exception)
        → given locator ≡ locator
        → request_raw outside urlencode network client n (page_path locator) ≡ err exc
        → get_job_results outside urlencode network client n job_id locator max_records meta
          ≡ page_of meta (ok tt) (err exc)
    unfolding get_job_results
    page_failed n locator meta exc full e = rw (valid, results_path-page_path locator full, e)

    last_bytes : (chunks : List (List ℕ)) → concat (keep is_chunk chunks) ≡ concat (chunks ++ [])
    last_bytes chunks = concat-keep chunks ∙ ap concat (sym (append-nil chunks))

    page_loop-Yields :
        (n fuel : ℕ) (locator : Option String) (meta : Option ResultMeta)
        (pages : List (List (List ℕ))) (outcome : Result (Unit {0}))
        → given locator ≡ locator
        → Delivers n locator pages outcome
        → length pages < fuel
        → Yields
            (page_loop outside urlencode network client job_id max_records fuel n locator meta)
            pages
            outcome
    unfolding page_loop
    page_loop-Yields n zero locator meta pages outcome full d h = absurd (omega arith)
    page_loop-Yields n (suc fuel) locator meta _ _ full (fails exc e) h =
        rw (page_failed n locator meta exc full e)
          (page_of meta (ok tt) (err exc), refl, refl, refl)
    page_loop-Yields n (suc fuel) locator meta _ _ full (cut answer exc e good b) h =
        rw (page_read n locator meta answer (some exc) full e good b)
          (read_stream meta answer (some exc), refl, last_bytes answer.chunks, refl)
    page_loop-Yields n (suc fuel) locator meta _ _ full (last answer e good b c) h =
        let done : next_locator (some (meta_of answer)) ≡ none =
          next_locator-meta_of answer ∙ (clean_locator-Announces c).0 in
        rw (page_read n locator meta answer none full e good b, done)
          (read_stream meta answer none, refl, last_bytes answer.chunks, refl)
    page_loop-Yields n (suc fuel) locator meta _ _ full
          (more answer next pages outcome e good b c d) h =
        let (g, run, bytes, ended) =
          page_loop-Yields (suc n) fuel (some next) (some (meta_of answer)) pages outcome
            (clean_locator-Announces c).1 d (omega arith) in
        let whole : concat (keep is_chunk answer.chunks ++ g.yielded)
            ≡ concat (answer.chunks ++ concat pages) =
          concat-append (keep is_chunk answer.chunks) g.yielded
          ∙ rw (concat-keep answer.chunks, bytes)
              (sym (concat-append answer.chunks (concat pages))) in
        let goes_on : next_locator (some (meta_of answer)) ≡ some next =
          next_locator-meta_of answer ∙ (clean_locator-Announces c).0 in
        rw (page_read n locator meta answer none full e good b, goes_on, run)
          (record g { yielded = keep is_chunk answer.chunks ++ g.yielded }, refl, whole, ended)

    -- With fuel above the number of pages, the paginated download of a job yields the bytes of the
    -- pages that the server delivers, all of them and in their order, the first one when it is asked
    -- without a locator and every further one when it is asked with the locator that the header of
    -- the page before names. It ends as the delivery does:
    -- well after the last page, or with the exception that cut a page off or that an answer raised.
    pub get_job_results_paginated-Yields :
        (fuel : ℕ) (meta : Option ResultMeta) (pages : List (List (List ℕ)))
        (outcome : Result (Unit {0}))
        → Delivers 0 none pages outcome
        → length pages < fuel
        → Yields
            (get_job_results_paginated outside urlencode network client job_id max_records fuel
              meta)
            pages
            outcome
    unfolding get_job_results_paginated
    get_job_results_paginated-Yields fuel meta pages outcome d h =
        page_loop-Yields 0 fuel none meta pages outcome refl d h
