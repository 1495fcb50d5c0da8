-- ===== src/BatchApi/Downloads.antt =====
-- The downloads of src/app/salesforce/batch_api_client.py. A generator is what it yields, how it
-- ends, and what is then in `last_result_meta`.
use salesforce_master_servic.Base.{
  ℕ, zero, suc, Bool, true, false, ◌||◌, Option, none, some, List, [], ◌∷◌, ◌++◌, if◌then◌else◌,
  nat_eq, string_eq, ◌==◌, Dict, update, keep, String, ◌<>◌, lower, show, take_text, decimal, given,
}
use salesforce_master_servic.Json.{Json, str, obj, end, field}
use salesforce_master_servic.Errors.{
  Exception, Result, classify_http_error, is_os_error, as_payload, value_error, runtime_error,
  salesforce, raised, ok, err,
}
use salesforce_master_servic.Auth.{Outside}
use salesforce_master_servic.BatchApi.{
  Client, Stream, Network, headers_of, validate_job_id, safe_path, is_success, request_failure,
}

pub record ResultMeta : Type 0 where
  pub locator : Option String
  pub number_of_records : Option ℕ
  pub content_type : Option String

pub record Generated : Type 0 where
  pub yielded : List (List ℕ)
  pub ended : Result (Unit {0})
  pub last_result_meta : Option ResultMeta

abbrev pub unless_written_null : Option String → Option String
unless_written_null none = none
unless_written_null (some locator) = if lower locator == "null" then none else some locator

-- A locator that is missing, empty or "null" in any case is `None`.
unfoldable pub clean_locator : Option String → Option String
clean_locator header = unless_written_null (given header)

unfoldable pub records_of : Option String → Option ℕ
records_of none = none
records_of (some header) = decimal header

-- `isinstance(exc, (OSError, RuntimeError, ValueError))`, of a body that cannot be read
unfoldable pub is_unreadable : Exception → Bool
is_unreadable (raised value_error _) = true
is_unreadable (raised runtime_error _) = true
is_unreadable (raised kind _) = is_os_error kind
is_unreadable (salesforce _) = false

abbrev pub raw_payload : String → Json
raw_payload text = obj (field "raw" (str text) end)

abbrev pub payload_read : Result String → Result Json
payload_read (ok text) = ok (raw_payload (take_text 500 text))
payload_read (err exc) = if is_unreadable exc then ok (raw_payload "unreadable") else err exc

-- `json()` of a failure, or, where that is a `ValueError`, its body as text.
unfoldable pub failure_payload : Result Json → Result String → Result Json
failure_payload (ok payload) read = ok payload
failure_payload (err (raised value_error _)) read = payload_read read
failure_payload (err exc) read = err exc

-- The exception for an answer that failed.
abbrev pub download_failure : ℕ → String → Result Json → Exception
download_failure status path (err exc) = exc
download_failure status path (ok payload) = salesforce (
    classify_http_error status (as_payload payload)
      ("Salesforce Bulk API GET " <> safe_path path <> " download failed status=" <> show status))

abbrev pub is_chunk : List ℕ → Bool
is_chunk [] = false
is_chunk (_ ∷ _) = true

abbrev pub meta_of : Stream → ResultMeta
meta_of answer = record {
  locator = clean_locator answer.locator;
  number_of_records = records_of answer.number_of_records;
  content_type = answer.content_type;
}

-- The chunks of the stream that are not empty; after the last one the locator is kept.
abbrev pub read_stream : Option ResultMeta → Stream → Option Exception → Generated
read_stream meta answer (some exc) = record {
  yielded = keep is_chunk answer.chunks;
  ended = err exc;
  last_result_meta = meta;
}
read_stream meta answer none = record {
  yielded = keep is_chunk answer.chunks;
  ended = ok tt;
  last_result_meta = some (meta_of answer);
}

abbrev pub page_of : Option ResultMeta → Result (Unit {0}) → Result Stream → Generated
page_of meta (ok _) (ok answer) = read_stream meta answer answer.broken
page_of meta (ok _) (err exc) = record { yielded = []; ended = err exc; last_result_meta = meta }
page_of meta (err exc) answer = record { yielded = []; ended = err exc; last_result_meta = meta }

-- The locator of the next page, unless it was the last.
abbrev pub unless_null : Option String → Option String
unless_null none = none
unless_null (some locator) = if locator == "null" then none else some locator

unfoldable pub next_locator : Option ResultMeta → Option String
next_locator none = none
next_locator (some meta) = unless_null (given meta.locator)

-- What is yielded before the rest.
abbrev pub before_rest : List (List ℕ) → Option Generated → Option Generated
before_rest yielded none = none
before_rest yielded (some rest) = some (record rest { yielded = yielded ++ rest.yielded })

abbrev pub after_locator :
    Generated → Option String → (String → Option Generated) → Option Generated
after_locator page none again = some page
after_locator page (some locator) again = before_rest page.yielded (again locator)

abbrev pub after_page :
    Generated → Result (Unit {0}) → (String → Option Generated) → Option Generated
after_page page (err exc) again = some page
after_page page (ok _) again = after_locator page (next_locator page.last_result_meta) again

module _ (outside : Outside) (urlencode : Dict String → String) where
  abbrev pub received : String → Result Stream → Result Stream
  received path (err exc) = err (request_failure outside "GET" path " download timed out: " exc)
  received path (ok answer) =
      if is_success answer.status_code
      then ok answer
      else err (download_failure answer.status_code path (failure_payload answer.json answer.read))

  -- `_request_raw`: the answer that succeeded.
  unfoldable pub request_raw : Network → Client → ℕ → String → Result Stream
  request_raw network client n path = received path (
      network.stream n (client.base <> path)
        (update (headers_of client.access_token) (("Accept", "text/csv") ∷ [])))

  abbrev locator_param : Option String → Dict String
  locator_param none = []
  locator_param (some locator) = ("locator", locator) ∷ []

  abbrev records_param : Option ℕ → Dict String
  records_param none = []
  records_param (some n) = if n == 0 then [] else ("maxRecords", show n) ∷ []

  unfoldable pub results_path : String → Option String → Option ℕ → String
  results_path job_id locator max_records =
      let query = urlencode (locator_param (given locator) ++ records_param max_records) in
      "/jobs/query/"
      <> job_id
      <> "/results"
      <> (if is_nil (locator_param (given locator) ++ records_param max_records) || query == ""
          then ""
          else "?" <> query)
    where
      is_nil : Dict String → Bool
      is_nil [] = true
      is_nil (_ ∷ _) = false

  -- The `n`-th download, with what is in `last_result_meta` before.
  unfoldable pub get_job_results :
      Network → Client → ℕ → String → Option String → Option ℕ → Option ResultMeta → Generated
  get_job_results network client n job_id locator max_records meta =
      page_of meta (validate_job_id job_id)
        (request_raw network client n (results_path job_id locator max_records))

  -- `while True`, with fuel; `none` is a loop that is still running.
  unfoldable pub page_loop :
      Network
      → Client
      → String
      → Option ℕ
      → ℕ
      → ℕ
      → Option String
      → Option ResultMeta
      → Option Generated
  page_loop network client job_id max_records zero n locator meta = none
  page_loop network client job_id max_records (suc fuel) n locator meta =
      let page = get_job_results network client n job_id locator max_records meta in
      after_page page page.ended (λ next.
        page_loop network client job_id max_records fuel (suc n) (some next) page.last_result_meta)

  unfoldable pub get_job_results_paginated :
      Network → Client → String → Option ℕ → ℕ → Option ResultMeta → Option Generated
  get_job_results_paginated network client job_id max_records fuel meta =
      page_loop network client job_id max_records fuel 0 none meta
