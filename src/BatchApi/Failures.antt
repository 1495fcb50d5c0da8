-- ===== src/BatchApi/Failures.antt =====
-- Which failures of the Bulk API client of src/app/salesforce/batch_api_client.py are tried again.
use salesforce_master_servic.BatchApi.Downloads.{
  is_unreadable, failure_payload, download_failure, request_raw,
}
use salesforce_master_servic.Base.{
  ℕ, ◌≡◌, refl, ◌⊎◌, inl, inr, Bool, true, false, ◌&&◌, ◌||◌, Option, none, some, [], ◌∷◌, ltb, leb,
  nat_eq, string_eq, Bool-cases, Option-cases, ◌∈?◌, Dict, update, String, ◌<>◌, take_text,
}
use salesforce_master_servic.Json.{Json, str, obj, end, field}
use salesforce_master_servic.Errors.{
  Kind, Exception, Result, make, value_error, runtime_error, type_error, httpx_timeout,
  httpx_connect_error, httpx_remote_protocol_error, http_error, salesforce, raised, ok, err,
}
use salesforce_master_servic.Errors.Laws.{is_retryable-classify}
use salesforce_master_servic.Retry.{is_retryable}
use salesforce_master_servic.Auth.{Response, Outside}
use salesforce_master_servic.BatchApi.{
  Client, Stream, Network, headers_of, is_success, request_failure, json_of, answered, request,
}

-- The exceptions of `httpx` for a request that got no answer.
abbrev pub is_http_failure : Kind → Bool
is_http_failure httpx_timeout = true
is_http_failure httpx_connect_error = true
is_http_failure httpx_remote_protocol_error = true
is_http_failure http_error = true
is_http_failure _ = false

-- A status that is tried again.
abbrev pub is_transient : ℕ → Bool
is_transient status = (leb 500 status && ltb status 600) || status ∈? (408 ∷ 429 ∷ [])

module _ (outside : Outside) where
  request_failure-kind :
      (method path timed_out m : String) (kind : Kind)
      → let exc = request_failure outside method path timed_out (raised kind m) in
        ((is_http_failure kind ≡ true) × (is_retryable exc ≡ true))
        ⊎ ((is_http_failure kind ≡ false) × (exc ≡ raised kind m))
  unfolding request_failure is_retryable make
  request_failure-kind method path timed_out m httpx_timeout = inl (refl, refl)
  request_failure-kind method path timed_out m httpx_connect_error = inl (refl, refl)
  request_failure-kind method path timed_out m httpx_remote_protocol_error = inl (refl, refl)
  request_failure-kind method path timed_out m http_error = inl (refl, refl)
  request_failure-kind method path timed_out m _ = inr (refl, refl)

  -- The body as JSON, or, where it is none, its first 500 characters under the key `raw`.
  abbrev pub IsJsonOf : Response → Json → Type 0
  IsJsonOf response payload =
      (response.body ≡ some payload)
      ⊎ ((response.body ≡ none)
          × (payload ≡ obj (field "raw" (str (take_text 500 response.text)) end)))

  json_of-IsJsonOf : (response : Response) → IsJsonOf response (json_of outside response)
  unfolding json_of
  json_of-IsJsonOf response = elim (Option-cases response.body) [
    | inl e ↦ rw e (inr (refl, refl))
    | inr (payload, e) ↦ rw e (inl refl)
  ]

  -- What a request comes to, by what the network gave.
  abbrev pub IsClassified : Result Response → Result Json → Type 0
  IsClassified (ok response) (ok payload) =
      (is_success response.status_code ≡ true) × IsJsonOf response payload
  IsClassified (ok response) (err exc) =
      (is_success response.status_code ≡ false)
      × (is_retryable exc ≡ is_transient response.status_code)
  IsClassified (err (raised kind m)) (err exc) =
      ((is_http_failure kind ≡ true) × (is_retryable exc ≡ true))
      ⊎ ((is_http_failure kind ≡ false) × (exc ≡ raised kind m))
  IsClassified (err (salesforce e)) (err exc) = exc ≡ salesforce e
  IsClassified (err exc) (ok payload) = ⊥

  answered-IsClassified :
      (method path : String) (elapsed_ms : ℕ) (sent : Result Response)
      → IsClassified sent (answered outside method path elapsed_ms sent)
  unfolding request_failure
  answered-IsClassified method path elapsed_ms (ok response) =
      elim (Bool-cases (is_success response.status_code)) [
        | inl e ↦ rw e (e, json_of-IsJsonOf response)
        | inr e ↦ rw e (e, is_retryable-classify response.status_code _ _)
      ]
  answered-IsClassified method path elapsed_ms (err (salesforce e)) = refl
  answered-IsClassified method path elapsed_ms (err (raised kind m)) =
      request_failure-kind method path " timed out: " m kind

  -- A request gives the JSON of an answer with a status of 200 to 299, or the first 500 characters of
  -- a body that is no JSON, under the key `raw`. For any other answer it raises
  -- an exception, which is tried again exactly where the status is 408, 429 or any of 500 to 599;
  -- where no answer came, every exception of `httpx` becomes one that is tried again, and any other
  -- is passed on.
  pub request-IsClassified :
      (network : Network) (client : Client) (elapsed_ms : ℕ) (method path : String)
      (body : Option Json) (headers : Dict String)
      → IsClassified
          (network.request method
            (client.base <> path)
            body
            (update (headers_of client.access_token) headers))
          (request outside network client elapsed_ms method path body headers)
  unfolding request
  request-IsClassified network client elapsed_ms method path body headers =
      answered-IsClassified method path elapsed_ms _

  -- What a download that fails with a status raises, by what `json()` and the reading of the body
  -- give.
  abbrev pub FailsAs : ℕ → Result Json → Result String → Exception → Type 0
  FailsAs status (ok payload) read exc = is_retryable exc ≡ is_transient status
  FailsAs status (err (raised value_error m)) (ok text) exc = is_retryable exc ≡ is_transient status
  FailsAs status (err (raised value_error m)) (err e) exc =
      ((is_unreadable e ≡ true) × (is_retryable exc ≡ is_transient status))
      ⊎ ((is_unreadable e ≡ false) × (exc ≡ e))
  FailsAs status (err (raised runtime_error m)) read exc =
      (exc ≡ raised runtime_error m) × (is_retryable exc ≡ false)
  FailsAs status (err e) read exc = exc ≡ e

  download_failure-FailsAs :
      (status : ℕ) (path : String) (json : Result Json) (read : Result String)
      → FailsAs status json read (download_failure status path (failure_payload json read))
  unfolding failure_payload is_retryable
  download_failure-FailsAs status path (ok payload) read = is_retryable-classify status _ _
  download_failure-FailsAs status path (err (raised value_error m)) (ok text) =
      is_retryable-classify status _ _
  download_failure-FailsAs status path (err (raised value_error m)) (err e) =
      elim (Bool-cases (is_unreadable e)) [
        | inl p ↦ inl (p, rw p (is_retryable-classify status _ _))
        | inr p ↦ inr (p, rw p refl)
      ]
  download_failure-FailsAs status path (err (raised runtime_error m)) read = (refl, refl)
  download_failure-FailsAs status path (err (raised type_error m)) read = refl
  download_failure-FailsAs status path (err (salesforce e)) read = refl
  download_failure-FailsAs status path (err (raised _ m)) read = refl

  module _ (urlencode : Dict String → String) (network : Network) (client : Client) where
    -- A download that fails with a status raises an exception. If the JSON of the answer could be
    -- read, or is no JSON and the body could be read, or could not for one of the reasons that are
    -- handled, it is tried again exactly where the status is 408, 429 or any of 500 to 599. Where
    -- `json()` raises a `RuntimeError`, as `httpx` does for a stream that was not read, that
    -- exception comes out instead, and is never tried again. Any other exception comes out as it is.
    pub request_raw-FailsAs :
        (n : ℕ) (path : String) (answer : Stream)
        → network.stream n
            (client.base <> path)
            (update (headers_of client.access_token) (("Accept", "text/csv") ∷ []))
          ≡ ok answer
        → is_success answer.status_code ≡ false
        → (exc : Exception) × (request_raw outside urlencode network client n path ≡ err exc)
          × FailsAs answer.status_code answer.json answer.read exc
    unfolding request_raw
    request_raw-FailsAs n path answer sent bad = (
      download_failure answer.status_code path (failure_payload answer.json answer.read),
      rw (sent, bad),
      download_failure-FailsAs answer.status_code path answer.json answer.read,
    )
