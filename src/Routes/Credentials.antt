-- ===== src/Routes/Credentials.antt =====
-- The validation of credentials, src/app/api/routes/credentials.py: a client for each request, whose
-- cache is cleared at the end.
use mathlib.Core.Option
use salesforce_master_servic.Base.{
  ℕ, ◌≡◌, refl, ap, inl, inr, Bool, true, false, Option, none, some, [], if◌then◌else◌, Bool-cases,
  or_default, String, ◌<>◌,
}
use salesforce_master_servic.Json.{Json, str}
use salesforce_master_servic.Errors.{
  SalesforceKind, SalesforceError, Exception, Result, is_cancelled, api_error, invalid_credentials,
  authentication_error, unauthorized, forbidden, invalid_request, not_found, server_error,
  salesforce_timeout, salesforce, raised, ok, err,
}
use salesforce_master_servic.Auth.{
  Credentials, AuthSettings, Response, Outside, Moment, Cache, AccessToken, Identity, clear_cache,
}
use salesforce_master_servic.Auth.Client.{
  after_get, get_identity, fetch_identity, validated, with_token, validate_credentials,
}
use salesforce_master_servic.Retry.{Run}
use salesforce_master_servic.Retry.Laws.{retry_call-eq-sync}
use salesforce_master_servic.Auth.Tokens.{IsSound, get_access_token-IsSound}

-- The detail of an `HTTPException` of this route.
pub record ErrorDetail : Type 0 where
  pub detail : String
  pub error_code : Json
  pub retryable : Bool

-- The answer with the identity, or an `HTTPException`.
pub data Validation : Type 0 where
  valid : Identity → Validation
  refused : ℕ → ErrorDetail → Validation

-- `_translate`: the status, by the class of the exception.
unfoldable pub status_for : SalesforceKind → Bool → ℕ
status_for invalid_credentials retry = 401
status_for unauthorized retry = 401
status_for forbidden retry = 403
status_for invalid_request retry = 400
status_for salesforce_timeout retry = 504
status_for server_error retry = if retry then 502 else 500
status_for authentication_error retry = if retry then 502 else 500
status_for _ retry = 500

abbrev pub translate : SalesforceError → Validation
translate e =
    let retry = or_default e.retryable false in
    refused (status_for e.kind retry)
      (record { detail = e.message; error_code = e.error_code; retryable = retry })

module _ (outside : Outside) (settings : AuthSettings) where
  -- The handlers of the route; `CancelledError` is no `Exception`.
  abbrev pub validation_failed : Exception → Result Validation
  validation_failed (salesforce e) = ok (translate e)
  validation_failed (raised kind text) =
      if is_cancelled (raised kind text)
      then err (raised kind text)
      else ok (
          refused 500 (record {
            detail = "credentials validation failed: " <> outside.class_name kind;
            error_code = str "UNEXPECTED_ERROR";
            retryable = false;
          }))

  abbrev pub validation_reply : Result (Identity × Json × Json) → Result Validation
  validation_reply (ok (identity, url, token_type)) = ok (valid identity)
  validation_reply (err exc) = validation_failed exc

  -- The client that is made for the request is left with the cache that is given back.
  unfoldable pub validate_route : Moment → Credentials → Option (Result Validation × Cache)
  validate_route moment credentials =
      Option.map
        (λ (run : Result (Identity × Json × Json) × Cache).
          (validation_reply run.0, clear_cache run.1))
        (validate_credentials outside settings moment credentials [])

  -- The status that a failure of Salesforce is answered with, by its class and whether a retry is
  -- advised.
  pub data HasStatus : SalesforceKind → Bool → ℕ → Type 0 where
    wrong_credentials : {retry : Bool} → HasStatus invalid_credentials retry 401
    no_session : {retry : Bool} → HasStatus unauthorized retry 401
    no_right : {retry : Bool} → HasStatus forbidden retry 403
    bad_request : {retry : Bool} → HasStatus invalid_request retry 400
    too_late : {retry : Bool} → HasStatus salesforce_timeout retry 504
    passing_fault : HasStatus server_error true 502
    lasting_fault : HasStatus server_error false 500
    passing_refusal : HasStatus authentication_error true 502
    lasting_refusal : HasStatus authentication_error false 500
    not_there : {retry : Bool} → HasStatus not_found retry 500
    other_fault : {retry : Bool} → HasStatus api_error retry 500

  -- The reply of the route, by what the client's validation came to.
  abbrev pub Answers : Result (Identity × Json × Json) → Result Validation → Type 0
  Answers (ok (identity, url, token_type)) (ok (valid shown)) = shown ≡ identity
  Answers (err (salesforce e)) (ok (refused status told)) =
      HasStatus e.kind told.retryable status
      × (told.retryable ≡ or_default e.retryable false)
      × (told.detail ≡ e.message)
      × (told.error_code ≡ e.error_code)
  Answers (err (raised kind text)) (ok (refused status told)) =
      (is_cancelled (raised kind text) ≡ false)
      × (status ≡ 500)
      × (told.retryable ≡ false)
      × (told.error_code ≡ str "UNEXPECTED_ERROR")
  Answers (err (raised kind text)) (err exc) =
      (is_cancelled (raised kind text) ≡ true) × (exc ≡ raised kind text)
  Answers _ _ = ⊥

  status_for-HasStatus :
      (kind : SalesforceKind) (retry : Bool) → HasStatus kind retry (status_for kind retry)
  unfolding status_for
  status_for-HasStatus api_error retry = other_fault
  status_for-HasStatus invalid_credentials retry = wrong_credentials
  status_for-HasStatus authentication_error true = passing_refusal
  status_for-HasStatus authentication_error false = lasting_refusal
  status_for-HasStatus unauthorized retry = no_session
  status_for-HasStatus forbidden retry = no_right
  status_for-HasStatus invalid_request retry = bad_request
  status_for-HasStatus not_found retry = not_there
  status_for-HasStatus server_error true = passing_fault
  status_for-HasStatus server_error false = lasting_fault
  status_for-HasStatus salesforce_timeout retry = too_late

  validation_reply-Answers : (r : Result (Identity × Json × Json)) → Answers r (validation_reply r)
  validation_reply-Answers (ok (identity, url, token_type)) = refl
  validation_reply-Answers (err (salesforce e)) =
      (status_for-HasStatus e.kind (or_default e.retryable false), refl, refl, refl)
  validation_reply-Answers (err (raised kind text)) =
      elim (Bool-cases (is_cancelled (raised kind text))) [
        | inl p ↦ rw p (p, refl)
        | inr p ↦ rw p (p, refl, refl, refl)
      ]

  fetch_identity-total :
      (moment : Moment) (instance_url access_token : Json)
      → (r : Result Identity) × (fetch_identity outside settings moment instance_url access_token
          ≡ some r)
  unfolding fetch_identity
  fetch_identity-total moment instance_url access_token = (
    _,
    ap (Option.map (λ (run : Run Response). after_get outside settings run.outcome)) (
        retry_call-eq-sync moment.options moment.random
          (get_identity outside settings moment instance_url access_token)),
  )

  with_token-total :
      (moment : Moment) (credentials : Credentials) (got : Option (Result AccessToken × Cache))
      → IsSound outside settings moment credentials [] got
      → (r : Result (Identity × Json × Json)) × (c : Cache) × (with_token outside settings moment
            got
          ≡ some (r, c))
  with_token-total moment credentials none sound = absurd sound
  with_token-total moment credentials (some (err exc, c)) sound = (err exc, c, refl)
  with_token-total moment credentials (some (ok auth, c)) sound =
      let (r, e) = fetch_identity-total moment auth.instance_url auth.access_token in
      (validated outside settings auth r, c, rw e refl)

  -- The validation by a new client comes to an outcome, and the route to the reply that answers that
  -- outcome, with no token left in the client. An identity is answered as it is; a failure of
  -- Salesforce by the status of its class, its message, its code, and whether a retry is advised; any
  -- other exception by 500 and no retry; and a cancellation is passed on.
  pub validate_route_lem :
      (moment : Moment) (credentials : Credentials)
      → (outcome : Result (Identity × Json × Json)) × (after : Cache) × (validate_credentials
            outside settings moment credentials []
          ≡ some (outcome, after))
        × (reply : Result Validation) × (validate_route moment credentials ≡ some (reply, []))
        × Answers outcome reply
  unfolding validate_route validate_credentials clear_cache
  validate_route_lem moment credentials =
      let (r, c, e) =
        with_token-total moment credentials _
          (get_access_token-IsSound outside settings moment credentials []) in
      (r, c, e, validation_reply r, rw e refl, validation_reply-Answers r)
