-- ===== src/Errors.antt =====
-- The exceptions: src/app/salesforce/exceptions.py, and the classes of Python and httpx that the
-- service catches or raises. An `error_code` of `None` is `null`.
pub mod Laws
use salesforce_master_servic.Base.{
  ℕ, Bool, true, false, ◌&&◌, Option, none, some, if◌then◌else◌, ltb, leb, nat_eq, string_eq, ◌==◌,
  or_default, String, ◌<>◌, show, given,
}
use salesforce_master_servic.Json.{
  ◌or_else◌, get_field, Json, null, str, arr, obj, cons, end, field,
}

pub data SalesforceKind : Type 0 where
  api_error invalid_credentials authentication_error unauthorized forbidden : SalesforceKind
  invalid_request not_found server_error salesforce_timeout : SalesforceKind

-- The attributes of `SalesforceAPIError`.
pub record SalesforceError : Type 0 where
  pub kind : SalesforceKind
  pub message : String
  pub status_code : Option ℕ
  pub error_code : Json
  pub retryable : Option Bool
  pub response_payload : Json

-- Other classes. `OSError` has the subclasses `ConnectionError`, `TimeoutError` and
-- `FileNotFoundError`; `http_error` stands for the other subclasses of `httpx.HTTPError`.
pub data Kind : Type 0 where
  value_error runtime_error type_error key_error attribute_error : Kind
  os_error connection_error timeout_error file_not_found : Kind
  httpx_timeout httpx_connect_error httpx_remote_protocol_error http_error : Kind
  cancelled_error other_error : Kind

pub data Exception : Type 0 where
  salesforce : SalesforceError → Exception
  raised : Kind → String → Exception

-- What a call that may raise gives.
pub data Result {ℓ} (A : Type ℓ) : Type ℓ where
  ok : A → Result A
  err : Exception → Result A

-- `kwargs.pop(name, default)`: the keyword is given, perhaps as `None`, or left out.
abbrev pub popped {ℓ} : {A : Type ℓ} → Option A → A → A
popped given default = or_default given default

-- The keywords that `classify_http_error` and the clients give.
pub record Keywords : Type 0 where
  pub given_status_code : Option (Option ℕ)
  pub given_error_code : Option Json
  pub given_retryable : Option (Option Bool)
  pub given_payload : Json

-- `response_payload or {}`
abbrev pub payload_or_empty : Json → Json
payload_or_empty payload = payload or_else obj end

abbrev build : SalesforceKind → String → Keywords → Option ℕ → Json → Option Bool → SalesforceError
build kind message keywords status code retry = record {
  kind = kind;
  message = message;
  status_code = popped keywords.given_status_code status;
  error_code = popped keywords.given_error_code code;
  retryable = retry;
  response_payload = payload_or_empty keywords.given_payload;
}

-- The constructors of the subclasses, with what each takes where a keyword is left out.
unfoldable pub make : SalesforceKind → String → Keywords → SalesforceError
make api_error m k = build api_error m k none null (popped k.given_retryable none)
make invalid_credentials m k =
    build invalid_credentials m k (some 401) (str "INVALID_CREDENTIALS") (some false)
make authentication_error m k =
    build authentication_error m k (some 400) (str "AUTH_ERROR") (popped k.given_retryable none)
make unauthorized m k = build unauthorized m k (some 401) (str "UNAUTHORIZED") (some false)
make forbidden m k = build forbidden m k (some 403) (str "FORBIDDEN") (some false)
make invalid_request m k = build invalid_request m k (some 400) (str "INVALID_REQUEST") (some false)
make not_found m k = build not_found m k (some 404) (str "NOT_FOUND") (some false)
make server_error m k = build server_error m k none (str "SERVER_ERROR") (some true)
make salesforce_timeout m k = build salesforce_timeout m k none (str "TIMEOUT") (some true)

-- The error code that a payload of Salesforce carries.
unfoldable pub payload_error_code : Json → Json
payload_error_code (arr (cons (obj fs) _)) = get_field "errorCode" fs or_else get_field "code" fs
payload_error_code (obj fs) =
    get_field "errorCode" fs or_else get_field "code" fs or_else get_field "error" fs
payload_error_code _ = null

abbrev with_code : Json → Json → Keywords
with_code code payload = record {
  given_status_code = none;
  given_error_code = some code;
  given_retryable = none;
  given_payload = payload_or_empty payload;
}

abbrev with_status_and_code : ℕ → Json → Json → Keywords
with_status_and_code status code payload = record (with_code code payload) {
  given_status_code = some (some status);
}

unfoldable pub classify_http_error : ℕ → Json → String → SalesforceError
unfolding make payload_error_code
classify_http_error status_code payload message =
    let code = payload_error_code payload in
    if leb 500 status_code && ltb status_code 600
    then make server_error message (with_status_and_code status_code code payload)
    else if status_code == 404
    then make not_found message (with_code code payload)
    else if status_code == 403
    then make forbidden message (with_code code payload)
    else if status_code == 401
    then make unauthorized message (with_code code payload)
    else if status_code == 400
    then make invalid_request message (with_code code payload)
    else if status_code == 429
    then make server_error message
        (with_status_and_code 429 (code or_else str "TOO_MANY_REQUESTS") payload)
    else make api_error message
        (with_status_and_code status_code (code or_else str ("HTTP_" <> show status_code)) payload)

-- `isinstance(exc, OSError)`
abbrev pub is_os_error : Kind → Bool
is_os_error os_error = true
is_os_error connection_error = true
is_os_error timeout_error = true
is_os_error file_not_found = true
is_os_error _ = false

-- `isinstance(exc, (httpx.TimeoutException, httpx.ConnectError, httpx.RemoteProtocolError))`
abbrev pub is_transport_error : Kind → Bool
is_transport_error httpx_timeout = true
is_transport_error httpx_connect_error = true
is_transport_error httpx_remote_protocol_error = true
is_transport_error _ = false

-- `isinstance(exc, asyncio.CancelledError)`
abbrev pub is_cancelled : Exception → Bool
is_cancelled (raised cancelled_error _) = true
is_cancelled _ = false

-- `getattr(exc, "retryable", False)` as a condition
abbrev pub retryable_attribute : Exception → Bool
retryable_attribute (salesforce e) = or_default e.retryable false
retryable_attribute (raised _ _) = false

-- No keyword is given.
abbrev pub plain : Keywords
plain = record {
  given_status_code = none;
  given_error_code = none;
  given_retryable = none;
  given_payload = null;
}

abbrev pub salesforce_error : SalesforceKind → String → Keywords → Exception
salesforce_error kind message keywords = salesforce (make kind message keywords)

-- `payload if isinstance(payload, dict) else {"raw": payload}`
abbrev pub as_payload : Json → Json
as_payload (obj fs) = obj fs
as_payload payload = obj (field "raw" payload end)
