-- ===== src/BatchApi.antt =====
-- `SalesforceBatchAPIClient` of src/app/salesforce/batch_api_client.py: its requests and what they
-- make of the answers. The network, `urlencode` and `repr` are parameters, logging is left out.
pub mod Jobs
pub mod Downloads
pub mod Failures
pub mod Pages
use Prim.Native.Char.{code}
use salesforce_master_servic.Base.{
  ℕ, Bool, true, not, ◌&&◌, ◌||◌, Option, none, some, List, [], ◌∷◌, if◌then◌else◌, ltb, leb,
  nat_eq, string_eq, ◌==◌, Dict, update, String, ◌<>◌, starts_with, strip, show, take_text,
  int_of_text, text_length, last_text, rstrip_slash, decimal, ℤ, pos,
}
use salesforce_master_servic.Json.{
  truthy, get_field, Json, null, bool, int, float, str, arr, obj, cons, end, field,
}
use salesforce_master_servic.Redact.{mask, scrub}
use salesforce_master_servic.Errors.{
  Exception, Result, classify_http_error, plain, salesforce_error, api_error, invalid_request,
  salesforce_timeout, httpx_timeout, httpx_connect_error, httpx_remote_protocol_error, http_error,
  salesforce, raised, ok, err,
}
use salesforce_master_servic.Auth.{Response, Outside}

pub record Client : Type 0 where
  pub access_token : String
  pub instance_url : String
  pub api_version : String
  pub base : String
  pub timeout_seconds : ℕ

-- An answer whose body is read as a stream: the chunks, and an exception that may end them. `json`
-- and `read` are what `json()` and then `aread()` give, or raise, of the body of a failure: `httpx`
-- raises a `RuntimeError` for the JSON of a stream that was not read.
pub record Stream : Type 0 where
  pub status_code : ℕ
  pub chunks : List (List ℕ)
  pub broken : Option Exception
  pub json : Result Json
  pub read : Result String
  pub locator : Option String
  pub number_of_records : Option String
  pub content_type : Option String

-- What the server answers: to a request with a method, a URL, a body and headers, and, at the given
-- number among the downloads, to a request for a stream.
pub record Network : Type 0 where
  pub request : String → String → Option Json → Dict String → Result Response
  pub stream : ℕ → String → Dict String → Result Stream

unfoldable pub headers_of : String → Dict String
headers_of access_token =
    ("Authorization", "Bearer " <> access_token)
    ∷ ("Accept", "application/json")
    ∷ ("User-Agent", "salesforce-master-service/0.1")
    ∷ []

abbrev pub refuse {ℓ} : {A : Type ℓ} → String → Result A
refuse message = err (salesforce_error invalid_request message plain)

unfoldable pub validate_job_id : String → Result (Unit {0})
validate_job_id job_id =
    if job_id == "" then refuse "job_id is required and must be a non-empty string" else ok tt

-- The constructor.
unfoldable pub new_client : String → String → String → ℕ → Result Client
new_client access_token instance_url api_version timeout_seconds =
    let url = rstrip_slash instance_url in
    if access_token == ""
    then refuse "access_token is required"
    else if instance_url == ""
    then refuse "instance_url is required"
    else if api_version == ""
    then refuse "api_version is required"
    else if not (starts_with url "https://" || starts_with url "http://")
    then refuse ("instance_url must start with https:// or http://: " <> mask instance_url 8 0)
    else ok (record {
      access_token = access_token;
      instance_url = url;
      api_version = api_version;
      base = url <> "/services/data/v" <> api_version;
      timeout_seconds = if timeout_seconds == 0 then 60 else timeout_seconds;
    })

unfoldable pub safe_path : String → String
safe_path path =
    if leb (text_length path) 120 then path else take_text 80 path <> "..." <> last_text 40 path

-- `s.replace(",", "")`
unfoldable pub without_commas : String → String
without_commas String.[] = String.[]
without_commas (String.◌∷◌ c s) =
    let rest = without_commas s in if code c == b',' then rest else String.◌∷◌ c rest

abbrev pub int_or_null : Option ℤ → Json
int_or_null none = null
int_or_null (some i) = int i

abbrev pub digits_or : Json → Option ℕ → Json
digits_or other none = other
digits_or other (some n) = int (pos n)

-- `safe_int`, where `truncated` is `int` of a float (`none` is its `ValueError`). `json` gives no
-- infinite number here, of which `int` raises an exception that is not caught.
unfoldable pub safe_int : (String → Option ℤ) → Json → Json
safe_int truncated null = null
safe_int truncated (bool b) = bool b
safe_int truncated (int i) = int i
safe_int truncated (float s) = int_or_null (truncated s)
safe_int truncated (str s) =
    digits_or (digits_or (int_or_null (int_of_text s)) (decimal (strip (without_commas s))))
      (decimal s)
safe_int truncated (arr xs) = null
safe_int truncated (obj fs) = null

unfoldable pub is_success : ℕ → Bool
is_success status = leb 200 status && ltb status 300

module _ (outside : Outside) where
  -- What both kinds of request raise for an exception of `httpx`, by the words for a timeout; any
  -- other exception is passed on.
  unfoldable pub request_failure : String → String → String → Exception → Exception
  request_failure method path timed_out (raised httpx_timeout m) =
      salesforce_error salesforce_timeout
        ("Salesforce Bulk API "
          <> method
          <> " "
          <> safe_path path
          <> timed_out
          <> outside.class_name httpx_timeout)
        plain
  request_failure method path timed_out (raised httpx_connect_error m) =
      salesforce_error salesforce_timeout
        ("Salesforce Bulk API "
          <> method
          <> " "
          <> safe_path path
          <> " connect error: "
          <> outside.class_name httpx_connect_error)
        plain
  request_failure method path timed_out (raised httpx_remote_protocol_error m) =
      salesforce_error api_error
        ("Salesforce Bulk API "
          <> method
          <> " "
          <> safe_path path
          <> " transport error: "
          <> outside.class_name httpx_remote_protocol_error)
        (record plain { given_retryable = some (some true) })
  request_failure method path timed_out (raised http_error m) =
      salesforce_error api_error
        ("Salesforce Bulk API "
          <> method
          <> " "
          <> safe_path path
          <> " transport error: "
          <> outside.class_name http_error)
        (record plain { given_retryable = some (some true) })
  request_failure method path timed_out exc = exc

  -- `str(value)`
  abbrev pub text_of : Json → String
  text_of (str s) = s
  text_of value = outside.shown value

  -- The detail that the first item of a list of errors has.
  unfoldable pub detail_of : Json → String
  detail_of (arr (cons (obj fs) _)) =
      let detail = get_field "message" fs in
      if truthy detail then " detail=" <> take_text 300 (text_of detail) else ""
  detail_of _ = ""

  -- A list is passed on as it is, another value that is no dict is wrapped.
  abbrev pub error_payload : Json → Json
  error_payload (obj fs) = obj fs
  error_payload (arr xs) = arr xs
  error_payload value = obj (field "raw" (str (take_text 500 (text_of value))) end)

  unfoldable pub json_of : Response → Json
  json_of response = elim response.body [
    | some payload ↦ payload
    | none ↦ obj (field "raw" (str (take_text 500 response.text)) end)
  ]

  -- From the answer on.
  abbrev pub answered : String → String → ℕ → Result Response → Result Json
  answered method path elapsed_ms (err exc) = err (request_failure method path " timed out: " exc)
  answered method path elapsed_ms (ok response) =
      let payload = json_of response in
      let message =
        "Salesforce Bulk API "
        <> method
        <> " "
        <> safe_path path
        <> " failed status="
        <> show response.status_code
        <> " elapsed_ms="
        <> show elapsed_ms
        <> detail_of payload in
      if is_success response.status_code
      then ok payload
      else err (
          salesforce (
            classify_http_error response.status_code
              (error_payload (scrub outside.loads outside.dumps payload)) message))

  -- `_request`: the JSON of an answer that succeeded.
  unfoldable pub request :
      Network → Client → ℕ → String → String → Option Json → Dict String → Result Json
  request network client elapsed_ms method path body headers_extra =
      answered method path elapsed_ms (
        network.request method (client.base <> path) body
          (update (headers_of client.access_token) headers_extra))
