-- ===== src/Auth/Grants.antt =====
-- The requests of `SalesforceAuthClient` of src/app/salesforce/auth_client.py: the token grants with
-- their errors, and the identity.
use mathlib.Core.Option
use salesforce_master_servic.Base.{
  ℕ, zero, suc, ◌+◌, ◌⊎◌, inl, inr, Bool, true, false, ◌&&◌, ◌||◌, Option, none, some, [], ◌∷◌,
  if◌then◌else◌, nat_eq, string_eq, ◌==◌, ◌∈?◌, or_default, Dict, String, ◌<>◌, show, take_text,
  pos,
}
use salesforce_master_servic.Json.{
  truthy, get_field, get_field_or, Json, null, int, str, arr, obj, Items, nil, cons, end, field,
}
use salesforce_master_servic.Redact.{scrub}
use salesforce_master_servic.Errors.{
  SalesforceKind, Exception, Result, classify_http_error, plain, salesforce_error, as_payload,
  invalid_credentials, authentication_error, forbidden, salesforce_timeout, type_error,
  httpx_timeout, httpx_connect_error, httpx_remote_protocol_error, http_error, other_error,
  salesforce, raised, ok, err,
}
use salesforce_master_servic.Retry.{retryable_status_codes, Run, retry_call}
use salesforce_master_servic.Auth.{
  AuthSettings, Response, Outside, Moment, TokenGrant, auth_invalid_codes,
}

-- `response.json()`, or the start of the text where that raises.
unfoldable pub payload_of : Response → Json
payload_of response = elim response.body [
  | some payload ↦ payload
  | none ↦ obj (field "raw" (str (take_text 200 response.text)) end)
]

-- One attempt of `_post_token` or `_get_identity`: a status to be retried is raised.
unfoldable pub checked : String → Result Response → Result Response
checked message (err exc) = err exc
checked message (ok response) =
    if response.status_code ∈? retryable_status_codes
    then err (salesforce (classify_http_error response.status_code (payload_of response) message))
    else ok response

-- `payload.get(name) if isinstance(payload, dict) else None`
abbrev pub field_of : String → Json → Json
field_of name (obj fs) = get_field name fs
field_of name _ = null

-- `error in _AUTH_INVALID_CODES`; a list or a dict has no hash, which is a `TypeError`.
unfoldable pub is_invalid_code : Json → Option Bool
is_invalid_code (str s) = some (s ∈? auth_invalid_codes)
is_invalid_code (arr xs) = none
is_invalid_code (obj fs) = none
is_invalid_code _ = some false

abbrev pub take_items : ℕ → Items → Items
take_items zero xs = nil
take_items (suc n) nil = nil
take_items (suc n) (cons x xs) = cons x (take_items n xs)

module _ (outside : Outside) (settings : AuthSettings) where
  scrub_payload : Json → Json
  scrub_payload payload = scrub outside.loads outside.dumps payload

  -- The message with `error_desc[:200]`; `none` is the `TypeError` of a value without slices.
  unfoldable pub described : String → Json → Option String
  described message (str s) =
      some (if s == "" then message else message <> " description=" <> take_text 200 s)
  described message (arr nil) = some message
  described message (arr (cons x xs)) =
      some (message <> " description=" <> outside.shown (arr (take_items 200 (cons x xs))))
  described message value = if truthy value then none else some message

  -- A grant from an answer with status 200.
  unfoldable pub grant_of : Json → Result TokenGrant
  unfolding scrub_payload
  grant_of (obj fs) =
      if truthy (get_field "access_token" fs) && truthy (get_field "instance_url" fs)
      then ok (record {
        access_token = get_field "access_token" fs;
        instance_url = get_field "instance_url" fs;
        issued_at = get_field "issued_at" fs;
        token_type = get_field_or (str "Bearer") "token_type" fs;
        scope = get_field "scope" fs;
        signature = get_field "signature" fs;
        id = get_field "id" fs;
      })
      else err (
          salesforce_error authentication_error
            "Salesforce token grant missing access_token or instance_url"
            (record plain {
              given_status_code = some (some 200);
              given_payload = scrub_payload (obj fs);
            }))
  grant_of payload = err (raised other_error "the payload has no attribute 'get'")

  abbrev pub refused_kind : ℕ → SalesforceKind
  refused_kind status = if status == 403 then forbidden else invalid_credentials

  -- The exception for any other status, with the error code and the message, if it can be built.
  unfoldable pub refusal : ℕ → Json → Option Bool → Json → Option String → Exception
  unfolding scrub_payload
  refusal status payload known error none = raised type_error "the description has no slices"
  refusal status payload none error (some message) = raised type_error "unhashable type"
  refusal status payload (some is_known) error (some message) =
      if is_known || status ∈? (401 ∷ 400 ∷ [])
      then salesforce_error (refused_kind status) message
          (record plain { given_error_code = some error; given_payload = scrub_payload payload })
      else salesforce (classify_http_error status (as_payload (scrub_payload payload)) message)

  -- From the status of the response on.
  unfoldable pub token_response : ℕ → String → Response → Result TokenGrant
  token_response elapsed_ms label response =
      let payload = payload_of response in
      let error = field_of "error" payload in
      let message =
        "Salesforce token grant failed status="
        <> show response.status_code
        <> " elapsed_ms="
        <> show elapsed_ms
        <> " user="
        <> label in
      if response.status_code == 200
      then grant_of payload
      else err (
          refusal response.status_code payload (is_invalid_code error) error
            (described message (field_of "error_description" payload)))

  -- The handlers of the request: any other exception is passed on.
  unfoldable pub grant_failure : String → Exception → Exception
  grant_failure label (raised httpx_timeout m) =
      salesforce_error salesforce_timeout
        ("Salesforce token grant timed out for user="
          <> label
          <> ": "
          <> outside.class_name httpx_timeout)
        plain
  grant_failure label (raised httpx_connect_error m) =
      salesforce_error salesforce_timeout
        ("Salesforce token grant connect error for user="
          <> label
          <> ": "
          <> outside.class_name httpx_connect_error)
        plain
  grant_failure label (raised httpx_remote_protocol_error m) =
      salesforce_error authentication_error
        ("Salesforce token grant transport error: "
          <> outside.class_name httpx_remote_protocol_error)
        (record plain { given_retryable = some (some true) })
  grant_failure label (raised http_error m) =
      salesforce_error authentication_error
        ("Salesforce token grant transport error: " <> outside.class_name http_error)
        (record plain { given_retryable = some (some true) })
  grant_failure label exc = exc

  abbrev pub after_post : ℕ → String → Result Response → Result TokenGrant
  after_post elapsed_ms label (ok response) = token_response elapsed_ms label response
  after_post elapsed_ms label (err exc) = err (grant_failure label exc)

  abbrev pub post_token : Moment → String → Dict String → ℕ → Result Response
  post_token moment login_url form attempt =
      checked "Salesforce OAuth transient response"
        (moment.post (login_url <> "/services/oauth2/token") form attempt)

  -- `none` is a retry loop that is still running.
  unfoldable pub do_token_grant :
      Moment → String → Dict String → String → Option (Result TokenGrant)
  do_token_grant moment login_url form label =
      Option.map (λ (run : Run Response). after_post moment.elapsed_ms label run.outcome)
        (retry_call moment.options moment.random (post_token moment login_url form))

  abbrev pub invalid : String → Option (Result TokenGrant)
  invalid message = some (err (salesforce_error invalid_credentials message plain))

  unfoldable pub grant_password :
      Moment
      → String
      → Option String
      → Option String
      → Option String
      → Option String
      → Option String
      → Option (Result TokenGrant)
  grant_password moment login_url (some username) (some password) security_token (some client_id)
        client_secret =
      do_token_grant moment login_url
        (("grant_type", "password")
          ∷ ("client_id", client_id)
          ∷ ("client_secret", or_default client_secret "")
          ∷ ("username", username)
          ∷ ("password", password <> or_default security_token "")
          ∷ [])
        username
  grant_password moment login_url (some username) (some password) security_token none
        client_secret =
      invalid
        "client_id is required for password grant (configure SF_CLIENT_ID or pass in credentials)"
  grant_password moment login_url _ _ security_token client_id client_secret =
      invalid "username and password are required for password grant"

  abbrev pub claims : ℕ → String → String → String → Json
  claims now client_id audience subject = obj (
      field "iss" (str client_id) (
        field "aud" (str audience) (
          field "sub" (str subject)
            (field "exp" (int (pos (now + 300))) (field "iat" (int (pos now)) end)))))

  abbrev pub signed : String → String ⊎ String → Result String
  signed signing_input (inl name) =
      err (salesforce_error invalid_credentials ("Unable to sign JWT assertion: " <> name) plain)
  signed signing_input (inr signature) = ok (signing_input <> "." <> signature)

  abbrev pub with_key :
      ℕ → String → String → String → String ⊎ (String → String ⊎ String) → Result String
  with_key now client_id audience subject (inl name) =
      err (salesforce_error invalid_credentials ("Invalid JWT private key PEM: " <> name) plain)
  with_key now client_id audience subject (inr sign) =
      let header = obj (field "alg" (str "RS256") (field "typ" (str "JWT") end)) in
      let signing_input =
        outside.b64url (outside.dumps header)
        <> "."
        <> outside.b64url (outside.dumps (claims now client_id audience subject)) in
      signed signing_input (sign signing_input)

  unfoldable pub encode_jwt : ℕ → String → String → String → String → Result String
  encode_jwt now client_id audience subject private_key =
      with_key now client_id audience subject (outside.load_key private_key)

  abbrev pub with_assertion : Moment → String → String → Result String → Option (Result TokenGrant)
  with_assertion moment login_url subject (err exc) = some (err exc)
  with_assertion moment login_url subject (ok assertion) =
      do_token_grant moment login_url
        (("grant_type", "urn:ietf:params:oauth:grant-type:jwt-bearer")
          ∷ ("assertion", assertion)
          ∷ [])
        subject

  unfoldable pub grant_jwt_bearer :
      Moment → String → Option String → Option String → String → Option (Result TokenGrant)
  grant_jwt_bearer moment login_url (some client_id) (some subject) private_key =
      with_assertion moment login_url subject
        (encode_jwt moment.jwt_seconds client_id login_url subject private_key)
  grant_jwt_bearer moment login_url (some client_id) none private_key =
      invalid "jwt_subject / username is required for JWT Bearer grant"
  grant_jwt_bearer moment login_url none subject private_key =
      invalid
        "client_id is required for JWT Bearer grant (configure SF_CLIENT_ID or pass in credentials)"
