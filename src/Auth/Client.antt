-- ===== src/Auth/Client.antt =====
-- `get_access_token` and `validate_credentials` of src/app/salesforce/auth_client.py.
use salesforce_master_servic.Retry.{Run, retry_call}
use mathlib.Core.Option
use salesforce_master_servic.Base.{
  ℕ, true, Option, none, some, List, [], ◌∷◌, if◌then◌else◌, nat_eq, string_eq, ◌==◌, ◌∈?◌,
  or_default, lookup, insert, String, ◌<>◌, lower, show, ◌or_given◌,
}
use salesforce_master_servic.Json.{◌or_else◌, get_field, Json, str, obj}
use salesforce_master_servic.Errors.{
  Exception, Result, classify_http_error, plain, salesforce_error, as_payload, api_error,
  invalid_credentials, invalid_request, salesforce_timeout, httpx_timeout, httpx_connect_error,
  httpx_remote_protocol_error, http_error, salesforce, raised, ok, err,
}
use salesforce_master_servic.Auth.{
  Credentials, AuthSettings, Response, Outside, Moment, CacheEntry, Cache, TokenGrant, AccessToken,
  Identity, credential, setting, build_cache_key, parse_jwt_private_key, login_url_of,
  cached_answer, granted_answer, entry_of, usable,
}
use salesforce_master_servic.Auth.Grants.{
  payload_of, checked, invalid, grant_password, grant_jwt_bearer,
}

abbrev pub jwt_grant_types : List String
jwt_grant_types = "jwt" ∷ "jwt_bearer" ∷ "urn:ietf:params:oauth:grant-type:jwt-bearer" ∷ []

module _ (outside : Outside) (settings : AuthSettings) where
  abbrev pub client_id_of : Credentials → Option String
  client_id_of credentials =
      credential credentials "client_id" or_given setting settings "SF_CLIENT_ID"

  abbrev pub jwt_key_of : Credentials → Option String
  jwt_key_of credentials =
      parse_jwt_private_key outside.read_text (lookup "jwt_private_key" credentials) (
        credential credentials "jwt_private_key_path"
        or_given setting settings "SF_JWT_PRIVATE_KEY_PATH")

  abbrev pub without_key : Moment → Credentials → String → String → Option (Result TokenGrant)
  without_key moment credentials login_url grant_type =
      if grant_type ∈? jwt_grant_types
      then invalid outside settings
          "JWT Bearer flow requested but no jwt_private_key supplied and SF_JWT_PRIVATE_KEY_PATH is not configured"
      else if grant_type == "password"
      then grant_password outside settings moment login_url (credential credentials "username")
          (credential credentials "password") (credential credentials "security_token")
          (client_id_of credentials)
          (credential credentials "client_secret" or_given setting settings "SF_CLIENT_SECRET")
      else some
          (err (salesforce_error invalid_request ("Unsupported grant_type: " <> grant_type) plain))

  -- The grant that is asked for: by JWT if there is a key or the type says so.
  abbrev pub grant_with : Moment → Credentials → String → Option String → Option (Result TokenGrant)
  grant_with moment credentials login_url (some key) =
      grant_jwt_bearer outside settings moment login_url (client_id_of credentials)
        (credential credentials "jwt_subject" or_given credential credentials "username") key
  grant_with moment credentials login_url none =
      without_key moment credentials login_url
        (lower (or_default (credential credentials "grant_type") "password"))

  unfoldable pub request_grant : Moment → Credentials → Option (Result TokenGrant)
  request_grant moment credentials =
      grant_with moment credentials (login_url_of settings credentials) (jwt_key_of credentials)

  -- A grant is kept in the cache; an exception leaves the cache as it is.
  abbrev pub store_grant : ℕ → String → Cache → Result TokenGrant → Result AccessToken × Cache
  store_grant now key cache (err exc) = (err exc, cache)
  store_grant now key cache (ok grant) =
      (ok (granted_answer now grant), insert key (entry_of now grant) cache)

  abbrev pub answer_with :
      Moment
      → Credentials
      → String
      → Cache
      → Option CacheEntry
      → Option (Result AccessToken × Cache)
  answer_with moment credentials key cache (some entry) = some (ok (cached_answer entry), cache)
  answer_with moment credentials key cache none =
      Option.map (store_grant moment.now key cache) (request_grant moment credentials)

  abbrev pub key_for : Credentials → String
  key_for credentials = build_cache_key credentials (login_url_of settings credentials)

  -- `none` is a retry loop that is still running.
  unfoldable pub get_access_token :
      Moment → Credentials → Cache → Option (Result AccessToken × Cache)
  get_access_token moment [] cache =
      some (err (salesforce_error invalid_credentials "credentials payload is empty" plain), cache)
  get_access_token moment (c ∷ cs) cache =
      let key = key_for (c ∷ cs) in
      answer_with moment (c ∷ cs) key cache (usable moment.now (lookup key cache))

  -- `f"{value}"`
  abbrev formatted : Json → String
  formatted (str s) = s
  formatted value = outside.shown value

  unfoldable pub identity_of : ℕ → Json → Result Identity
  identity_of status payload = if status == 200 then from_payload payload else failed payload
    where
      failed : Json → Result Identity
      failed value = err (
          salesforce (
            classify_http_error status (as_payload value)
              ("Salesforce identity call failed status=" <> show status)))

      from_payload : Json → Result Identity
      from_payload (obj fs) = ok (record {
        user_id = get_field "user_id" fs;
        organization_id = get_field "organization_id" fs;
        username = get_field "preferred_username" fs or_else get_field "email" fs;
        email = get_field "email" fs;
        display_name = get_field "name" fs;
        url = get_field "url" fs;
      })
      from_payload value = failed value

  -- The handlers of the identity request: any other exception is passed on.
  unfoldable pub identity_failure : Exception → Exception
  identity_failure (raised httpx_timeout m) =
      salesforce_error salesforce_timeout "Salesforce identity call timed out" plain
  identity_failure (raised httpx_connect_error m) =
      salesforce_error salesforce_timeout
        ("Salesforce identity connect error: " <> outside.class_name httpx_connect_error) plain
  identity_failure (raised httpx_remote_protocol_error m) =
      salesforce_error api_error
        ("Salesforce identity transport error: " <> outside.class_name httpx_remote_protocol_error)
        (record plain { given_retryable = some (some true) })
  identity_failure (raised http_error m) =
      salesforce_error api_error
        ("Salesforce identity transport error: " <> outside.class_name http_error)
        (record plain { given_retryable = some (some true) })
  identity_failure exc = exc

  abbrev pub after_get : Result Response → Result Identity
  after_get (ok response) = identity_of response.status_code (payload_of response)
  after_get (err exc) = err (identity_failure exc)

  abbrev pub get_identity : Moment → Json → Json → ℕ → Result Response
  get_identity moment instance_url access_token attempt =
      checked "Salesforce identity transient response" (
        moment.get (formatted instance_url <> "/services/oauth2/userinfo")
          (("Authorization", "Bearer " <> formatted access_token)
            ∷ ("Accept", "application/json")
            ∷ [])
          attempt)

  unfoldable pub fetch_identity : Moment → Json → Json → Option (Result Identity)
  fetch_identity moment instance_url access_token =
      Option.map (λ (run : Run Response). after_get run.outcome)
        (retry_call moment.options moment.random (get_identity moment instance_url access_token))

  abbrev pub validated : AccessToken → Result Identity → Result (Identity × Json × Json)
  validated auth (err exc) = err exc
  validated auth (ok identity) = ok (identity, auth.instance_url, auth.token_type)

  abbrev pub with_token :
      Moment
      → Option (Result AccessToken × Cache)
      → Option (Result (Identity × Json × Json) × Cache)
  with_token moment none = none
  with_token moment (some (err exc, cache)) = some (err exc, cache)
  with_token moment (some (ok auth, cache)) =
      Option.map (λ (found : Result Identity). (validated auth found, cache))
        (fetch_identity moment auth.instance_url auth.access_token)

  -- The identity, the instance URL and the token type of credentials that are valid.
  unfoldable pub validate_credentials :
      Moment → Credentials → Cache → Option (Result (Identity × Json × Json) × Cache)
  validate_credentials moment credentials cache =
      with_token moment (get_access_token moment credentials cache)
