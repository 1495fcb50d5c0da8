-- ===== src/Tests/Tokens.antt =====
-- The token client, at concrete inputs.
use salesforce_master_servic.Retry.{retry_loop, retry_call}
use salesforce_master_servic.Auth.Grants.{
  payload_of, checked, grant_of, token_response, do_token_grant, grant_password,
}
use salesforce_master_servic.Auth.Reuse.{
  Repeats, get_access_token-Repeats, get_access_token-invalidate,
}
use salesforce_master_servic.Auth.Views.{
  view, Step, Refines, step-Refines, Steps, Briefly, steps-Briefly,
}
use salesforce_master_servic.Base.{
  ℕ, ◌+◌, ◌*◌, ◌≤◌, ◌≡◌, refl, sym, subst, ◌≢◌, inl, inr, false, Option, none, some, [], ◌∷◌, arith,
  if◌then◌else◌, nat_eq, string_eq, ◌==◌, Bool-cases, lookup, insert, erase, String, ◌<>◌, eq_iff,
  lower, is_space, take_text, text_length, last_text, rstrip_slash, has_space, contains, decimal,
}
use salesforce_master_servic.Json.{
  truthy, get_field, get_field_or, Json, null, str, obj, end, field,
}
use salesforce_master_servic.Errors.{Result, http_error, raised, ok, err}
use salesforce_master_servic.Redact.{
  is_secret_key, mask, is_like_token, has_marker, scrub_with, text_size, scrub_text, scrub,
}
use salesforce_master_servic.Redact.Laws.{Shrinks, Scrubs, TextScrubs, scrub-Scrubs, scrub-total}
use salesforce_master_servic.Auth.{
  Credentials, AuthSettings, Outside, Moment, Cache, TokenGrant, AccessToken, Identity, second,
  setting, build_cache_key, parse_jwt_private_key, compute_expires_at, default_login_url,
  invalidate_cache, login_url_of, granted_answer, entry_of,
}
use salesforce_master_servic.Auth.Client.{request_grant, get_access_token, validate_credentials}
use salesforce_master_servic.Auth.Tokens.{IsSound, get_access_token-IsSound}
use salesforce_master_servic.Routes.Credentials.{
  Validation, validate_route, Answers, validate_route_lem,
}

abbrev no_json : String → Option Json
no_json s = none

abbrev dumped : Json → String
dumped v = "{}"

masked : mask "https://acme.my.salesforce.com" 8 0 ≡ "https://...https://acme.my.salesforce.com"
unfolding mask text_length take_text last_text
masked = refl

-- A text with JSON inside, in which a text has JSON inside again.
abbrev inner_text : String
inner_text = "{\"password\": \"abc\"}"

abbrev outer_text : String
outer_text = "{\"note\": \"{\\\"password\\\": \\\"abc\\\"}\"}"

abbrev inner_value : Json
inner_value = obj (field "password" (str "abc") end)

abbrev outer_value : Json
outer_value = obj (field "note" (str inner_text) end)

abbrev secret_value : Json
secret_value = obj (field "Token" (str "abc") (field "url" (str outer_text) end))

-- What `json.loads` finds in these two texts.
abbrev two_texts : String → Option Json
two_texts s =
    if s == outer_text then some outer_value else if s == inner_text then some inner_value else none

two_texts-Shrinks : Shrinks two_texts
unfolding text_size text_length
two_texts-Shrinks s v h = elim (Bool-cases (s == outer_text)) [
  | inl p ↦
      let h' : some outer_value ≡ some v = rw p at h in
      let found : outer_value ≡ v = ground (arith, h') in
      subst (λ (x : String). text_size v ≤ text_length x) (sym ((eq_iff s outer_text).0 p))
        (subst (λ (x : Json). text_size x ≤ text_length outer_text) found (omega arith))
  | inr p ↦ elim (Bool-cases (s == inner_text)) [
    | inl q ↦
        let h' : some inner_value ≡ some v = rw (p, q) at h in
        let found : inner_value ≡ v = ground (arith, h') in
        subst (λ (x : String). text_size v ≤ text_length x) (sym ((eq_iff s inner_text).0 q))
          (subst (λ (x : Json). text_size x ≤ text_length inner_text) found (omega arith))
    | inr q ↦ let h' : none ≡ some v = rw (p, q) at h in absurd (ground (arith, h'))
  ]
]

-- The scrubbing shows the last key that it redacts.
abbrev shown_value : Json → String
shown_value (obj (field k (str s) end)) = k <> "=" <> s
shown_value v = "{}"

both_found : scrub two_texts shown_value (str outer_text) ≡ str "note=password=***REDACTED***"
unfolding scrub scrub_with scrub_text text_size text_length is_like_token has_marker lower contains
    has_space is_secret_key is_space
both_found = refl

scrub-Scrubs_example :
    Scrubs
      (TextScrubs two_texts shown_value (text_size secret_value))
      secret_value
      (scrub two_texts shown_value secret_value)
scrub-Scrubs_example = scrub-Scrubs two_texts shown_value secret_value

scrub-total_example :
    scrub_with (scrub_text two_texts shown_value 100) (str outer_text)
    ≡ scrub two_texts shown_value (str outer_text)
scrub-total_example =
    scrub-total two_texts shown_value two_texts-Shrinks (str outer_text) 100
      (unfold text_size in unfold text_length in omega arith)

abbrev outside : Outside
outside = record {
  loads = no_json;
  dumps = dumped;
  shown = λ v. "";
  class_name = λ k. "HTTPError";
  b64url = λ s. s;
  load_key = λ s. inl "ValueError";
  read_text = λ p. none;
}

abbrev settings : AuthSettings
settings = record {
  attributes = ("SF_LOGIN_URL", "https://test.salesforce.com/") ∷ ("SF_CLIENT_ID", "id") ∷ [];
  dumped = [];
}

abbrev credentials : Credentials
credentials =
    ("login_url", "https://acme.my.salesforce.com")
    ∷ ("username", "Ann@acme.com")
    ∷ ("password", "pw")
    ∷ []

abbrev token_body : Json
token_body = obj (
    field "access_token" (str "T")
      (field "instance_url" (str "https://i") (field "issued_at" (str "1000") end)))

abbrev granting : ℕ → Moment
granting now = record {
  options = record { max_retries = 1; delays = 1 ∷ []; jitter = false; max_delay = 30 };
  random = λ n. n;
  now = now;
  jwt_seconds = 0;
  elapsed_ms = 5;
  post = λ url form n. ok (record { status_code = 200; body = some token_body; text = "" });
  get = λ url form n. err (raised http_error "down");
}

abbrev failing : ℕ → Moment
failing now = record (granting now) { post = λ url form n. err (raised http_error "down") }

abbrev token_grant : TokenGrant
token_grant = record {
  access_token = str "T";
  instance_url = str "https://i";
  issued_at = str "1000";
  token_type = str "Bearer";
  scope = null;
  signature = null;
  id = null;
}

get_access_token-IsSound_example :
    IsSound outside settings
      (granting 5000000)
      credentials
      []
      (get_access_token outside settings (granting 5000000) credentials [])
get_access_token-IsSound_example =
    get_access_token-IsSound outside settings (granting 5000000) credentials []

abbrev key : String
key = "https://acme.my.salesforce.com|||ann@acme.com"

abbrev after_grant : Cache
after_grant = (key, entry_of 5000000 token_grant) ∷ []

abbrev first_answer : AccessToken
first_answer = granted_answer 5000000 token_grant

granted :
    get_access_token outside settings (granting 5000000) credentials []
    ≡ some (ok first_answer, after_grant)
unfolding get_access_token lookup request_grant parse_jwt_private_key setting lower grant_password
    do_token_grant retry_call retry_loop checked token_response grant_of payload_of truthy get_field
    get_field_or insert build_cache_key login_url_of rstrip_slash
granted = refl

expiry : first_answer.expires_at ≡ 5000000 + 1796 * second
unfolding compute_expires_at decimal
expiry = refl

get_access_token-Repeats_example :
    Repeats outside settings (failing 1500000000) credentials after_grant first_answer
get_access_token-Repeats_example =
    get_access_token-Repeats outside settings (granting 5000000) (failing 1500000000) credentials []
      after_grant first_answer granted (rw expiry (omega arith))

urls_differ : rstrip_slash (default_login_url settings) ≢ login_url_of settings credentials
unfolding rstrip_slash setting lookup login_url_of
urls_differ e =
    absurd
      (ground (arith, eq_iff "https://test.salesforce.com" "https://acme.my.salesforce.com", e))

get_access_token-invalidate_example :
    Repeats outside settings
      (failing 1500000000)
      credentials
      (invalidate_cache settings credentials none after_grant)
      first_answer
get_access_token-invalidate_example =
    get_access_token-invalidate outside settings (granting 5000000) (failing 1500000000) credentials
      [] after_grant first_answer granted urls_differ (rw expiry (omega arith))

forgotten :
    get_access_token outside settings
      (granting 5000000)
      credentials
      (invalidate_cache settings credentials (some "https://acme.my.salesforce.com/") after_grant)
    ≡ some (ok first_answer, after_grant)
unfolding get_access_token lookup request_grant parse_jwt_private_key setting lower grant_password
    do_token_grant retry_call retry_loop checked token_response grant_of payload_of truthy get_field
    get_field_or insert build_cache_key login_url_of rstrip_slash invalidate_cache erase
forgotten = refl

abbrev first_step : Step outside settings [] after_grant
first_step = Step.fetched (granting 5000000) credentials (ok first_answer) granted

step-Refines_example : Refines outside settings first_step
step-Refines_example = step-Refines outside settings [] after_grant first_step

steps-Briefly_example : Briefly outside settings (view after_grant key)
steps-Briefly_example =
    steps-Briefly outside settings after_grant (Steps.further Steps.start first_step) key

validate_route_lem_example :
    (outcome : Result (Identity × Json × Json)) × (after : Cache) × (validate_credentials outside
        settings
        (failing 1500000000)
        credentials
        []
      ≡ some (outcome, after))
    × (reply : Result Validation) × (validate_route outside settings
          (failing 1500000000)
          credentials
        ≡ some (reply, []))
    × Answers outside settings outcome reply
validate_route_lem_example = validate_route_lem outside settings (failing 1500000000) credentials
