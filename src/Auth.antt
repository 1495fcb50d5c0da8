-- ===== src/Auth.antt =====
-- `SalesforceAuthClient` of src/app/salesforce/auth_client.py: the grants, the token cache and the
-- identity. Times are in microseconds. HTTP, `json`, `cryptography` and the file of a key are
-- parameters. A credential is a text, and a missing one reads like `None`. The answer keeps its times
-- as numbers, where the client sends `isoformat()`.
pub mod Grants
pub mod Client
pub mod Expiry
pub mod Tokens
pub mod Reuse
pub mod Views
use salesforce_master_servic.Base.{
  ℕ, ◌+◌, ◌-◌, ◌*◌, ◌/◌, max, ◌⊎◌, Bool, true, false, not, ◌&&◌, Option, none, some, List, [], ◌∷◌,
  if◌then◌else◌, ltb, leb, or_default, Dict, lookup, erase, String, ◌<>◌, lower, strip, show,
  rstrip_slash, decimal, given, ◌or_given◌,
}
use salesforce_master_servic.Json.{Json, str}
use salesforce_master_servic.Errors.{Kind, Result, salesforce}
use salesforce_master_servic.Retry.{RetryOptions}

abbrev pub Credentials : Type 0
Credentials = Dict String

-- The attributes of the settings that are not `None`, and what `model_dump()` has of them.
pub record AuthSettings : Type 0 where
  pub attributes : Dict String
  pub dumped : Dict String

-- An answer of the server. A body that is not JSON has only its text.
pub record Response : Type 0 where
  pub status_code : ℕ
  pub body : Option Json
  pub text : String

-- What is outside. `load_key` gives the name of the exception's class, or a key, whose signature of
-- a text is in URL-safe base64 without padding, or fails in the same way.
pub record Outside : Type 0 where
  pub loads : String → Option Json
  pub dumps : Json → String
  pub shown : Json → String
  pub class_name : Kind → String
  pub b64url : String → String
  pub load_key : String → String ⊎ (String → String ⊎ String)
  -- The text of a file; `none` is a path that is no file, or an `OSError`.
  pub read_text : String → Option String

-- What one call of the client meets: the retry settings and random numbers, the clock, and what each
-- attempt of a request gives. The URL, and the form or the headers, are what is sent.
pub record Moment : Type 0 where
  pub options : RetryOptions
  pub random : ℕ → ℕ
  pub now : ℕ
  pub jwt_seconds : ℕ
  pub elapsed_ms : ℕ
  pub post : String → Dict String → ℕ → Result Response
  pub get : String → Dict String → ℕ → Result Response

-- `_CacheEntry`
pub record CacheEntry : Type 0 where
  pub token : Json
  pub instance_url : Json
  pub expires_at : ℕ
  pub granted_at : ℕ

abbrev pub Cache : Type 0
Cache = Dict CacheEntry

-- What `_do_token_grant` returns.
pub record TokenGrant : Type 0 where
  pub access_token : Json
  pub instance_url : Json
  pub issued_at : Json
  pub token_type : Json
  pub scope : Json
  pub signature : Json
  pub id : Json

-- What `get_access_token` returns. The answer from the cache has no scope.
pub record AccessToken : Type 0 where
  pub access_token : Json
  pub instance_url : Json
  pub expires_at : ℕ
  pub granted_at : ℕ
  pub issued_at : Json
  pub token_type : Json
  pub scope : Option Json
  pub cached : Bool

pub record Identity : Type 0 where
  pub user_id : Json
  pub organization_id : Json
  pub username : Json
  pub email : Json
  pub display_name : Json
  pub url : Json

abbrev pub second : ℕ
second = 1000000

abbrev pub cache_min_lifetime_seconds : ℕ
cache_min_lifetime_seconds = 120

abbrev pub cache_near_expiry_window : ℕ
cache_near_expiry_window = 60

abbrev pub auth_invalid_codes : List String
auth_invalid_codes =
    "invalid_client_id" ∷ "invalid_client" ∷ "invalid_grant" ∷ "inactive_org" ∷ "inactive_user"
    ∷ "invalid_password" ∷ "ip_restriction_exception" ∷ "invalid_client_credentials" ∷ []

-- `credentials.get(name)` as a condition or behind an `or`
abbrev pub credential : Credentials → String → Option String
credential credentials name = given (lookup name credentials)

-- `_setting(settings, name)`, behind an `or`
unfoldable pub setting : AuthSettings → String → Option String
setting settings name = given (elim (lookup name settings.attributes) [
  | some value ↦ some value
  | none ↦ lookup name settings.dumped
])

unfoldable pub build_cache_key : Credentials → String → String
build_cache_key credentials login_url =
    let username =
      or_default (credential credentials "jwt_subject" or_given credential credentials "username")
        "" in
    let client_id = or_default (credential credentials "client_id") "" in
    let grant_type = or_default (credential credentials "grant_type") "" in
    login_url <> ("|" <> grant_type <> "|" <> lower client_id <> "|" <> lower username)

unfoldable pub is_expired_or_near : CacheEntry → ℕ → Bool
is_expired_or_near entry now = leb entry.expires_at (now + cache_near_expiry_window * second)

unfoldable pub is_valid : CacheEntry → ℕ → Bool
is_valid entry now = ltb now entry.expires_at

-- A text without the spaces around it, unless nothing is left.
abbrev pub stripped : Option String → Option String
stripped none = none
stripped (some s) = given (some (strip s))

unfoldable pub parse_jwt_private_key :
    (String → Option String) → Option String → Option String → Option String
parse_jwt_private_key read_text value path =
    stripped value or_given (elim (given path) [ none ↦ none | some p ↦ stripped (read_text p) ])

abbrev pub issued_ttl : ℕ → Option ℕ → ℕ
issued_ttl granted_at none = 1800
issued_ttl granted_at (some issued_ms) =
    max cache_min_lifetime_seconds (1800 - (granted_at / 1000 - issued_ms) / 1000)

abbrev pub digits_of_json : Json → Option ℕ
digits_of_json (str s) = decimal s
digits_of_json _ = none

unfoldable pub compute_expires_at : ℕ → TokenGrant → ℕ
compute_expires_at granted_at grant =
    granted_at + issued_ttl granted_at (digits_of_json grant.issued_at) * second

unfoldable pub clear_cache : Cache → Cache
clear_cache cache = []

-- The login URL of the settings, or Salesforce's own.
abbrev pub default_login_url : AuthSettings → String
default_login_url settings =
    or_default (setting settings "SF_LOGIN_URL") "https://login.salesforce.com"

unfoldable pub invalidate_cache : AuthSettings → Credentials → Option String → Cache → Cache
invalidate_cache settings credentials login_url cache =
    let url = or_default (given login_url) (default_login_url settings) in
    erase (build_cache_key credentials (rstrip_slash url)) cache

-- The login URL of a grant.
unfoldable pub login_url_of : AuthSettings → Credentials → String
login_url_of settings credentials =
    rstrip_slash (or_default (credential credentials "login_url") (default_login_url settings))

abbrev pub cached_answer : CacheEntry → AccessToken
cached_answer entry = record {
  access_token = entry.token;
  instance_url = entry.instance_url;
  expires_at = entry.expires_at;
  granted_at = entry.granted_at;
  issued_at = str (show (entry.granted_at / 1000));
  token_type = str "Bearer";
  scope = none;
  cached = true;
}

abbrev pub granted_answer : ℕ → TokenGrant → AccessToken
granted_answer now grant = record {
  access_token = grant.access_token;
  instance_url = grant.instance_url;
  expires_at = compute_expires_at now grant;
  granted_at = now;
  issued_at = grant.issued_at;
  token_type = grant.token_type;
  scope = some grant.scope;
  cached = false;
}

abbrev pub entry_of : ℕ → TokenGrant → CacheEntry
entry_of now grant = record {
  token = grant.access_token;
  instance_url = grant.instance_url;
  expires_at = compute_expires_at now grant;
  granted_at = now;
}

-- The entry that a call answers with: it is there, not near its expiry, and valid.
abbrev pub usable : ℕ → Option CacheEntry → Option CacheEntry
usable now none = none
usable now (some entry) =
    if not (is_expired_or_near entry now) && is_valid entry now then some entry else none
