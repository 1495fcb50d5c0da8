-- ===== src/Hmac.antt =====
-- Request signing: src/app/security/hmac.py. Times are microseconds, as `time.time()` reads them.
-- SHA-256 and HMAC-SHA-256 are parameters.
pub mod Halves
pub mod Interleaving
pub mod Nonces
pub mod Acceptance
pub mod Replay
pub mod Signing
use salesforce_master_servic.Base.{
  ℕ, ◌+◌, ◌-◌, ◌*◌, ◌/◌, Bool, true, false, not, ◌&&◌, Option, none, some, List, [], ◌∷◌, ◌++◌,
  if◌then◌else◌, ltb, leb, nat_eq, string_eq, ◌==◌, is_some, Dict, lookup, insert, erase, length,
  drop, keep, String, ◌<>◌, upper, int_of_text, given, ℤ, pos, negsuc,
}

-- `_NONCE_STORE`, from a nonce to its expiry, the oldest first.
abbrev pub NonceStore : Type 0
NonceStore = Dict ℕ

abbrev pub nonce_max_size : ℕ
nonce_max_size = 10000

abbrev pub second : ℕ
second = 1000000

abbrev pub is_unexpired : ℕ → String × ℕ → Bool
is_unexpired now (nonce, expiry) = not (ltb expiry now)

unfoldable pub evict_expired_nonces : ℕ → NonceStore → NonceStore
evict_expired_nonces now store = keep (is_unexpired now) store

-- `_NONCE_STORE.popitem(last=False)`
abbrev pub pop_oldest : NonceStore → NonceStore
pop_oldest store = drop 1 store

-- The first time is read by the eviction, the second for the expiry.
unfoldable pub check_and_register_nonce : String → ℕ → ℕ → ℕ → NonceStore → Bool × NonceStore
check_and_register_nonce nonce max_age evict_time now store =
    let live = evict_expired_nonces evict_time store in
    if is_some (lookup nonce live)
    then (false, live)
    else let room = if leb nonce_max_size (length live) then pop_oldest live else live in
      (true, insert nonce (now + (max_age + 60) * second) room)

pub data Role : Type 0 where
  full read_only : Role

-- `HMACAuthData`
pub record HmacAuthData : Type 0 where
  pub client_id : String
  pub role : Role
  pub signature : String
  pub timestamp : String
  pub nonce : String

pub record Request : Type 0 where
  pub method : String
  pub path : String
  pub body : List ℕ
  pub signature_header : Option String
  pub timestamp_header : Option String
  pub client_id_header : Option String
  pub nonce_header : Option String

pub record HmacSettings : Type 0 where
  pub enabled : Bool
  pub secret_key_core : String
  pub secret_key_engineer : String
  pub signature_max_age : ℕ

-- What the three calls of `time.time()` return in one verification.
pub record Times : Type 0 where
  pub checked_at : ℕ
  pub evicted_at : ℕ
  pub registered_at : ℕ

-- An `HTTPException`, by its status code and the reason that is audited.
pub data Verdict : Type 0 where
  accepted : HmacAuthData → Verdict
  rejected : ℕ → String → Verdict

-- An audit event of an authentication: its type and the client id, if one was sent.
pub record AuthEvent : Type 0 where
  pub event_type : String
  pub actor_client_id : Option String

pub record AuthState : Type 0 where
  pub nonces : NonceStore
  pub events : List AuthEvent

-- `abs(now - req_time)`
abbrev pub distance : ℕ → ℤ → ℕ
distance now (pos t) = (now - t) + (t - now)
distance now (negsuc t) = now + t + 1

module _ (sha256 : List ℕ → String) (hmac_sha256 : String → String → String) where
  unfoldable pub build_canonical_string : String → String → String → String → List ℕ → String
  build_canonical_string method path timestamp nonce body =
      upper method <> "\n" <> path <> "\n" <> timestamp <> "\n" <> nonce <> "\n" <> sha256 body

  abbrev pub reject : ℕ → String → Option String → AuthState → Verdict × AuthState
  reject status reason client_id state = (
    rejected status reason,
    record state {
      events = state.events ++ record { event_type = reason; actor_client_id = client_id } ∷ [];
    },
  )

  -- The secret and the role of a client id.
  abbrev pub key_of : HmacSettings → String → Option (String × Role)
  key_of settings client_id =
      if client_id == "coordinator"
      then some (settings.secret_key_core, full)
      else if client_id == "engineer"
      then some (settings.secret_key_engineer, read_only)
      else none

  abbrev pub is_read_only : Role → Bool
  is_read_only full = false
  is_read_only read_only = true

  abbrev pub expected_signature : Request → String → String → String → String
  expected_signature request secret timestamp nonce =
      hmac_sha256 secret
        (build_canonical_string request.method request.path timestamp nonce request.body)

  -- From the nonce check on.
  unfoldable pub verify_signature :
      HmacSettings
      → Times
      → Request
      → String
      → String
      → String
      → String
      → String
      → Role
      → AuthState
      → Verdict × AuthState
  verify_signature settings times request sig timestamp client_id nonce secret role state =
      let (fresh, nonces) =
        check_and_register_nonce nonce settings.signature_max_age times.evicted_at
          times.registered_at state.nonces in
      let registered = record state { nonces = nonces } in
      if not fresh
      then reject 401 "nonce_replay" (some client_id) registered
      else if not (sig == expected_signature request secret timestamp nonce)
      then reject 401 "invalid_signature" (some client_id)
          (record registered { nonces = erase nonce nonces })
      else (
        accepted (record {
          client_id = client_id;
          role = role;
          signature = "***";
          timestamp = timestamp;
          nonce = nonce;
        }),
        record registered {
          events =
              registered.events
              ++ record { event_type = "authentication_success"; actor_client_id = some client_id }
                ∷ [];
        },
      )

  -- With the headers' texts.
  unfoldable pub verify_headers :
      HmacSettings
      → Times
      → Request
      → Bool
      → String
      → String
      → String
      → String
      → AuthState
      → Verdict × AuthState
  verify_headers settings times request require_full_access sig timestamp client_id nonce state =
      elim (int_of_text timestamp) [
        | none ↦ reject 401 "invalid_timestamp" (some client_id) state
        | some req_time ↦
            if ltb settings.signature_max_age (distance (times.checked_at / second) req_time)
            then reject 401 "expired_timestamp" (some client_id) state
            else elim (key_of settings client_id) [
              | none ↦ reject 401 "invalid_client" (some client_id) state
              | some (secret, role) ↦
                  if require_full_access && is_read_only role
                  then reject 403 "insufficient_permissions" (some client_id) state
                  else verify_signature settings times request sig timestamp client_id nonce secret
                      role state
            ]
      ]

  abbrev pub all_headers :
      HmacSettings
      → Times
      → Request
      → Bool
      → Option String
      → Option String
      → Option String
      → Option String
      → AuthState
      → Verdict × AuthState
  all_headers settings times request need (some sig) (some timestamp) (some client_id) (some nonce)
        state =
      verify_headers settings times request need sig timestamp client_id nonce state
  all_headers settings times request need _ _ _ _ state =
      reject 401 "missing_headers" request.client_id_header state

  -- `_verify_hmac`
  unfoldable pub verify_hmac :
      HmacSettings → Times → Request → Bool → AuthState → Verdict × AuthState
  verify_hmac settings times request require_full_access state =
      if not settings.enabled
      then (
        accepted (record {
          client_id = "coordinator";
          role = full;
          signature = "hmac-disabled";
          timestamp = "0";
          nonce = "hmac-disabled";
        }),
        state,
      )
      else all_headers settings times request require_full_access (given request.signature_header)
          (given request.timestamp_header) (given request.client_id_header)
          (given request.nonce_header) state
