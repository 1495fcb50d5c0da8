-- ===== src/Hmac/Signing.antt =====
-- The client's half of src/app/security/hmac.py: `build_hmac_headers`, and that what it signs is let
-- in. `uuid4().hex` is an argument.
use salesforce_master_servic.Base.{
  ℕ, ◌/◌, ◌≤◌, ◌≡◌, refl, inl, inr, Bool, true, false, ◌&&◌, Option, none, some, List, [], ◌∷◌,
  arith, if◌then◌else◌, nat_eq, string_eq, ◌==◌, Bool-cases, is_some, or_default, Dict, lookup,
  String, eq_iff, show, given, int_of_text-show, show-nonempty, pos,
}
use salesforce_master_servic.Hmac.{
  second, evict_expired_nonces, Role, Request, HmacSettings, Times, AuthState, distance, accepted,
  build_canonical_string, key_of, is_read_only, verify_hmac,
}
use salesforce_master_servic.Hmac.Acceptance.{admitted, authentic-accepted}

-- `timestamp or int(time.time())`
abbrev pub timestamp_or_now : Option ℕ → ℕ → ℕ
timestamp_or_now none now = now / second
timestamp_or_now (some timestamp) now = if timestamp == 0 then now / second else timestamp

module _ (sha256 : List ℕ → String) (hmac_sha256 : String → String → String) where
  unfoldable pub build_hmac_headers :
      String
      → String
      → List ℕ
      → String
      → String
      → Option ℕ
      → Option String
      → ℕ
      → String
      → Dict String
  build_hmac_headers method path body secret client_id timestamp nonce now fresh_nonce =
      let ts = show (timestamp_or_now timestamp now) in
      let nc = or_default (given nonce) fresh_nonce in
      (
        "X-SF-Signature",
        hmac_sha256 secret (build_canonical_string sha256 hmac_sha256 method path ts nc body),
      )
      ∷ ("X-SF-Timestamp", ts)
      ∷ ("X-SF-Client-ID", client_id)
      ∷ ("X-SF-Nonce", nc)
      ∷ []

  -- The request that is sent with headers.
  abbrev pub request_with : String → String → List ℕ → Dict String → Request
  request_with method path body headers = record {
    method = method;
    path = path;
    body = body;
    signature_header = lookup "X-SF-Signature" headers;
    timestamp_header = lookup "X-SF-Timestamp" headers;
    client_id_header = lookup "X-SF-Client-ID" headers;
    nonce_header = lookup "X-SF-Nonce" headers;
  }

  given_nonempty : (s : String) → (s == "") ≡ false → given (some s) ≡ some s
  given_nonempty s h = rw h

  nonce_nonempty :
      (nonce : Option String) (fresh : String)
      → (fresh == "") ≡ false
      → (or_default (given nonce) fresh == "") ≡ false
  nonce_nonempty none fresh h = h
  nonce_nonempty (some s) fresh h = elim (Bool-cases (s == "")) [ inl e ↦ rw e h | inr e ↦ rw e e ]

  known_nonempty :
      (settings : HmacSettings) (client_id secret : String) (role : Role)
      → key_of sha256 hmac_sha256 settings client_id ≡ some (secret, role)
      → (client_id == "") ≡ false
  known_nonempty settings client_id secret role h = elim (Bool-cases (client_id == "")) [
    | inr e ↦ e
    | inl e ↦
        let empty : client_id ≡ "" = (eq_iff client_id "").0 e in
        absurd (ground (arith, (rw empty at h)))
  ]

  -- A request with the headers that `build_hmac_headers` gives is accepted, as the client they name,
  -- when signing is on, the client is known by the secret that signed and its role covers what is
  -- asked for, the time that was signed is within the allowed age of the server's clock, and the
  -- nonce is not in its store. Signatures and fresh nonces are taken not to be empty.
  pub build_hmac_headers-accepted :
      (settings : HmacSettings) (times : Times) (need : Bool) (state : AuthState)
      (method path : String) (body : List ℕ) (secret client_id : String) (role : Role)
      (timestamp : Option ℕ) (nonce : Option String) (now : ℕ) (fresh_nonce : String)
      → ((key text : String) → (hmac_sha256 key text == "") ≡ false)
      → (fresh_nonce == "") ≡ false
      → settings.enabled ≡ true
      → key_of sha256 hmac_sha256 settings client_id ≡ some (secret, role)
      → (need && is_read_only sha256 hmac_sha256 role) ≡ false
      → distance (times.checked_at / second) (pos (timestamp_or_now timestamp now))
        ≤ settings.signature_max_age
      → is_some (
          lookup
            (or_default (given nonce) fresh_nonce)
            (evict_expired_nonces times.evicted_at state.nonces))
        ≡ false
      → (verify_hmac sha256 hmac_sha256 settings times
          (request_with method path body
            (build_hmac_headers method path body secret client_id timestamp nonce now fresh_nonce))
          need
          state).0
        ≡ accepted (
            admitted client_id role
              (show (timestamp_or_now timestamp now))
              (or_default (given nonce) fresh_nonce))
  unfolding build_hmac_headers lookup
  build_hmac_headers-accepted settings times need state method path body secret client_id role
        timestamp nonce now fresh_nonce signs fresh on known may recent unused =
      let ts = show (timestamp_or_now timestamp now) in
      let nc = or_default (given nonce) fresh_nonce in
      let text = build_canonical_string sha256 hmac_sha256 method path ts nc body in
      let request =
        request_with method path body
          (build_hmac_headers method path body secret client_id timestamp nonce now fresh_nonce) in
      authentic-accepted sha256 hmac_sha256 settings times request need state client_id role ts nc
        on
        (record {
          signature = hmac_sha256 secret text;
          secret = secret;
          req_time = pos (timestamp_or_now timestamp now);
          signature_sent = given_nonempty (hmac_sha256 secret text) (signs secret text);
          timestamp_sent = given_nonempty ts (show-nonempty (timestamp_or_now timestamp now));
          client_id_sent =
              given_nonempty client_id (known_nonempty settings client_id secret role known);
          nonce_sent = given_nonempty nc (nonce_nonempty nonce fresh_nonce fresh);
          timestamp_read = int_of_text-show (timestamp_or_now timestamp now);
          is_fresh = recent;
          has_key = known;
          may_write = may;
          is_signed = refl;
          is_unused = unused;
        })
