-- ===== src/Hmac/Replay.antt =====
-- What src/app/security/hmac.py does with a request that is sent again after the nonce's expiry.
use salesforce_master_servic.Hmac.Acceptance.{
  admitted, IsAuthentic, accepted-IsAuthentic, authentic-accepted,
}
use salesforce_master_servic.Base.{
  ℕ, ◌+◌, ◌*◌, ◌/◌, ◌≤◌, ◌<◌, ◌≡◌, true, false, some, List, [], ◌∷◌, arith, ltb, lookup, insert,
  String, eq_iff, int_of_text, ℤ,
}
use salesforce_master_servic.Hmac.{
  second, is_unexpired, evict_expired_nonces, check_and_register_nonce, Role, HmacAuthData, Times,
  Verdict, AuthState, distance, accepted, verify_signature, verify_headers, verify_hmac,
}
use salesforce_master_servic.Hmac.Halves.{Arrival}

module _ (sha256 : List ℕ → String) (hmac_sha256 : String → String → String) where
  -- A request of which both halves are handled at once.
  abbrev pub see : Arrival → AuthState → Verdict × AuthState
  see a state = verify_hmac sha256 hmac_sha256 a.settings a.times a.request a.need state

  authentic_registers :
      (a : Arrival) (state : AuthState) (client_id : String) (role : Role)
      (timestamp nonce : String)
      → (h : IsAuthentic sha256 hmac_sha256 a.settings a.times a.request a.need state client_id role
          timestamp nonce)
      → (verify_headers sha256 hmac_sha256 a.settings a.times a.request a.need h.signature timestamp
          client_id nonce state).1.nonces
        ≡ (check_and_register_nonce nonce a.settings.signature_max_age a.times.evicted_at
            a.times.registered_at state.nonces).1
  unfolding verify_headers verify_signature check_and_register_nonce
  authentic_registers a state client_id role timestamp nonce h =
      let fresh : ltb a.settings.signature_max_age
            (distance (a.times.checked_at / second) h.req_time)
          ≡ false =
        ground (arith, h.is_fresh) in
      rw (h.timestamp_read, verify_headers)
        (rw (fresh, h.has_key, h.may_write, h.is_unused, (eq_iff _ _).1 h.is_signed))

  -- With signing on and from an empty store, an accepted request is accepted again, sent unchanged,
  -- when the clock has passed the nonce's expiry but does not differ from the request's timestamp by
  -- more than the allowed age.
  pub replay_accepted :
      (a : Arrival) (later : Times) (state : AuthState) (auth : HmacAuthData) (t : ℤ)
      → a.settings.enabled ≡ true
      → state.nonces ≡ []
      → (see a state).0 ≡ accepted auth
      → int_of_text auth.timestamp ≡ some t
      → a.times.registered_at + (a.settings.signature_max_age + 60) * second < later.evicted_at
      → distance (later.checked_at / second) t ≤ a.settings.signature_max_age
      → (see (record a { times = later }) (see a state).1).0
        ≡ accepted (admitted auth.client_id auth.role auth.timestamp auth.nonce)
  unfolding verify_hmac check_and_register_nonce evict_expired_nonces insert lookup
  replay_accepted a later state auth t on empty h read gone fresh =
      let expiry = a.times.registered_at + (a.settings.signature_max_age + 60) * second in
      let s =
        accepted-IsAuthentic sha256 hmac_sha256 a.settings a.times a.request a.need state auth on
          h in
      let store : (see a state).1.nonces ≡ (auth.nonce, expiry) ∷ [] = simp (
        on,
        s.signature_sent,
        s.timestamp_sent,
        s.client_id_sent,
        s.nonce_sent,
        authentic_registers a state auth.client_id auth.role auth.timestamp auth.nonce s,
        empty,
      ) in
      let dead : is_unexpired later.evicted_at (auth.nonce, expiry) ≡ false =
        ground (arith, gone) in
      authentic-accepted sha256 hmac_sha256 a.settings later a.request a.need (see a state).1
        auth.client_id auth.role auth.timestamp auth.nonce on
        (record {
          signature = s.signature;
          secret = s.secret;
          req_time = t;
          signature_sent = s.signature_sent;
          timestamp_sent = s.timestamp_sent;
          client_id_sent = s.client_id_sent;
          nonce_sent = s.nonce_sent;
          timestamp_read = read;
          is_fresh = fresh;
          has_key = s.has_key;
          may_write = s.may_write;
          is_signed = s.is_signed;
          is_unused = rw (store, dead);
        })
