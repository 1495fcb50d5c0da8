-- ===== src/Hmac/Acceptance.antt =====
-- The marks of a request that src/app/security/hmac.py lets in.
use salesforce_master_servic.Base.{
  ℕ, ◌/◌, ◌≤◌, ◌≡◌, refl, sym, ap, subst, inl, inr, Bool, true, false, ◌&&◌, Option, none, some,
  List, arith, ltb, nat_eq, string_eq, ◌==◌, Bool-cases, Option-cases, is_some, lookup, String,
  eq_iff, int_of_text, given, ℤ,
}
use salesforce_master_servic.Hmac.{
  second, evict_expired_nonces, check_and_register_nonce, Role, HmacAuthData, Request, HmacSettings,
  Times, Verdict, AuthState, distance, accepted, rejected, key_of, is_read_only, expected_signature,
  verify_signature, verify_headers, all_headers, verify_hmac,
}
use salesforce_master_servic.Hmac.Nonces.{registered-Survives}

-- What a request that is let in carries on.
abbrev pub admitted : String → Role → String → String → HmacAuthData
admitted client_id role timestamp nonce = record {
  client_id = client_id;
  role = role;
  signature = "***";
  timestamp = timestamp;
  nonce = nonce;
}

accepted-injective : {a b : HmacAuthData} → accepted a ≡ accepted b → a ≡ b
accepted-injective {a} {b} e = ap data_of e
  where
    data_of : Verdict → HmacAuthData
    data_of (accepted d) = d
    data_of (rejected _ _) = a

pub rejected-not-accepted :
    {status : ℕ} {reason : String} {d : HmacAuthData} → ¬ (rejected status reason ≡ accepted d)
rejected-not-accepted e = subst is_rejection e tt
  where
    is_rejection : Verdict → Type 0
    is_rejection (rejected _ _) = Unit
    is_rejection (accepted _) = ⊥

module _ (sha256 : List ℕ → String) (hmac_sha256 : String → String → String) where
  pub record IsAuthentic (settings : HmacSettings) (times : Times) (request : Request) (need : Bool)
      (state : AuthState) (client_id : String) (role : Role) (timestamp nonce : String)
      : Type 0 where
    pub signature : String
    pub secret : String
    pub req_time : ℤ
    pub signature_sent : given request.signature_header ≡ some signature
    pub timestamp_sent : given request.timestamp_header ≡ some timestamp
    pub client_id_sent : given request.client_id_header ≡ some client_id
    pub nonce_sent : given request.nonce_header ≡ some nonce
    pub timestamp_read : int_of_text timestamp ≡ some req_time
    pub is_fresh : distance (times.checked_at / second) req_time ≤ settings.signature_max_age
    pub has_key : key_of sha256 hmac_sha256 settings client_id ≡ some (secret, role)
    pub may_write : (need && is_read_only sha256 hmac_sha256 role) ≡ false
    pub is_signed : signature ≡ expected_signature sha256 hmac_sha256 request secret timestamp nonce
    pub is_unused :
        is_some (lookup nonce (evict_expired_nonces times.evicted_at state.nonces)) ≡ false

  module _ (settings : HmacSettings) (times : Times) (request : Request) (need : Bool)
      (state : AuthState) where
    signature_accepted :
        (sig timestamp client_id nonce secret : String) (role : Role) (auth : HmacAuthData)
        → (verify_signature sha256 hmac_sha256 settings times request sig timestamp client_id nonce
            secret role state).0
          ≡ accepted auth
        → (is_some (lookup nonce (evict_expired_nonces times.evicted_at state.nonces)) ≡ false)
          × (sig ≡ expected_signature sha256 hmac_sha256 request secret timestamp nonce)
          × (auth ≡ admitted client_id role timestamp nonce)
    unfolding verify_signature
    signature_accepted sig timestamp client_id nonce secret role auth h =
        elim (Bool-cases
          (check_and_register_nonce nonce settings.signature_max_age times.evicted_at
            times.registered_at state.nonces).0) [
              | inr e ↦ absurd (rejected-not-accepted (rw e at h))
              | inl e ↦
                  elim (Bool-cases
                    (sig == expected_signature sha256 hmac_sha256 request secret timestamp nonce)) [
                      | inr f ↦ absurd (rejected-not-accepted (rw (e, f) at h))
                      | inl f ↦ (
                        (registered-Survives nonce settings.signature_max_age times.evicted_at
                            times.registered_at state.nonces e).0,
                        (eq_iff _ _).0 f,
                        sym (accepted-injective (rw (e, f) at h)),
                      )
                    ]
            ]

    headers_accepted :
        (sig timestamp client_id nonce : String) (auth : HmacAuthData)
        → given request.signature_header ≡ some sig
        → given request.timestamp_header ≡ some timestamp
        → given request.client_id_header ≡ some client_id
        → given request.nonce_header ≡ some nonce
        → (verify_headers sha256 hmac_sha256 settings times request need sig timestamp client_id
            nonce state).0
          ≡ accepted auth
        → (role : Role) × IsAuthentic settings times request need state client_id role timestamp
            nonce
          × (auth ≡ admitted client_id role timestamp nonce)
    unfolding verify_headers
    headers_accepted sig timestamp client_id nonce auth a b c d h =
        elim (Option-cases (int_of_text timestamp)) [
          | inl e ↦ absurd (rejected-not-accepted (rw (e, verify_headers) at h))
          | inr (t, e) ↦
              elim (Bool-cases
                (ltb settings.signature_max_age (distance (times.checked_at / second) t))) [
                  | inl f ↦ absurd (rejected-not-accepted (rw (e, f, verify_headers) at h))
                  | inr f ↦ elim (Option-cases (key_of sha256 hmac_sha256 settings client_id)) [
                    | inl g ↦ absurd (rejected-not-accepted (rw (e, f, g, verify_headers) at h))
                    | inr ((secret, role), g) ↦
                        elim (Bool-cases (need && is_read_only sha256 hmac_sha256 role)) [
                          | inl k ↦
                              absurd (rejected-not-accepted (rw (e, f, g, k, verify_headers) at h))
                          | inr k ↦
                              let (unused, signed, q) =
                                signature_accepted sig timestamp client_id nonce secret role auth
                                  (rw (e, f, g, k, verify_headers) at h) in
                              (
                                role,
                                record {
                                  signature = sig;
                                  secret = secret;
                                  req_time = t;
                                  signature_sent = a;
                                  timestamp_sent = b;
                                  client_id_sent = c;
                                  nonce_sent = d;
                                  timestamp_read = e;
                                  is_fresh = ground (arith, f);
                                  has_key = g;
                                  may_write = k;
                                  is_signed = signed;
                                  is_unused = unused;
                                },
                                q,
                              )
                        ]
                  ]
                ]
        ]

    headers_given :
        (auth : HmacAuthData) (a b c d : Option String)
        → given request.signature_header ≡ a
        → given request.timestamp_header ≡ b
        → given request.client_id_header ≡ c
        → given request.nonce_header ≡ d
        → (all_headers sha256 hmac_sha256 settings times request need a b c d state).0
          ≡ accepted auth
        → IsAuthentic settings times request need state auth.client_id auth.role auth.timestamp
            auth.nonce
    headers_given auth none b c d _ _ _ _ h = absurd (rejected-not-accepted h)
    headers_given auth (some a) none c d _ _ _ _ h = absurd (rejected-not-accepted h)
    headers_given auth (some a) (some b) none d _ _ _ _ h = absurd (rejected-not-accepted h)
    headers_given auth (some a) (some b) (some c) none _ _ _ _ h = absurd (rejected-not-accepted h)
    headers_given auth (some a) (some b) (some c) (some d) p q r s h =
        let (role, authentic, e) = headers_accepted a b c d auth p q r s h in
        subst
          (λ (x : HmacAuthData).
            IsAuthentic settings times request need state x.client_id x.role x.timestamp x.nonce)
          (sym e) authentic

    -- When signing is on and a request is accepted, all four headers were sent, the timestamp is a
    -- number that differs from the clock by no more than the allowed age, the client is a known one
    -- whose role covers what is asked for, the signature is the one that its secret gives for this very method, path,
    -- body, timestamp and nonce, and the nonce was not among those of the store that had not expired.
    pub accepted-IsAuthentic :
        (auth : HmacAuthData)
        → settings.enabled ≡ true
        → (verify_hmac sha256 hmac_sha256 settings times request need state).0 ≡ accepted auth
        → IsAuthentic settings times request need state auth.client_id auth.role auth.timestamp
            auth.nonce
    unfolding verify_hmac verify_headers verify_signature
    accepted-IsAuthentic auth on h =
        headers_given auth _ _ _ _ refl refl refl refl (rw (on, verify_hmac) at h)

    authentic_headers :
        (client_id : String) (role : Role) (timestamp nonce : String)
        → (h : IsAuthentic settings times request need state client_id role timestamp nonce)
        → (verify_headers sha256 hmac_sha256 settings times request need h.signature timestamp
            client_id nonce state).0
          ≡ accepted (admitted client_id role timestamp nonce)
    unfolding verify_headers verify_signature check_and_register_nonce
    authentic_headers client_id role timestamp nonce h =
        let fresh : ltb settings.signature_max_age (distance (times.checked_at / second) h.req_time)
            ≡ false =
          ground (arith, h.is_fresh) in
        rw (h.timestamp_read, verify_headers)
          (rw (fresh, h.has_key, h.may_write, h.is_unused, (eq_iff _ _).1 h.is_signed))

    -- When signing is on, a request is accepted, as its client and role, if all four headers were
    -- sent, the timestamp is within the allowed age of the clock, the client is known and its role
    -- covers what is asked for, the signature is the expected one, and the nonce is not in the store.
    pub authentic-accepted :
        (client_id : String) (role : Role) (timestamp nonce : String)
        → settings.enabled ≡ true
        → IsAuthentic settings times request need state client_id role timestamp nonce
        → (verify_hmac sha256 hmac_sha256 settings times request need state).0
          ≡ accepted (admitted client_id role timestamp nonce)
    unfolding verify_hmac verify_headers verify_signature check_and_register_nonce
    authentic-accepted client_id role timestamp nonce on h = simp (
      on,
      h.signature_sent,
      h.timestamp_sent,
      h.client_id_sent,
      h.nonce_sent,
      authentic_headers client_id role timestamp nonce h,
    )
