-- ===== src/Hmac/Interleaving.antt =====
-- What a process of src/app/security/hmac.py does with a nonce that is registered, whatever other
-- requests do in between.
use salesforce_master_servic.Base.{
  ℕ, zero, suc, ◌+◌, ◌*◌, ◌/◌, ◌≤◌, ◌<◌, ◌≡◌, refl, sym, subst, ◌≢◌, ◌⊎◌, inl, inr, true, false,
  ◌&&◌, Option, none, some, List, [], ◌∷◌, arith, ltb, nat_eq, string_eq, ◌==◌, Bool-cases,
  Option-cases, length, All, String, eq_iff, int_of_text,
}
use salesforce_master_servic.Hmac.{
  NonceStore, nonce_max_size, second, evict_expired_nonces, check_and_register_nonce, HmacAuthData,
  AuthState, distance, accepted, key_of, is_read_only,
}
use salesforce_master_servic.Hmac.Halves.{
  Arrival, Waiting, Begun, Process, Event, beside, take_at, done, waits, arrives, body_read, refuse,
  begin_signature, begin_headers, begin_given, begin_hmac, is_signed, finish_hmac, queue,
  after_body, happen, happen_all,
}
use salesforce_master_servic.Hmac.Nonces.{
  Survives, registered-Survives, evict-Survives, erase-Survives, weaken, known-refused,
  check-Survives,
}

-- The eviction of a request that arrives has read no later time than this.
abbrev pub IsTimely : ℕ → Event → Type 0
IsTimely expiry (arrives a) = a.times.evicted_at ≤ expiry
IsTimely expiry (body_read n) = Unit

module _ (sha256 : List ℕ → String) (hmac_sha256 : String → String → String) where
  -- The end of this request does not remove the nonce: it has another one, or its signature is right.
  abbrev pub IsHarmless : String → Waiting → Type 0
  IsHarmless nonce p = ((p.nonce == nonce) ≡ false) ⊎ (is_signed sha256 hmac_sha256 p ≡ true)

  -- What a first half comes to: a refusal, the check of the nonce, or all is open.
  module _ (a : Arrival) (state : AuthState) (P : Begun × AuthState → Type 0)
      (refused : (status : ℕ) (reason : String) (client_id : Option String)
        → P (refuse sha256 hmac_sha256 status reason client_id state))
      (checked : (p : Waiting) → P (begin_signature sha256 hmac_sha256 a p state))
      (let_in : (auth : HmacAuthData) → P (done (accepted auth), state)) where
    headers-any :
        (sig timestamp client_id nonce : String)
        → P (begin_headers sha256 hmac_sha256 a sig timestamp client_id nonce state)
    unfolding begin_headers
    headers-any sig timestamp client_id nonce = elim (Option-cases (int_of_text timestamp)) [
      | inl e ↦ rw (e, begin_headers) (refused _ _ _)
      | inr (t, e) ↦
          elim (Bool-cases
            (ltb a.settings.signature_max_age (distance (a.times.checked_at / second) t))) [
              | inl f ↦ rw (e, begin_headers, f) (refused _ _ _)
              | inr f ↦ elim (Option-cases (key_of sha256 hmac_sha256 a.settings client_id)) [
                | inl g ↦ rw (e, begin_headers, f, g) (refused _ _ _)
                | inr ((secret, role), g) ↦
                    elim (Bool-cases (a.need && is_read_only sha256 hmac_sha256 role)) [
                      | inl k ↦ rw (e, begin_headers, f, g, k) (refused _ _ _)
                      | inr k ↦ rw (e, begin_headers, f, g, k) (checked _)
                    ]
              ]
            ]
    ]

    given-any : (b c d e : Option String) → P (begin_given sha256 hmac_sha256 a b c d e state)
    given-any (some b) (some c) (some d) (some e) = headers-any b c d e
    given-any none _ _ _ = refused _ _ _
    given-any (some b) none _ _ = refused _ _ _
    given-any (some b) (some c) none _ = refused _ _ _
    given-any (some b) (some c) (some d) none = refused _ _ _

    begin-any : P (begin_hmac sha256 hmac_sha256 a state)
    unfolding begin_hmac
    begin-any = elim (Bool-cases a.settings.enabled) [
      | inl e ↦ simp e (given-any _ _ _ _)
      | inr e ↦ simp e (let_in _)
    ]

  -- A request that waits has registered its nonce.
  abbrev Registers : Arrival → AuthState → Begun × AuthState → Type 0
  Registers a state (done verdict, after) = Unit
  Registers a state (waits p, after) =
      let check =
        check_and_register_nonce p.nonce a.settings.signature_max_age a.times.evicted_at
          a.times.registered_at state.nonces in
      (check.0 ≡ true) × (after.nonces ≡ check.1)

  begin-Registers :
      (a : Arrival) (state : AuthState) → Registers a state (begin_hmac sha256 hmac_sha256 a state)
  unfolding begin_signature
  begin-Registers a state =
      begin-any a state (Registers a state) (λ status reason client_id. tt)
        (λ p.
          elim (Bool-cases
            (check_and_register_nonce p.nonce a.settings.signature_max_age a.times.evicted_at
              a.times.registered_at state.nonces).0) [ inl f ↦ rw f (f, refl) | inr f ↦ rw f tt ])
        (λ auth. tt)

  module _ (nonce : String) (expiry : ℕ) where
    -- Another nonce than this one is registered, if any.
    abbrev IsOther : Begun → Type 0
    IsOther (done verdict) = Unit
    IsOther (waits p) = (p.nonce == nonce) ≡ false

    module _ (a : Arrival) (state : AuthState) (younger : ℕ) (small : younger + 1 < nonce_max_size)
        (alive : a.times.evicted_at ≤ expiry) (s : Survives nonce expiry younger state.nonces) where
      abbrev Kept : Begun × AuthState → Type 0
      Kept b = Survives nonce expiry (younger + 1) b.1.nonces × IsOther b.0

      signature-Kept : (p : Waiting) → Kept (begin_signature sha256 hmac_sha256 a p state)
      unfolding begin_signature
      signature-Kept p = elim (Bool-cases (p.nonce == nonce)) [
        | inl e ↦
            let known : check_and_register_nonce p.nonce a.settings.signature_max_age
                  a.times.evicted_at a.times.registered_at state.nonces
                ≡ (false, evict_expired_nonces a.times.evicted_at state.nonces) =
              subst
                (λ (x : String).
                  check_and_register_nonce x a.settings.signature_max_age a.times.evicted_at
                    a.times.registered_at state.nonces
                  ≡ (false, evict_expired_nonces a.times.evicted_at state.nonces))
                (sym ((eq_iff p.nonce nonce).0 e))
                (known-refused nonce expiry a.settings.signature_max_age a.times.evicted_at
                  a.times.registered_at younger state.nonces alive s) in
            rw known (
              weaken nonce expiry younger _
                  (evict-Survives nonce expiry a.times.evicted_at younger state.nonces alive s),
              tt,
            )
        | inr e ↦
            let after =
              check-Survives nonce expiry p.nonce a.settings.signature_max_age a.times.evicted_at
                a.times.registered_at younger state.nonces alive small e s in
            elim (Bool-cases
              (check_and_register_nonce p.nonce a.settings.signature_max_age a.times.evicted_at
                a.times.registered_at state.nonces).0) [
                  | inl f ↦ rw f (after, e)
                  | inr f ↦ rw f (after, tt)
                ]
      ]

      begin-Kept : Kept (begin_hmac sha256 hmac_sha256 a state)
      begin-Kept =
          let same = weaken nonce expiry younger state.nonces s in
          begin-any a state Kept (λ status reason client_id. (same, tt)) signature-Kept
            (λ auth. (same, tt))

    finish-Survives :
        (p : Waiting) (state : AuthState) (younger : ℕ)
        → IsHarmless nonce p
        → Survives nonce expiry younger state.nonces
        → Survives nonce expiry younger (finish_hmac sha256 hmac_sha256 p state).1.nonces
    unfolding finish_hmac
    finish-Survives p state younger harmless s =
        elim (Bool-cases (is_signed sha256 hmac_sha256 p)) [
          | inl g ↦ rw g s
          | inr g ↦ elim harmless [
            | inl e ↦ rw g (erase-Survives nonce expiry p.nonce younger state.nonces e s)
            | inr signed ↦ absurd (ground (arith, g, signed))
          ]
        ]

    abbrev Others : Option (Waiting × List Waiting) → Type 0
    Others none = Unit
    Others (some (p, rest)) = IsHarmless nonce p × All (IsHarmless nonce) rest

    beside-Others :
        (p : Waiting) (found : Option (Waiting × List Waiting))
        → IsHarmless nonce p
        → Others found
        → Others (beside p found)
    beside-Others p none h others = tt
    beside-Others p (some (q, rest)) h others = (others.0, (h, others.1))

    take_at-Others : (n : ℕ) (ps : List Waiting) → All (IsHarmless nonce) ps → Others (take_at n ps)
    unfolding take_at
    take_at-Others n [] h = tt
    take_at-Others zero (p ∷ ps) h = h
    take_at-Others (suc n) (p ∷ ps) h = beside-Others p (take_at n ps) h.0 (take_at-Others n ps h.1)

    -- The nonce is in the store, and no end of a request that waits will remove it.
    abbrev IsSafe : ℕ → Process → Type 0
    IsSafe younger process =
        Survives nonce expiry younger process.auth.nonces × All (IsHarmless nonce) process.waiting

    queue-All :
        (b : Begun) (ps : List Waiting)
        → IsOther b
        → All (IsHarmless nonce) ps
        → All (IsHarmless nonce) (queue sha256 hmac_sha256 b ps)
    queue-All (done verdict) ps other h = h
    queue-All (waits p) ps other h = (inl other, h)

    after_body-IsSafe :
        (process : Process) (younger : ℕ) (found : Option (Waiting × List Waiting))
        → IsSafe younger process
        → Others found
        → IsSafe (younger + 1) (after_body sha256 hmac_sha256 process found)
    after_body-IsSafe process younger none safe others =
        (weaken nonce expiry younger process.auth.nonces safe.0, safe.1)
    after_body-IsSafe process younger (some (p, rest)) safe others = (
      weaken nonce expiry younger _ (finish-Survives p process.auth younger others.0 safe.0),
      others.1,
    )

    happen-IsSafe :
        (event : Event) (process : Process) (younger : ℕ)
        → younger + 1 < nonce_max_size
        → IsTimely expiry event
        → IsSafe younger process
        → IsSafe (younger + 1) (happen sha256 hmac_sha256 event process)
    unfolding happen
    happen-IsSafe (arrives a) process younger small alive safe =
        let kept = begin-Kept a process.auth younger small alive safe.0 in
        (
          kept.0,
          queue-All (begin_hmac sha256 hmac_sha256 a process.auth).0 process.waiting kept.1 safe.1,
        )
    happen-IsSafe (body_read n) process younger small alive safe =
        after_body-IsSafe process younger (take_at n process.waiting) safe
          (take_at-Others n process.waiting safe.1)

    happen_all-IsSafe :
        (events : List Event) (process : Process) (younger : ℕ)
        → younger + length events < nonce_max_size
        → All (IsTimely expiry) events
        → IsSafe younger process
        → IsSafe (younger + length events) (happen_all sha256 hmac_sha256 events process)
    unfolding happen_all
    happen_all-IsSafe [] process younger small alive safe =
        subst (λ (n : ℕ). IsSafe n process) (omega arith) safe
    happen_all-IsSafe (event ∷ rest) process younger small alive safe =
        subst
          (λ (n : ℕ).
            IsSafe n (happen_all sha256 hmac_sha256 rest (happen sha256 hmac_sha256 event process)))
          (omega arith)
          (happen_all-IsSafe rest (happen sha256 hmac_sha256 event process) (younger + 1)
            (omega (arith, small)) alive.1
            (happen-IsSafe event process younger (omega (arith, small)) alive.0 safe))

  -- In one process, whatever the order of the halves of its requests: when a request that is signed
  -- rightly has registered its nonce, and then up to 9,998 further events happened, any requests
  -- arriving and any bodies being read, its own as well, no request with that nonce gets as far as its
  -- signature, and so is not accepted, provided that no clock that was read at an eviction since has
  -- passed the nonce's expiry: the time of its registration, the allowed age and 60 seconds. No request
  -- with that nonce and a wrong signature may have been waiting for its body when it was registered:
  -- its end would remove the nonce.
  pub replay_refused :
      (first again : Arrival) (p q : Waiting) (events : List Event) (process : Process)
      → let expiry = first.times.registered_at + (first.settings.signature_max_age + 60) * second in
        (begin_hmac sha256 hmac_sha256 first process.auth).0 ≡ waits p
        → is_signed sha256 hmac_sha256 p ≡ true
        → All (IsHarmless p.nonce) process.waiting
        → length events + 1 < nonce_max_size
        → All (IsTimely expiry) events
        → again.times.evicted_at ≤ expiry
        → (begin_hmac sha256 hmac_sha256 again
            (happen_all sha256 hmac_sha256 events
              (happen sha256 hmac_sha256 (arrives first) process)).auth).0
          ≡ waits q
        → q.nonce ≢ p.nonce
  unfolding happen
  replay_refused first again p q events process registered signed harmless few timely in_time later
        same =
      let expiry = first.times.registered_at + (first.settings.signature_max_age + 60) * second in
      let begun = begin_hmac sha256 hmac_sha256 first process.auth in
      let check =
        check_and_register_nonce p.nonce first.settings.signature_max_age first.times.evicted_at
          first.times.registered_at process.auth.nonces in
      let reg : (check.0 ≡ true) × (begun.1.nonces ≡ check.1) =
        subst (λ (b : Begun). Registers first process.auth (b, begun.1)) registered
          (begin-Registers first process.auth) in
      let kept : Survives p.nonce expiry 0 begun.1.nonces =
        subst (λ (d : NonceStore). Survives p.nonce expiry 0 d) (sym reg.1)
          (registered-Survives p.nonce first.settings.signature_max_age first.times.evicted_at
            first.times.registered_at process.auth.nonces reg.0).1 in
      let queued : All (IsHarmless p.nonce) (queue sha256 hmac_sha256 begun.0 process.waiting) =
        rw registered (inr signed, harmless) in
      let late =
        happen_all-IsSafe p.nonce expiry events (happen sha256 hmac_sha256 (arrives first) process)
          0 (omega (arith, few)) timely (kept, queued) in
      let other =
        (begin-Kept p.nonce expiry again _ (0 + length events) (omega (arith, few)) in_time
          late.0).1 in
      let fresh : (q.nonce == p.nonce) ≡ false =
        subst (λ (b : Begun). IsOther p.nonce expiry b) later other in
      absurd (ground (arith, fresh, (eq_iff q.nonce p.nonce).1 same))
