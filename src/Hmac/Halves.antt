-- ===== src/Hmac/Halves.antt =====
-- The two halves of `_verify_hmac` of src/app/security/hmac.py, before and after it waits for the body
-- of the request, and the requests of one process, whose halves come in any order.
use salesforce_master_servic.Base.{
  ℕ, zero, suc, ◌/◌, ◌≡◌, refl, inl, inr, Bool, not, ◌&&◌, Option, none, some, List, [], ◌∷◌, ◌++◌,
  if◌then◌else◌, ltb, nat_eq, string_eq, ◌==◌, Bool-cases, Option-cases, erase, String, int_of_text,
  given,
}
use salesforce_master_servic.Hmac.{
  second, check_and_register_nonce, Role, Request, HmacSettings, Times, Verdict, AuthState,
  distance, full, accepted, rejected, reject, key_of, is_read_only, expected_signature,
  verify_signature, verify_headers, all_headers, verify_hmac,
}

-- A request with the settings and the clock of the process that sees it.
pub record Arrival : Type 0 where
  pub settings : HmacSettings
  pub times : Times
  pub request : Request
  pub need : Bool

-- A request whose nonce is registered, at `await request.body()`.
pub record Waiting : Type 0 where
  pub request : Request
  pub sig : String
  pub timestamp : String
  pub client_id : String
  pub nonce : String
  pub secret : String
  pub role : Role

-- What the first half comes to.
pub data Begun : Type 0 where
  done : Verdict → Begun
  waits : Waiting → Begun

-- One process: its nonces and audit events, and the requests that wait for their bodies.
pub record Process : Type 0 where
  pub auth : AuthState
  pub waiting : List Waiting

-- What happens in a process: a request arrives, or the body of one that waits has been read.
pub data Event : Type 0 where
  arrives : Arrival → Event
  body_read : ℕ → Event

-- The waiting request at a position, and the others.
abbrev pub beside : Waiting → Option (Waiting × List Waiting) → Option (Waiting × List Waiting)
beside p none = none
beside p (some (q, rest)) = some (q, p ∷ rest)

unfoldable pub take_at : ℕ → List Waiting → Option (Waiting × List Waiting)
take_at n [] = none
take_at zero (p ∷ ps) = some (p, ps)
take_at (suc n) (p ∷ ps) = beside p (take_at n ps)

module _ (sha256 : List ℕ → String) (hmac_sha256 : String → String → String) where
  abbrev pub refuse : ℕ → String → Option String → AuthState → Begun × AuthState
  refuse status reason client_id state =
      (done (rejected status reason), (reject sha256 hmac_sha256 status reason client_id state).1)

  unfoldable pub begin_signature : Arrival → Waiting → AuthState → Begun × AuthState
  begin_signature a p state =
      let (fresh, nonces) =
        check_and_register_nonce p.nonce a.settings.signature_max_age a.times.evicted_at
          a.times.registered_at state.nonces in
      let registered = record state { nonces = nonces } in
      if not fresh
      then refuse 401 "nonce_replay" (some p.client_id) registered
      else (waits p, registered)

  unfoldable pub begin_headers :
      Arrival → String → String → String → String → AuthState → Begun × AuthState
  begin_headers a sig timestamp client_id nonce state = elim (int_of_text timestamp) [
    | none ↦ refuse 401 "invalid_timestamp" (some client_id) state
    | some req_time ↦
        if ltb a.settings.signature_max_age (distance (a.times.checked_at / second) req_time)
        then refuse 401 "expired_timestamp" (some client_id) state
        else elim (key_of sha256 hmac_sha256 a.settings client_id) [
          | none ↦ refuse 401 "invalid_client" (some client_id) state
          | some (secret, role) ↦
              if a.need && is_read_only sha256 hmac_sha256 role
              then refuse 403 "insufficient_permissions" (some client_id) state
              else begin_signature a
                  (record {
                    request = a.request;
                    sig = sig;
                    timestamp = timestamp;
                    client_id = client_id;
                    nonce = nonce;
                    secret = secret;
                    role = role;
                  })
                  state
        ]
  ]

  abbrev pub begin_given :
      Arrival
      → Option String
      → Option String
      → Option String
      → Option String
      → AuthState
      → Begun × AuthState
  begin_given a (some sig) (some timestamp) (some client_id) (some nonce) state =
      begin_headers a sig timestamp client_id nonce state
  begin_given a _ _ _ _ state = refuse 401 "missing_headers" a.request.client_id_header state

  -- Up to `await request.body()`.
  unfoldable pub begin_hmac : Arrival → AuthState → Begun × AuthState
  begin_hmac a state =
      if not a.settings.enabled
      then (
        done (
            accepted (record {
              client_id = "coordinator";
              role = full;
              signature = "hmac-disabled";
              timestamp = "0";
              nonce = "hmac-disabled";
            })),
        state,
      )
      else begin_given a (given a.request.signature_header) (given a.request.timestamp_header)
          (given a.request.client_id_header) (given a.request.nonce_header) state

  -- The signature is that of the request with its body.
  abbrev pub is_signed : Waiting → Bool
  is_signed p =
      p.sig == expected_signature sha256 hmac_sha256 p.request p.secret p.timestamp p.nonce

  -- From the body on.
  unfoldable pub finish_hmac : Waiting → AuthState → Verdict × AuthState
  finish_hmac p state =
      if not (is_signed p)
      then reject sha256 hmac_sha256 401 "invalid_signature" (some p.client_id)
          (record state { nonces = erase p.nonce state.nonces })
      else (
        accepted (record {
          client_id = p.client_id;
          role = p.role;
          signature = "***";
          timestamp = p.timestamp;
          nonce = p.nonce;
        }),
        record state {
          events =
              state.events
              ++ record {
                event_type = "authentication_success";
                actor_client_id = some p.client_id;
              }
                ∷ [];
        },
      )

  abbrev pub complete : Begun × AuthState → Verdict × AuthState
  complete (done verdict, state) = (verdict, state)
  complete (waits p, state) = finish_hmac p state

  abbrev pub queue : Begun → List Waiting → List Waiting
  queue (done verdict) waiting = waiting
  queue (waits p) waiting = p ∷ waiting

  abbrev pub after_body : Process → Option (Waiting × List Waiting) → Process
  after_body process none = process
  after_body process (some (p, rest)) = record {
    auth = (finish_hmac p process.auth).1;
    waiting = rest;
  }

  unfoldable pub happen : Event → Process → Process
  happen (arrives a) process = record {
    auth = (begin_hmac a process.auth).1;
    waiting = queue (begin_hmac a process.auth).0 process.waiting;
  }
  happen (body_read n) process = after_body process (take_at n process.waiting)

  unfoldable pub happen_all : List Event → Process → Process
  happen_all [] process = process
  happen_all (event ∷ rest) process = happen_all rest (happen event process)

  -- The two halves at once are the whole.
  halves_signature :
      (a : Arrival) (p : Waiting) (state : AuthState)
      → verify_signature sha256 hmac_sha256 a.settings a.times p.request p.sig p.timestamp
          p.client_id p.nonce p.secret p.role state
        ≡ complete (begin_signature a p state)
  unfolding verify_signature begin_signature finish_hmac
  halves_signature a p state =
      elim (Bool-cases
        (check_and_register_nonce p.nonce a.settings.signature_max_age a.times.evicted_at
          a.times.registered_at state.nonces).0) [ inl f ↦ rw f refl | inr f ↦ rw f refl ]

  halves_headers :
      (a : Arrival) (sig timestamp client_id nonce : String) (state : AuthState)
      → verify_headers sha256 hmac_sha256 a.settings a.times a.request a.need sig timestamp
          client_id nonce state
        ≡ complete (begin_headers a sig timestamp client_id nonce state)
  unfolding verify_headers begin_headers
  halves_headers a sig timestamp client_id nonce state =
      elim (Option-cases (int_of_text timestamp)) [
        | inl e ↦ rw (e, verify_headers, begin_headers) refl
        | inr (t, e) ↦
            elim (Bool-cases
              (ltb a.settings.signature_max_age (distance (a.times.checked_at / second) t))) [
                | inl f ↦ rw (e, verify_headers, begin_headers, f) refl
                | inr f ↦ elim (Option-cases (key_of sha256 hmac_sha256 a.settings client_id)) [
                  | inl g ↦ rw (e, verify_headers, begin_headers, f, g) refl
                  | inr ((secret, role), g) ↦
                      elim (Bool-cases (a.need && is_read_only sha256 hmac_sha256 role)) [
                        | inl k ↦ rw (e, verify_headers, begin_headers, f, g, k) refl
                        | inr k ↦
                            rw (e, verify_headers, begin_headers, f, g, k)
                              (halves_signature a _ state)
                      ]
                ]
              ]
      ]

  halves_given :
      (a : Arrival) (b c d e : Option String) (state : AuthState)
      → all_headers sha256 hmac_sha256 a.settings a.times a.request a.need b c d e state
        ≡ complete (begin_given a b c d e state)
  halves_given a (some b) (some c) (some d) (some e) state = halves_headers a b c d e state
  halves_given a none _ _ _ state = refl
  halves_given a (some b) none _ _ state = refl
  halves_given a (some b) (some c) none _ state = refl
  halves_given a (some b) (some c) (some d) none state = refl

  pub verify_hmac-halves :
      (a : Arrival) (state : AuthState)
      → verify_hmac sha256 hmac_sha256 a.settings a.times a.request a.need state
        ≡ complete (begin_hmac a state)
  unfolding verify_hmac begin_hmac
  verify_hmac-halves a state = elim (Bool-cases a.settings.enabled) [
    | inl e ↦ simp e (halves_given a _ _ _ _ state)
    | inr e ↦ simp e refl
  ]
