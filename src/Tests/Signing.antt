-- ===== src/Tests/Signing.antt =====
-- Signed requests, at concrete inputs, with a digest and a signature that are easy to compute.
use salesforce_master_servic.Base.{
  ℕ, ◌*◌, ◌≡◌, refl, ◌≢◌, true, some, List, [], ◌∷◌, arith, lookup, insert, erase, String, ◌<>◌,
  upper, int_of_text, pos,
}
use salesforce_master_servic.Hmac.{
  second, evict_expired_nonces, check_and_register_nonce, HmacAuthData, Request, HmacSettings,
  Times, AuthState, full, accepted, rejected, build_canonical_string, verify_signature,
  verify_headers, verify_hmac,
}
use salesforce_master_servic.Hmac.Acceptance.{
  admitted, IsAuthentic, accepted-IsAuthentic, authentic-accepted,
}
use salesforce_master_servic.Hmac.Replay.{see, replay_accepted}
use salesforce_master_servic.Hmac.Halves.{
  Arrival, Waiting, Process, Event, take_at, done, arrives, body_read, begin_signature,
  begin_headers, begin_hmac, finish_hmac, happen, happen_all,
}
use salesforce_master_servic.Hmac.Interleaving.{replay_refused}

abbrev digest : List ℕ → String
digest body = "digest"

abbrev sign : String → String → String
sign secret text = secret <> text

abbrev settings : HmacSettings
settings = record {
  enabled = true;
  secret_key_core = "core";
  secret_key_engineer = "engineer";
  signature_max_age = 300;
}

abbrev at : ℕ → Times
at n = record { checked_at = n * second; evicted_at = n * second; registered_at = n * second }

-- Signed for the time 1300, by a clock that is 300 seconds ahead.
abbrev signed : Request
signed = record {
  method = "post";
  path = "/scan/start";
  body = [];
  signature_header = some "corePOST\n/scan/start\n1300\nn-1\ndigest";
  timestamp_header = some "1300";
  client_id_header = some "coordinator";
  nonce_header = some "n-1";
}

abbrev caller : HmacAuthData
caller = admitted "coordinator" full "1300" "n-1"

abbrev arrival : ℕ → Arrival
arrival n = record { settings = settings; times = at n; request = signed; need = true }

abbrev start : AuthState
start = record { nonces = []; events = [] }

start_accepted : (see digest sign (arrival 1000) start).0 ≡ accepted caller
unfolding verify_hmac verify_headers verify_signature check_and_register_nonce
    build_canonical_string evict_expired_nonces lookup insert int_of_text upper
start_accepted = refl

accepted-IsAuthentic_example :
    IsAuthentic digest sign settings (at 1000) signed true start "coordinator" full "1300" "n-1"
accepted-IsAuthentic_example =
    accepted-IsAuthentic digest sign settings (at 1000) signed true start caller refl start_accepted

authentic-accepted_example : (see digest sign (arrival 1000) start).0 ≡ accepted caller
unfolding lookup evict_expired_nonces build_canonical_string int_of_text upper
authentic-accepted_example =
    authentic-accepted digest sign settings (at 1000) signed true start "coordinator" full "1300"
      "n-1" refl
      (record {
        signature = "corePOST\n/scan/start\n1300\nn-1\ndigest";
        secret = "core";
        req_time = pos 1300;
        signature_sent = refl;
        timestamp_sent = refl;
        client_id_sent = refl;
        nonce_sent = refl;
        timestamp_read = refl;
        is_fresh = omega arith;
        has_key = refl;
        may_write = refl;
        is_signed = refl;
        is_unused = refl;
      })

-- The request at the wait for its body, and one like it with a nonce of its own.
abbrev waiting : String → String → Waiting
waiting sig nonce = record {
  request = record signed { signature_header = some sig; nonce_header = some nonce };
  sig = sig;
  timestamp = "1300";
  client_id = "coordinator";
  nonce = nonce;
  secret = "core";
  role = full;
}

abbrev first_one : Waiting
first_one = waiting "corePOST\n/scan/start\n1300\nn-1\ndigest" "n-1"

abbrev forged : Waiting
forged = waiting "no" "n-2"

abbrev forged_arrival : ℕ → Arrival
forged_arrival n = record (arrival n) { request = forged.request }

abbrev process : Process
process = record { auth = start; waiting = [] }

-- A forged copy with a nonce of its own comes before the body, and its body first.
abbrev between : List Event
between = arrives (forged_arrival 1010) ∷ body_read 0 ∷ body_read 0 ∷ []

abbrev late_auth : AuthState
late_auth =
    (happen_all digest sign between (happen digest sign (arrives (arrival 1000)) process)).auth

replay_refused_example : forged.nonce ≢ first_one.nonce
unfolding begin_hmac begin_headers begin_signature happen happen_all finish_hmac take_at
    check_and_register_nonce build_canonical_string evict_expired_nonces lookup insert erase
    int_of_text upper
replay_refused_example =
    replay_refused digest sign (arrival 1000) (forged_arrival 1060) first_one forged between process
      refl refl tt (omega arith) (omega arith, (tt, (tt, tt))) (omega arith) refl

-- The same request again is refused, and in between it was accepted.
again_refused :
    (begin_hmac digest sign (arrival 1060) late_auth).0 ≡ done (rejected 401 "nonce_replay")
unfolding begin_hmac begin_headers begin_signature happen happen_all finish_hmac take_at
    check_and_register_nonce build_canonical_string evict_expired_nonces lookup insert erase
    int_of_text upper
again_refused = refl

-- Sent again 400 seconds later, when it is 100 seconds old.
replay_accepted_example :
    (see digest sign (arrival 1400) (see digest sign (arrival 1000) start).1).0 ≡ accepted caller
unfolding int_of_text
replay_accepted_example =
    replay_accepted digest sign (arrival 1000) (at 1400) start caller (pos 1300) refl refl
      start_accepted refl (omega arith) (omega arith)
