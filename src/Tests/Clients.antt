-- ===== src/Tests/Clients.antt =====
-- The Bulk API client and the signing of a request, at concrete inputs.
use Prim.Native.String.{char_at}
use text.Mathlib.TextLemmas.{cons≢nil}
use salesforce_master_servic.Base.{
  ℕ, ◌*◌, ◌/◌, ◌≡◌, refl, ◌≢◌, inl, inr, true, false, Option, none, some, List, [], ◌∷◌, arith,
  if◌then◌else◌, nat_eq, string_eq, ◌==◌, Bool-cases, Dict, lookup, String, ◌<>◌, eq_iff, lower,
  show,
}
use salesforce_master_servic.Errors.{
  Exception, value_error, runtime_error, httpx_timeout, raised, ok, err,
}
use salesforce_master_servic.Hmac.{
  second, evict_expired_nonces, HmacSettings, Times, full, accepted, verify_hmac,
}
use salesforce_master_servic.Hmac.Acceptance.{admitted}
use salesforce_master_servic.Hmac.Signing.{
  build_hmac_headers, request_with, build_hmac_headers-accepted,
}
use salesforce_master_servic.Auth.{Outside}
use salesforce_master_servic.BatchApi.{
  Client, Stream, Network, validate_job_id, is_success, request,
}
use salesforce_master_servic.BatchApi.Downloads.{request_raw, get_job_results_paginated}
use salesforce_master_servic.BatchApi.Failures.{
  IsClassified, request-IsClassified, FailsAs, request_raw-FailsAs,
}
use salesforce_master_servic.BatchApi.Pages.{
  written_null, names_next, Delivers, Yields, get_job_results_paginated-Yields,
}

abbrev pub outside : Outside
outside = record {
  loads = λ s. none;
  dumps = λ v. "{}";
  shown = λ v. "";
  class_name = λ k. "HTTPError";
  b64url = λ s. s;
  load_key = λ s. inl "ValueError";
  read_text = λ p. none;
}

abbrev pub client : Client
client = record {
  access_token = "T";
  instance_url = "https://i";
  api_version = "59.0";
  base = "https://i/services/data/v59.0";
  timeout_seconds = 60;
}

-- A page with a locator in its header.
abbrev page : List (List ℕ) → Option String → Stream
page chunks locator = record {
  status_code = 200;
  chunks = chunks;
  broken = none;
  json = err (raised value_error "");
  read = ok "";
  locator = locator;
  number_of_records = some "2";
  content_type = some "text/csv";
}

abbrev unread : Stream
unread = record (page [] none) { status_code = 503; json = err (raised runtime_error "not read") }

-- Two pages by their URLs, and failures that the client does not read.
abbrev first_page : Stream
first_page = page ((1 ∷ []) ∷ [] ∷ (2 ∷ []) ∷ []) (some "abc")

abbrev second_page : Stream
second_page = page ((3 ∷ []) ∷ []) (some "NULL")

abbrev page_at : String → Stream
page_at url =
    if url == "https://i/services/data/v59.0/jobs/query/1/results"
    then first_page
    else if url == "https://i/services/data/v59.0/jobs/query/1/results?locator=abc"
    then second_page
    else unread

abbrev pub network : Network
network = record {
  request = λ method url body headers. err (raised httpx_timeout "read");
  stream = λ n url headers. ok (page_at url);
}

abbrev pub encode : Dict String → String
encode [] = ""
encode ((k, v) ∷ []) = k <> "=" <> v
encode ((k, v) ∷ p ∷ params) = k <> "=" <> v <> "&" <> encode (p ∷ params)

request-IsClassified_example :
    IsClassified outside
      (err (raised httpx_timeout "read"))
      (request outside network client 5 "GET" "/jobs/query/1" none [])
request-IsClassified_example =
    request-IsClassified outside network client 5 "GET" "/jobs/query/1" none []

request_raw-FailsAs_example :
    (exc : Exception) × (request_raw outside encode network client 2 "/jobs" ≡ err exc)
    × FailsAs outside 503 unread.json unread.read exc
unfolding is_success
request_raw-FailsAs_example =
    request_raw-FailsAs outside encode network client 2 "/jobs" unread refl refl

not_null : lower "abc" ≢ "null"
unfolding lower
not_null e = absurd (ground (arith, eq_iff "abc" "null", e))

written : lower "NULL" ≡ "null"
unfolding lower
written = refl

pub delivered :
    Delivers outside encode network client "1" none 0 none
      (((1 ∷ []) ∷ [] ∷ (2 ∷ []) ∷ []) ∷ ((3 ∷ []) ∷ []) ∷ [])
      (ok tt)
unfolding is_success
delivered =
    Delivers.more first_page "abc" _ (ok tt) refl refl refl
      (names_next (λ e. absurd (ground (arith, eq_iff "abc" "", e))) not_null)
      (Delivers.last second_page refl refl refl (written_null written))

get_job_results_paginated-Yields_example :
    Yields outside encode network client "1" none
      (get_job_results_paginated outside encode network client "1" none 3 none)
      (((1 ∷ []) ∷ [] ∷ (2 ∷ []) ∷ []) ∷ ((3 ∷ []) ∷ []) ∷ [])
      (ok tt)
unfolding validate_job_id
get_job_results_paginated-Yields_example =
    get_job_results_paginated-Yields outside encode network client "1" none refl 3 none
      (((1 ∷ []) ∷ [] ∷ (2 ∷ []) ∷ []) ∷ ((3 ∷ []) ∷ []) ∷ []) (ok tt) delivered (omega arith)

abbrev digest : List ℕ → String
digest body = "digest"

-- A signature that is never empty.
abbrev sealed : String → String → String
sealed secret text = String.◌∷◌ (char_at "=" 0) (secret <> text)

sealed_nonempty : (key text : String) → (sealed key text == "") ≡ false
sealed_nonempty key text = elim (Bool-cases (sealed key text == "")) [
  | inl q ↦ absurd (cons≢nil ((eq_iff (sealed key text) "").0 q))
  | inr q ↦ q
]

abbrev settings : HmacSettings
settings = record {
  enabled = true;
  secret_key_core = "core";
  secret_key_engineer = "engineer";
  signature_max_age = 300;
}

abbrev times : Times
times = record {
  checked_at = 1010 * second;
  evicted_at = 1010 * second;
  registered_at = 1010 * second;
}

build_hmac_headers-accepted_example :
    (verify_hmac digest sealed settings times
      (request_with digest sealed "post" "/scan/start" [] (
        build_hmac_headers digest sealed "post" "/scan/start" [] "core" "coordinator" none none
          (1000 * second)
          "n-1"))
      true
      (record { nonces = []; events = [] })).0
    ≡ accepted (admitted "coordinator" full (show (1000 * second / second)) "n-1")
unfolding lookup evict_expired_nonces
build_hmac_headers-accepted_example =
    build_hmac_headers-accepted digest sealed settings times true
      (record { nonces = []; events = [] }) "post" "/scan/start" [] "core" "coordinator" full none
      none (1000 * second) "n-1" sealed_nonempty refl refl refl refl (omega arith) refl
