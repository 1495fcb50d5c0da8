-- ===== src/Errors/Laws.antt =====
-- What the retry loop makes of an HTTP failure that src/app/salesforce/exceptions.py classifies.
use salesforce_master_servic.Base.{
  ℕ, ◌≡◌, ◌∙◌, not, ◌&&◌, ◌||◌, [], ◌∷◌, arith, ltb, leb, nat_eq, string_eq, ◌==◌, ◌∈?◌, String,
}
use salesforce_master_servic.Json.{Json}
use salesforce_master_servic.Errors.{classify_http_error, retryable_attribute, salesforce}
use salesforce_master_servic.Retry.{retryable_status_codes, is_retryable}

-- A failed response is tried again exactly when its status is 408, 429 or any of 500 to 599,
-- whatever its payload says.
pub is_retryable-classify :
    (status_code : ℕ) (payload : Json) (message : String)
    → is_retryable (salesforce (classify_http_error status_code payload message))
      ≡ (leb 500 status_code && ltb status_code 600) || status_code ∈? (408 ∷ 429 ∷ [])
unfolding is_retryable classify_http_error
is_retryable-classify status_code payload message = ground arith

-- The attribute that decides on the dead-letter queue agrees, except at status 408: there the loop
-- retries, and the attribute is not set.
pub retryable_attribute-classify :
    (status_code : ℕ) (payload : Json) (message : String)
    → retryable_attribute (salesforce (classify_http_error status_code payload message))
      ≡ is_retryable (salesforce (classify_http_error status_code payload message))
        && not (status_code == 408)
unfolding is_retryable classify_http_error
retryable_attribute-classify status_code payload message = ground arith

-- A failed response is tried again exactly when its status is 408, 429 or any of 500 to 599,
-- whatever its payload says: at the codes that `is_retryable` lists, and also at 501 and at 505 to
-- 599, which it does not list. The attribute that decides on the dead-letter queue agrees, except at
-- status 408: there the loop retries, and the attribute is not set.
pub classify_http_error_lem :
    (status_code : ℕ) (payload : Json) (message : String)
    → let e = salesforce (classify_http_error status_code payload message) in
      (is_retryable e
        ≡ (leb 500 status_code && ltb status_code 600) || status_code ∈? (408 ∷ 429 ∷ []))
      × (is_retryable e
          ≡ status_code ∈? retryable_status_codes
            || status_code == 501
            || (leb 505 status_code && ltb status_code 600))
      × (retryable_attribute e ≡ is_retryable e && not (status_code == 408))
classify_http_error_lem status_code payload message = (
  is_retryable-classify status_code payload message,
  is_retryable-classify status_code payload message ∙ ground arith,
  retryable_attribute-classify status_code payload message,
)
