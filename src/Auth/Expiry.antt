-- ===== src/Auth/Expiry.antt =====
-- How long a token is kept: `_compute_expires_at` of src/app/salesforce/auth_client.py.
use salesforce_master_servic.Base.{ℕ, ◌+◌, ◌*◌, ◌≤◌, inl, inr, arith, Option-cases}
use salesforce_master_servic.Auth.{
  TokenGrant, second, cache_min_lifetime_seconds, digits_of_json, compute_expires_at,
}

-- A token expires two to thirty minutes after it was granted, whatever issue time the server names.
pub compute_expires_at_bounds :
    (granted_at : ℕ) (grant : TokenGrant)
    → (granted_at + cache_min_lifetime_seconds * second ≤ compute_expires_at granted_at grant)
      × (compute_expires_at granted_at grant ≤ granted_at + 1800 * second)
unfolding compute_expires_at
compute_expires_at_bounds granted_at grant = elim (Option-cases (digits_of_json grant.issued_at)) [
  | inl e ↦ rw e (omega arith, omega arith)
  | inr (issued, e) ↦ rw e (omega arith, omega arith)
]
