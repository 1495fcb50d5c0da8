-- ===== src/Config/Guardrails.antt =====
-- What the validators of src/app/core/config.py guard in production.
use salesforce_master_servic.Hmac.{HmacAuthData, Request, Times, AuthState, accepted, verify_hmac}
use salesforce_master_servic.Base.{
  ℕ, ◌≡◌, refl, ◌↔◌, inl, inr, Bool, true, false, not, ◌&&◌, Option, none, some, List, arith,
  if◌then◌else◌, Bool-cases, is_some, insert, update, String, given,
}
use salesforce_master_servic.Config.{
  Settings, is_production, environment, is_placeholder, app_guardrails, salesforce_secrets,
  hmac_guardrails, hmac_validators, settings_validators, validate,
}

-- The same settings with the request signing turned off.
abbrev pub unsigned : Settings → Settings
unsigned settings = record settings { hmac = record settings.hmac { enabled = false } }

-- The settings are accepted exactly where DEBUG is off or their own APP_ENV is neither production
-- nor staging, and, where the environment's APP_ENV is one of these, the client id is no placeholder
-- and the client secret is none or there is the path of a key.
validate_iff :
    (app_env : Option String) (settings : Settings)
    → (validate settings_validators app_env settings ≡ none) ↔ (
        ((is_production settings.app_env && settings.debug) ≡ false)
        × (is_production (environment app_env) ≡ true
            → (is_placeholder settings.sf_client_id ≡ false)
              × ((is_placeholder settings.sf_client_secret
                    && not (is_some (given settings.sf_jwt_private_key_path)))
                  ≡ false)))
unfolding validate settings_validators update insert app_guardrails salesforce_secrets
validate_iff app_env settings = ground arith

-- Settings are accepted exactly where DEBUG is off or their own APP_ENV is neither production nor
-- staging, and, where the environment's APP_ENV is one of these, the client id is no placeholder and
-- the client secret is none or there is the path of a key. The request signing is not looked at: with
-- it turned off the settings are accepted or refused as before, in production too, although the
-- validator of the class `HMACSettings` alone refuses them there; and then every request is let in, as
-- the coordinator.
pub validate_lem :
    (app_env : Option String) (settings : Settings)
    → ((validate settings_validators app_env settings ≡ none) ↔ (
        ((is_production settings.app_env && settings.debug) ≡ false)
        × (is_production (environment app_env) ≡ true
            → (is_placeholder settings.sf_client_id ≡ false)
              × ((is_placeholder settings.sf_client_secret
                    && not (is_some (given settings.sf_jwt_private_key_path)))
                  ≡ false))))
      × (validate settings_validators app_env (unsigned settings)
          ≡ validate settings_validators app_env settings)
      × (validate hmac_validators app_env (unsigned settings) ≡ (
          if is_production (environment app_env)
          then some "HMAC_ENABLED must be True in staging/production"
          else none))
      × ((sha256 : List ℕ → String) (hmac_sha256 : String → String → String) (times : Times)
            (request : Request) (need : Bool) (state : AuthState)
          → (auth : HmacAuthData) × ((verify_hmac sha256 hmac_sha256
                (unsigned settings).hmac
                times
                request
                need
                state).0
              ≡ accepted auth)
            × (auth.client_id ≡ "coordinator"))
unfolding validate settings_validators update insert app_guardrails salesforce_secrets
    hmac_guardrails verify_hmac
validate_lem app_env settings = (
  validate_iff app_env settings,
  refl,
  elim (Bool-cases (is_production (environment app_env))) [
    | inl p ↦ ground (arith, p)
    | inr p ↦ ground (arith, p)
  ],
  (λ sha256 hmac_sha256 times request need state. (_, refl, refl)),
)
