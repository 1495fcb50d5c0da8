-- ===== src/Tests/Configs.antt =====
-- The validators of the settings, at concrete inputs.
use salesforce_master_servic.Base.{
  ℕ, ◌≡◌, refl, ◌↔◌, Bool, true, false, not, ◌&&◌, none, some, List, [], ◌∷◌, if◌then◌else◌,
  is_some, insert, update, String, lower, strip, int_of_text, given,
}
use salesforce_master_servic.Json.{str}
use salesforce_master_servic.Hmac.{HmacAuthData, Request, Times, AuthState, accepted, verify_hmac}
use salesforce_master_servic.Config.{
  split_commas, Settings, is_production, environment, is_placeholder, app_guardrails,
  salesforce_secrets, hmac_validators, settings_validators, validate, split_objects, split_delays,
}
use salesforce_master_servic.Config.Guardrails.{unsigned, validate_lem}

abbrev live : Settings
live = record {
  app_env = "prod";
  debug = false;
  sf_client_id = "id";
  sf_client_secret = "secret";
  sf_jwt_private_key_path = none;
  hmac = record {
    enabled = true;
    secret_key_core = "core";
    secret_key_engineer = "engineer";
    signature_max_age = 300;
  };
}

live_accepted : validate settings_validators (some "prod") live ≡ none
unfolding validate settings_validators update insert app_guardrails salesforce_secrets is_production
    lower
live_accepted = refl

validate_lem_example :
    ((validate settings_validators (some "prod") live ≡ none) ↔ (
      ((is_production "prod" && false) ≡ false)
      × (is_production (environment (some "prod")) ≡ true
          → (is_placeholder "id" ≡ false)
            × ((is_placeholder "secret" && not (is_some (given none))) ≡ false))))
    × (validate settings_validators (some "prod") (unsigned live)
        ≡ validate settings_validators (some "prod") live)
    × (validate hmac_validators (some "prod") (unsigned live) ≡ (
        if is_production (environment (some "prod"))
        then some "HMAC_ENABLED must be True in staging/production"
        else none))
    × ((sha256 : List ℕ → String) (hmac_sha256 : String → String → String) (times : Times)
          (request : Request) (need : Bool) (state : AuthState)
        → (auth : HmacAuthData) × ((verify_hmac sha256 hmac_sha256
              (unsigned live).hmac
              times
              request
              need
              state).0
            ≡ accepted auth)
          × (auth.client_id ≡ "coordinator"))
validate_lem_example = validate_lem (some "prod") live

objects : split_objects (λ v. "") (str " Account, ,Lead ") ≡ "Account" ∷ "Lead" ∷ []
unfolding split_objects split_commas strip
objects = refl

delays : split_delays (λ v. none) (str "1, 2,x") ≡ none
unfolding split_delays split_commas strip int_of_text
delays = refl
