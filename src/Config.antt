-- ===== src/Config.antt =====
-- The settings of src/app/core/config.py that its validators read, and the validators. A value is a
-- text, a list or anything else, as the environment or a caller gives it; the text of a value is a
-- parameter. The environment variable APP_ENV is an argument.
pub mod Guardrails
use Prim.Native.Char.{Char, code}
use salesforce_master_servic.Base.{
  Bool, not, ◌&&◌, Option, none, some, List, [], ◌∷◌, if◌then◌else◌, nat_eq, string_eq, ◌==◌, ◌∈?◌,
  is_some, or_default, Dict, update, String, starts_with, lower, strip, int_of_text, given, ℤ, pos,
}
use salesforce_master_servic.Json.{Json, str, arr, Items, nil, cons}
use salesforce_master_servic.Hmac.{HmacSettings}

abbrev pub default_objects : List String
default_objects =
    "Account" ∷ "Contact" ∷ "Opportunity" ∷ "OpportunityLineItem" ∷ "OpportunityContactRole"
    ∷ "Lead" ∷ "Case" ∷ "CaseComment" ∷ "Task" ∷ "Event" ∷ "Campaign" ∷ "CampaignMember" ∷ "User"
    ∷ []

abbrev pub default_delays : List ℤ
default_delays = pos 1 ∷ pos 2 ∷ pos 4 ∷ []

-- The parts in front of a character's part, with one more character.
abbrev prepend : Char → List String → List String
prepend c [] = (String.◌∷◌ c String.[]) ∷ []
prepend c (part ∷ parts) = (String.◌∷◌ c part) ∷ parts

-- `s.split(",")`
unfoldable pub split_commas : String → List String
split_commas String.[] = String.[] ∷ []
split_commas (String.◌∷◌ c s) =
    let rest = split_commas s in if code c == b',' then String.[] ∷ rest else prepend c rest

-- The parts of a text without the spaces around them, but for those where nothing is left.
abbrev pub stripped_parts : List String → List String
stripped_parts [] = []
stripped_parts (part ∷ parts) =
    let rest = stripped_parts parts in if strip part == "" then rest else strip part ∷ rest

module _ (text_of : Json → String) where
  texts : Items → List String
  texts nil = []
  texts (cons x xs) = text_of x ∷ texts xs

  -- `_split_objects`
  unfoldable pub split_objects : Json → List String
  unfolding texts
  split_objects (str s) = if strip s == "" then default_objects else stripped_parts (split_commas s)
  split_objects (arr xs) = stripped_parts (texts xs)
  split_objects _ = default_objects

-- `[int(x) for x in xs]`; `none` is a `ValueError`.
abbrev pub ints_of : List String → Option (List ℤ)
ints_of [] = some []
ints_of (x ∷ xs) = both (int_of_text x) (ints_of xs)
  where
    both : Option ℤ → Option (List ℤ) → Option (List ℤ)
    both (some i) (some is) = some (i ∷ is)
    both _ _ = none

module _ (int_of : Json → Option ℤ) where
  ints_of_items : Items → Option (List ℤ)
  ints_of_items nil = some []
  ints_of_items (cons x xs) = both (int_of x) (ints_of_items xs)
    where
      both : Option ℤ → Option (List ℤ) → Option (List ℤ)
      both (some i) (some is) = some (i ∷ is)
      both _ _ = none

  -- `_split_delays`; `int_of` is `int` of an item of a list.
  unfoldable pub split_delays : Json → Option (List ℤ)
  unfolding ints_of_items
  split_delays (str s) =
      if strip s == "" then some default_delays else ints_of (stripped_parts (split_commas s))
  split_delays (arr xs) = ints_of_items xs
  split_delays _ = some default_delays

-- The settings that the validators read.
pub record Settings : Type 0 where
  pub app_env : String
  pub debug : Bool
  pub sf_client_id : String
  pub sf_client_secret : String
  pub sf_jwt_private_key_path : Option String
  pub hmac : HmacSettings

abbrev pub production_environments : List String
production_environments = "prod" ∷ "production" ∷ "stage" ∷ "staging" ∷ []

unfoldable pub is_production : String → Bool
is_production env = lower env ∈? production_environments

-- `os.getenv("APP_ENV", "dev")`
abbrev pub environment : Option String → String
environment app_env = or_default app_env "dev"

abbrev pub is_placeholder : String → Bool
is_placeholder s = starts_with s "REPLACE_ME"

-- A validator of a model: the message of the `ValueError` that it raises, if it does.
abbrev pub Validator : Type 0
Validator = Option String → Settings → Option String

-- `AppSettings._validate_production_guardrails`
unfoldable pub app_guardrails : Validator
app_guardrails app_env settings =
    if is_production settings.app_env && settings.debug
    then some "DEBUG must be False in staging/production environments"
    else none

-- `SalesforceSettings._validate_production_secrets`
unfoldable pub salesforce_secrets : Validator
salesforce_secrets app_env settings =
    if not (is_production (environment app_env))
    then none
    else if is_placeholder settings.sf_client_id
    then some "SF_CLIENT_ID must be set in staging/production"
    else if is_placeholder settings.sf_client_secret
        && not (is_some (given settings.sf_jwt_private_key_path))
    then some "SF_CLIENT_SECRET or SF_JWT_PRIVATE_KEY_PATH must be set in staging/production"
    else none

-- `HMACSettings._validate_production_guardrails`
unfoldable pub hmac_guardrails : Validator
hmac_guardrails app_env settings =
    if not (is_production (environment app_env))
    then none
    else if not settings.hmac.enabled
    then some "HMAC_ENABLED must be True in staging/production"
    else if is_placeholder settings.hmac.secret_key_core
    then some "HMAC_SECRET_KEY_CORE must be set in staging/production"
    else if is_placeholder settings.hmac.secret_key_engineer
    then some "HMAC_SECRET_KEY_ENGINEER must be set in staging/production"
    else none

-- The model validators that each class declares, by the name of the method.
abbrev pub app_validators : Dict Validator
app_validators = ("_validate_production_guardrails", app_guardrails) ∷ []

abbrev pub salesforce_validators : Dict Validator
salesforce_validators = ("_validate_production_secrets", salesforce_secrets) ∷ []

abbrev pub hmac_validators : Dict Validator
hmac_validators = ("_validate_production_guardrails", hmac_guardrails) ∷ []

-- The validators of a class with these bases, the first in the method resolution order first. As
-- Python finds a method, a name stands for that of the first base that has it.
abbrev pub inherited : List (Dict Validator) → Dict Validator
inherited [] = []
inherited (base ∷ bases) = update (inherited bases) base

-- The bases of `Settings`, those without a model validator left out.
unfoldable pub settings_validators : Dict Validator
settings_validators = inherited (app_validators ∷ salesforce_validators ∷ hmac_validators ∷ [])

-- The first error of the validators; `none` is a model that is accepted.
unfoldable pub validate : Dict Validator → Option String → Settings → Option String
validate [] app_env settings = none
validate ((_, validator) ∷ validators) app_env settings = elim (validator app_env settings) [
  | some message ↦ some message
  | none ↦ validate validators app_env settings
]
