-- ===== src/Redact.antt =====
-- What the clients of Salesforce take out of a value before it is logged or put on an exception:
-- `_mask` and `_scrub` of src/app/salesforce/auth_client.py. `json.loads` (`none` is its
-- `ValueError`) and `json.dumps` are parameters.
pub mod Laws
use salesforce_master_servic.Base.{
  ℕ, zero, suc, ◌+◌, Bool, false, not, ◌&&◌, ◌||◌, Option, none, some, List, [], ◌∷◌, if◌then◌else◌,
  ltb, leb, nat_eq, string_eq, ◌∈?◌, String, ◌<>◌, starts_with, lower, take_text, text_length,
  last_text, has_space, contains,
}
use salesforce_master_servic.Json.{
  Json, null, bool, int, float, str, arr, obj, Items, nil, cons, Fields, end, field,
}

abbrev pub secret_keys : List String
secret_keys =
    "password" ∷ "client_secret" ∷ "access_token" ∷ "refresh_token" ∷ "private_key" ∷ "secret"
    ∷ "token" ∷ "security_token" ∷ "signature" ∷ "code" ∷ "jwt" ∷ "assertion" ∷ "client_assertion"
    ∷ []

unfoldable pub is_secret_key : String → Bool
is_secret_key k = lower k ∈? secret_keys

unfoldable pub mask : String → ℕ → ℕ → String
mask s keep_first keep_last =
    if leb (text_length s) (keep_first + keep_last)
    then "***"
    else take_text keep_first s <> "..." <> last_text keep_last s

-- The first test of a text: long, in one piece, and like a token.
unfoldable pub is_like_token : String → Bool
is_like_token s =
    ltb 20 (text_length s)
    && not (has_space s)
    && (starts_with (lower s) "00d" || starts_with (lower s) "bearer " || ltb 60 (text_length s))

abbrev pub secret_markers : List String
secret_markers =
    "access_token=" ∷ "access_token\"" ∷ "password" ∷ "client_secret" ∷ "grant_type" ∷ []

pub any_in : List String → String → Bool
any_in [] s = false
any_in (marker ∷ markers) s = contains marker s || any_in markers s

-- The second test: a marker of a secret stands in it.
unfoldable pub has_marker : String → Bool
unfolding any_in
has_marker s = any_in secret_markers (lower s)

abbrev pub mark : Json
mark = str "***REDACTED***"

-- `_scrub` but for the texts, which `text` scrubs.
module _ (text : String → String) where
  unfoldable mutual
    pub scrub_with : Json → Json
    scrub_with (obj fs) = obj (scrub_fields fs)
    scrub_with (arr xs) = arr (scrub_items xs)
    scrub_with (str s) = str (text s)
    scrub_with null = null
    scrub_with (bool b) = bool b
    scrub_with (int i) = int i
    scrub_with (float s) = float s

    pub scrub_items : Items → Items
    scrub_items nil = nil
    scrub_items (cons x xs) = cons (scrub_with x) (scrub_items xs)

    pub scrub_fields : Fields → Fields
    scrub_fields end = end
    scrub_fields (field k v fs) =
        let inner = scrub_with v in
        field k (if is_secret_key k then mark else inner) (scrub_fields fs)

-- The texts of a value, each counted with its length and one more.
unfoldable mutual
  pub text_size : Json → ℕ
  text_size (obj fs) = fields_size fs
  text_size (arr xs) = items_size xs
  text_size (str s) = suc (text_length s)
  text_size null = 0
  text_size (bool b) = 0
  text_size (int i) = 0
  text_size (float s) = 0

  pub items_size : Items → ℕ
  items_size nil = 0
  items_size (cons x xs) = text_size x + items_size xs

  pub fields_size : Fields → ℕ
  fields_size end = 0
  fields_size (field k v fs) = text_size v + fields_size fs

module _ (loads : String → Option Json) (dumps : Json → String) where
  -- A text that is JSON is scrubbed as JSON.
  abbrev pub scrub_parsed : (Json → Json) → String → Option Json → String
  scrub_parsed inner s none = mask s 0 4
  scrub_parsed inner s (some parsed) = dumps (inner parsed)

  -- `_scrub` of a text, with fuel for the texts inside it.
  unfoldable pub scrub_text : ℕ → String → String
  scrub_text zero s = mask s 0 4
  scrub_text (suc fuel) s =
      let inner = scrub_with (scrub_text fuel) in
      if is_like_token s
      then mask s 4 4
      else if has_marker s
      then scrub_parsed inner s (loads s)
      else s

  -- A text holds no longer text, so this fuel is enough.
  unfoldable pub scrub : Json → Json
  scrub value = scrub_with (scrub_text (text_size value)) value
