-- ===== src/Json.antt =====
-- The values that `json` reads and writes, which the program keeps in columns, payloads and records.
-- A float is kept as its text: the program never computes with one.
use salesforce_master_servic.Base.{
  zero, Bool, true, false, not, if◌then◌else◌, nat_eq, string_eq, ◌==◌, String, ℤ, pos,
}

mutual
  pub data Json : Type 0 where
    null : Json
    bool : Bool → Json
    int : ℤ → Json
    float : String → Json
    str : String → Json
    arr : Items → Json
    obj : Fields → Json

  pub data Items : Type 0 where
    nil : Items
    cons : Json → Items → Items

  pub data Fields : Type 0 where
    end : Fields
    field : String → Json → Fields → Fields

-- `bool(value)`. A float is true unless it is written as zero, which the service never sends.
unfoldable pub truthy : Json → Bool
truthy null = false
truthy (bool b) = b
truthy (int (pos zero)) = false
truthy (int _) = true
truthy (float s) = true
truthy (str s) = not (s == "")
truthy (arr nil) = false
truthy (arr (cons _ _)) = true
truthy (obj end) = false
truthy (obj (field _ _ _)) = true

-- `a or b`
infixr 30 ◌or_else◌
abbrev pub ◌or_else◌ : Json → Json → Json
a or_else b = if truthy a then a else b

-- `fields.get(key)`
unfoldable pub get_field : String → Fields → Json
get_field key end = null
get_field key (field k v fs) = let rest = get_field key fs in if k == key then v else rest

-- `fields.get(key, default)`, which is null for a null that is there.
unfoldable pub get_field_or : Json → String → Fields → Json
get_field_or default key end = default
get_field_or default key (field k v fs) =
    let rest = get_field_or default key fs in if k == key then v else rest
