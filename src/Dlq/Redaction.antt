-- ===== src/Dlq/Redaction.antt =====
-- What is left of a payload after `_deep_scrub` of src/app/resilience/dlq.py.
use salesforce_master_servic.Base.{
  ◌≡◌, refl, ap, subst, ◌↔◌, ◌⊎◌, inl, inr, true, false, arith, nat_eq, string_eq, Bool-cases, ◌∈?◌,
  lower,
}
use salesforce_master_servic.Json.{
  Json, null, bool, int, float, str, arr, obj, Items, nil, cons, Fields, end, field,
}
use salesforce_master_servic.Dlq.{
  sensitive_keys, is_sensitive, redacted, deep_scrub, deep_scrub_items, deep_scrub_fields,
}

-- Whatever stands at a sensitive key, at any depth, is the redaction mark.
unfoldable mutual
  pub IsRedacted : Json → Type 0
  IsRedacted (obj fs) = AllRedacted fs
  IsRedacted (arr xs) = EachRedacted xs
  IsRedacted null = Unit
  IsRedacted (bool b) = Unit
  IsRedacted (int i) = Unit
  IsRedacted (float s) = Unit
  IsRedacted (str s) = Unit

  pub EachRedacted : Items → Type 0
  EachRedacted nil = Unit
  EachRedacted (cons x xs) = IsRedacted x × EachRedacted xs

  pub AllRedacted : Fields → Type 0
  AllRedacted end = Unit
  AllRedacted (field k v fs) =
      (is_sensitive k ≡ true → v ≡ redacted) × IsRedacted v × AllRedacted fs

mutual
  unfolding deep_scrub IsRedacted

  scrubbed : (v : Json) → IsRedacted (deep_scrub v)
  scrubbed (obj fs) = scrubbed_fields fs
  scrubbed (arr xs) = scrubbed_items xs
  scrubbed null = tt
  scrubbed (bool b) = tt
  scrubbed (int i) = tt
  scrubbed (float s) = tt
  scrubbed (str s) = tt

  scrubbed_items : (xs : Items) → EachRedacted (deep_scrub_items xs)
  scrubbed_items nil = tt
  scrubbed_items (cons x xs) = (scrubbed x, scrubbed_items xs)

  scrubbed_fields : (fs : Fields) → AllRedacted (deep_scrub_fields fs)
  scrubbed_fields end = tt
  scrubbed_fields (field k v fs) = elim (Bool-cases (is_sensitive k)) [
    | inl e ↦ rw e ((λ _. refl), tt, scrubbed_fields fs)
    | inr e ↦ rw e ((λ (h : false ≡ true). absurd (ground arith)), scrubbed v, scrubbed_fields fs)
  ]

mutual
  unfolding deep_scrub IsRedacted

  unchanged : (v : Json) → IsRedacted v → deep_scrub v ≡ v
  unchanged (obj fs) h = ap obj (unchanged_fields fs h)
  unchanged (arr xs) h = ap arr (unchanged_items xs h)
  unchanged null h = refl
  unchanged (bool b) h = refl
  unchanged (int i) h = refl
  unchanged (float s) h = refl
  unchanged (str s) h = refl

  unchanged_items : (xs : Items) → EachRedacted xs → deep_scrub_items xs ≡ xs
  unchanged_items nil h = refl
  unchanged_items (cons x xs) h = rw (unchanged x h.0, unchanged_items xs h.1)

  unchanged_fields : (fs : Fields) → AllRedacted fs → deep_scrub_fields fs ≡ fs
  unchanged_fields end h = refl
  unchanged_fields (field k v fs) h = elim (Bool-cases (is_sensitive k)) [
    | inl e ↦ rw (e, h.0 e, unchanged_fields fs h.2)
    | inr e ↦ rw (e, unchanged v h.1, unchanged_fields fs h.2)
  ]

-- What a value is scrubbed to: the mark at every key that is sensitive in lower case, and everywhere
-- else the same structure, the same keys in their order, and the same values.
unfoldable mutual
  pub Scrubs : Json → Json → Type 0
  Scrubs (obj fs) (obj gs) = FieldsScrub fs gs
  Scrubs (arr xs) (arr ys) = ItemsScrub xs ys
  Scrubs (obj fs) w = ⊥
  Scrubs (arr xs) w = ⊥
  Scrubs v w = w ≡ v

  pub ItemsScrub : Items → Items → Type 0
  ItemsScrub nil nil = Unit
  ItemsScrub (cons x xs) (cons y ys) = Scrubs x y × ItemsScrub xs ys
  ItemsScrub _ _ = ⊥

  pub FieldsScrub : Fields → Fields → Type 0
  FieldsScrub end end = Unit
  FieldsScrub (field k v fs) (field j w gs) =
      (j ≡ k)
      × (((lower k ∈? sensitive_keys) ≡ true × (w ≡ redacted))
          ⊎ ((lower k ∈? sensitive_keys) ≡ false × Scrubs v w))
      × FieldsScrub fs gs
  FieldsScrub _ _ = ⊥

mutual
  unfolding deep_scrub Scrubs is_sensitive

  scrubs : (v : Json) → Scrubs v (deep_scrub v)
  scrubs (obj fs) = scrubs_fields fs
  scrubs (arr xs) = scrubs_items xs
  scrubs null = refl
  scrubs (bool b) = refl
  scrubs (int i) = refl
  scrubs (float s) = refl
  scrubs (str s) = refl

  scrubs_items : (xs : Items) → ItemsScrub xs (deep_scrub_items xs)
  scrubs_items nil = tt
  scrubs_items (cons x xs) = (scrubs x, scrubs_items xs)

  scrubs_fields : (fs : Fields) → FieldsScrub fs (deep_scrub_fields fs)
  scrubs_fields end = tt
  scrubs_fields (field k v fs) = elim (Bool-cases (lower k ∈? sensitive_keys)) [
    | inl e ↦ rw e (refl, inl (refl, refl), scrubs_fields fs)
    | inr e ↦ rw e (refl, inr (refl, scrubs v), scrubs_fields fs)
  ]

-- Scrubbing puts the redaction mark at every key that is sensitive in lower case, at any depth, in
-- lists as well, and keeps the rest as it is: the same structure, the same keys in their order, and
-- the same values everywhere else. Where every mark was there already, and only there, it changes
-- nothing at all.
pub deep_scrub-Scrubs : (v : Json) → Scrubs v (deep_scrub v) × ((deep_scrub v ≡ v) ↔ IsRedacted v)
deep_scrub-Scrubs v =
    (scrubs v, ((λ e. subst (λ (x : Json). IsRedacted x) e (scrubbed v)), unchanged v))
