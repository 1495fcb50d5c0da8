-- ===== src/Redact/Laws.antt =====
-- What `_mask` and `_scrub` of src/app/salesforce/auth_client.py leave of a value.
use mathlib.Core.List.{Memᴰ}
use salesforce_master_servic.Base.{
  ℕ, zero, suc, ◌+◌, ◌-◌, ◌≤◌, ◌<◌, ◌≡◌, refl, ap, subst, ◌↔◌, ◌⊎◌, inl, inr, true, false, Option,
  none, some, List, [], ◌∷◌, arith, leb, nat_eq, string_eq, Bool-cases, Option-cases, ◌∈?◌,
  Memᴰ-cons, String, ◌<>◌, starts_with, lower, take_text, text_length, drop_text, last_text,
  has_space, contains,
}
use salesforce_master_servic.Json.{
  Json, null, bool, int, float, str, arr, obj, Items, nil, cons, Fields, end, field,
}
use salesforce_master_servic.Redact.{
  secret_keys, is_secret_key, mask, is_like_token, secret_markers, any_in, has_marker, mark,
  scrub_with, scrub_items, scrub_fields, text_size, items_size, fields_size, scrub_text, scrub,
}

-- A mask of a text: three stars for a short one, else its first and its last characters.
abbrev pub IsMask : ℕ → ℕ → String → String → Type 0
IsMask first last s t =
    ((text_length s ≤ first + last) × (t ≡ "***"))
    ⊎ ((first + last < text_length s)
        × (t ≡ take_text first s <> "..." <> drop_text (text_length s - last) s))

mask-IsMask : (s : String) (first last : ℕ) → IsMask first (suc last) s (mask s first (suc last))
unfolding mask last_text
mask-IsMask s first last = elim (Bool-cases (leb (text_length s) (first + suc last))) [
  | inl e ↦ rw e (inl (ground (arith, e), refl))
  | inr e ↦ rw e (inr (ground (arith, e), refl))
]

-- A text like a token: more than 20 characters in one piece, which begin as the ids of Salesforce's
-- sessions do or as a header, or are more than 60.
abbrev pub IsTokenLike : String → Type 0
IsTokenLike s =
    (20 < text_length s)
    × (has_space s ≡ false)
    × ((starts_with (lower s) "00d" ≡ true)
        ⊎ (starts_with (lower s) "bearer " ≡ true)
        ⊎ (60 < text_length s))

-- A text with a marker of a secret in it, in lower case.
abbrev pub HasSecret : String → Type 0
HasSecret s = (marker : String) × Memᴰ marker secret_markers × (contains marker (lower s) ≡ true)

IsTokenLike-iff : (s : String) → (is_like_token s ≡ true) ↔ IsTokenLike s
unfolding is_like_token
IsTokenLike-iff s = ground arith

any_in_iff :
    (markers : List String) (s : String)
    → (any_in markers s ≡ true)
      ↔ ((marker : String) × Memᴰ marker markers × (contains marker s ≡ true))
unfolding any_in
any_in_iff [] s = ((λ h. absurd (ground (arith, h))), (λ (marker, m, h). elim m [ ]))
any_in_iff (first ∷ markers) s = (
  (λ h. elim (Bool-cases (contains first s)) [
    | inl e ↦ (first, Memᴰ.head refl, e)
    | inr e ↦
        let (marker, m, k) = (any_in_iff markers s).0 (ground (arith, e, h)) in
        (marker, Memᴰ.tail m, k)
  ]),
  (λ (marker, m, h). elim (Memᴰ-cons m) [
    | inl e ↦
        let k : contains first s ≡ true = subst (λ (x : String). contains x s ≡ true) e h in
        ground (arith, k)
    | inr q ↦ let k = (any_in_iff markers s).1 (marker, q, h) in ground (arith, k)
  ]),
)

HasSecret-iff : (s : String) → (has_marker s ≡ true) ↔ HasSecret s
unfolding has_marker
HasSecret-iff s = any_in_iff secret_markers (lower s)

-- What a value is scrubbed to, where `T` holds of a text and what it is scrubbed to: the mark at every
-- key that is secret in lower case, and everywhere else the same structure and keys.
module _ (T : String → String → Type 0) where
  unfoldable mutual
    pub Scrubs : Json → Json → Type 0
    Scrubs (obj fs) (obj gs) = FieldsScrub fs gs
    Scrubs (arr xs) (arr ys) = ItemsScrub xs ys
    Scrubs (str s) (str t) = T s t
    Scrubs (obj fs) w = ⊥
    Scrubs (arr xs) w = ⊥
    Scrubs (str s) w = ⊥
    Scrubs v w = w ≡ v

    pub ItemsScrub : Items → Items → Type 0
    ItemsScrub nil nil = Unit
    ItemsScrub (cons x xs) (cons y ys) = Scrubs x y × ItemsScrub xs ys
    ItemsScrub _ _ = ⊥

    pub FieldsScrub : Fields → Fields → Type 0
    FieldsScrub end end = Unit
    FieldsScrub (field k v fs) (field j w gs) =
        (j ≡ k)
        × (((lower k ∈? secret_keys) ≡ true × (w ≡ mark))
            ⊎ ((lower k ∈? secret_keys) ≡ false × Scrubs v w))
        × FieldsScrub fs gs
    FieldsScrub _ _ = ⊥

module _ (text : String → String) (T : String → String → Type 0)
    (cleared : (s : String) → T s (text s)) where
  mutual
    unfolding scrub_with Scrubs is_secret_key

    scrubs : (v : Json) → Scrubs T v (scrub_with text v)
    scrubs (obj fs) = scrubs_fields fs
    scrubs (arr xs) = scrubs_items xs
    scrubs (str s) = cleared s
    scrubs null = refl
    scrubs (bool b) = refl
    scrubs (int i) = refl
    scrubs (float s) = refl

    scrubs_items : (xs : Items) → ItemsScrub T xs (scrub_items text xs)
    scrubs_items nil = tt
    scrubs_items (cons x xs) = (scrubs x, scrubs_items xs)

    scrubs_fields : (fs : Fields) → FieldsScrub T fs (scrub_fields text fs)
    scrubs_fields end = tt
    scrubs_fields (field k v fs) = elim (Bool-cases (lower k ∈? secret_keys)) [
      | inl e ↦ rw e (refl, inl (refl, refl), scrubs_fields fs)
      | inr e ↦ rw e (refl, inr (refl, scrubs v), scrubs_fields fs)
    ]

module _ (loads : String → Option Json) (dumps : Json → String) where
  -- What a text is scrubbed to, with JSON inside of texts up to a depth: a mask where it is like a
  -- token; where it has a marker of a secret, the JSON of what its value is scrubbed to, or a mask
  -- where it is no JSON; and itself where it is neither.
  unfoldable pub TextScrubs : ℕ → String → String → Type 0
  TextScrubs zero s t = IsMask 0 4 s t
  TextScrubs (suc n) s t =
      (IsTokenLike s × IsMask 4 4 s t)
      ⊎ (¬ IsTokenLike s × HasSecret s × (loads s ≡ none) × IsMask 0 4 s t)
      ⊎ (¬ IsTokenLike s
          × HasSecret s
          × (v w : Json) × (loads s ≡ some v)
          × Scrubs (TextScrubs n) v w
          × (t ≡ dumps w))
      ⊎ (¬ IsTokenLike s × ¬ HasSecret s × (t ≡ s))

  scrub_text-TextScrubs : (n : ℕ) (s : String) → TextScrubs n s (scrub_text loads dumps n s)
  unfolding scrub_text TextScrubs
  scrub_text-TextScrubs zero s = mask-IsMask s 0 3
  scrub_text-TextScrubs (suc n) s = elim (Bool-cases (is_like_token s)) [
    | inl e ↦ rw e (inl ((IsTokenLike-iff s).0 e, mask-IsMask s 4 3))
    | inr e ↦
        let plain : ¬ IsTokenLike s = (λ h. absurd (ground (arith, e, (IsTokenLike-iff s).1 h))) in
        elim (Bool-cases (has_marker s)) [
          | inr h ↦
              rw (e, h)
                (inr (
                  inr
                    (inr (plain, (λ k. absurd (ground (arith, h, (HasSecret-iff s).1 k))), refl))))
          | inl h ↦ elim (Option-cases (loads s)) [
            | inl l ↦
                rw (e, h, l) (inr (inl (plain, (HasSecret-iff s).0 h, refl, mask-IsMask s 0 3)))
            | inr (v, l) ↦
                rw (e, h, l)
                  (inr (
                    inr (
                      inl (
                        plain,
                        (HasSecret-iff s).0 h,
                        v,
                        scrub_with (scrub_text loads dumps n) v,
                        refl,
                        scrubs (scrub_text loads dumps n) (TextScrubs n) (scrub_text-TextScrubs n)
                            v,
                        refl,
                      ))))
          ]
        ]
  ]

  -- Whatever the JSON library does, scrubbing puts the mark at every key that is secret in lower case,
  -- at any depth, and keeps the rest of the structure. A text that is like a token is masked but for its
  -- first and last four characters; one with a marker of a secret is scrubbed as the JSON that it is,
  -- in the same way, or masked but for its last four characters where it is none; any other is kept.
  pub scrub-Scrubs : (v : Json) → Scrubs (TextScrubs (text_size v)) v (scrub loads dumps v)
  unfolding scrub
  scrub-Scrubs v =
      scrubs (scrub_text loads dumps (text_size v)) (TextScrubs (text_size v))
        (scrub_text-TextScrubs (text_size v)) v

-- The texts inside a text are shorter than it: `loads` reads each from its own part of the text.
abbrev pub Shrinks : (String → Option Json) → Type 0
Shrinks loads = (s : String) (v : Json) → loads s ≡ some v → text_size v ≤ text_length s

module _ (f g : String → String) where
  mutual
    unfolding scrub_with text_size

    same :
        (n : ℕ) (v : Json)
        → ((s : String) → suc (text_length s) ≤ n → f s ≡ g s)
        → text_size v ≤ n
        → scrub_with f v ≡ scrub_with g v
    same n (obj fs) agree h = ap obj (same_fields n fs agree h)
    same n (arr xs) agree h = ap arr (same_items n xs agree h)
    same n (str s) agree h = ap str (agree s h)
    same n null agree h = refl
    same n (bool b) agree h = refl
    same n (int i) agree h = refl
    same n (float s) agree h = refl

    same_items :
        (n : ℕ) (xs : Items)
        → ((s : String) → suc (text_length s) ≤ n → f s ≡ g s)
        → items_size xs ≤ n
        → scrub_items f xs ≡ scrub_items g xs
    same_items n nil agree h = refl
    same_items n (cons x xs) agree h =
        rw (same n x agree (omega arith), same_items n xs agree (omega arith))

    same_fields :
        (n : ℕ) (fs : Fields)
        → ((s : String) → suc (text_length s) ≤ n → f s ≡ g s)
        → fields_size fs ≤ n
        → scrub_fields f fs ≡ scrub_fields g fs
    same_fields n end agree h = refl
    same_fields n (field k v fs) agree h =
        rw (same n v agree (omega arith), same_fields n fs agree (omega arith))

module _ (loads : String → Option Json) (dumps : Json → String) (shrinks : Shrinks loads) where
  text_fuel :
      (n m : ℕ) (s : String)
      → suc (text_length s) ≤ n
      → suc (text_length s) ≤ m
      → scrub_text loads dumps n s ≡ scrub_text loads dumps m s
  unfolding scrub_text
  text_fuel zero m s h k = absurd (omega arith)
  text_fuel (suc n) zero s h k = absurd (omega arith)
  text_fuel (suc n) (suc m) s h k = elim (Option-cases (loads s)) [
    | inl l ↦ rw l
    | inr (v, l) ↦
        let inside : text_size v ≤ text_length s = shrinks s v l in
        rw (
          l,
          same (scrub_text loads dumps n) (scrub_text loads dumps m) (text_length s) v
              (λ t b. text_fuel n m t (omega arith) (omega arith)) inside,
        )
  ]

  -- Where the texts that `loads` finds in a text are shorter than it, the recursion of `_scrub` into
  -- them ends: from the size of the value on, more fuel changes nothing.
  pub scrub-total :
      (v : Json) (fuel : ℕ)
      → text_size v ≤ fuel
      → scrub_with (scrub_text loads dumps fuel) v ≡ scrub loads dumps v
  unfolding scrub
  scrub-total v fuel h =
      same (scrub_text loads dumps fuel) (scrub_text loads dumps (text_size v)) (text_size v) v
        (λ s b. text_fuel fuel (text_size v) s (omega arith) b) (omega arith)
