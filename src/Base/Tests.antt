-- ===== src/Base/Tests.antt =====
-- Python's conditional expression, comparisons, `==` for every type that has one, and case splits
-- that keep the equation.
use Prim.Native.Nat.{ℕ, compare, Ordering}
use Prim.Native.String.{String}
use mathlib.Core.Path.{◌≡◌, refl}
use mathlib.Core.Logic.{◌↔◌, ◌⊎◌, inl, inr}
use mathlib.Core.Bool.{Bool, true, false, ◌&&◌, ◌||◌}
use mathlib.Core.Option.{Option, none, some}
use mathlib.Core.List.{List, [], ◌∷◌}
use native.Mathlib.Omega.{arith}
use text.Mathlib.Text.{◌==◌ as text_beq}
use text.Mathlib.TextEquality.{eq_iff}

infix 1 if◌then◌else◌
abbrev pub if◌then◌else◌ {ℓ} : {A : Type ℓ} → Bool → A → A → A
if true then x else y = x
if false then x else y = y

abbrev pub ltb : ℕ → ℕ → Bool
ltb a b = elim (compare a b) [ Ordering.lt ↦ true | _ ↦ false ]

abbrev pub leb : ℕ → ℕ → Bool
leb a b = elim (compare a b) [ Ordering.gt ↦ false | _ ↦ true ]

abbrev nat_beq : ℕ → ℕ → Bool
nat_beq a b = elim (compare a b) [ Ordering.eq ↦ true | _ ↦ false ]

pub nat_beq_iff : (a b : ℕ) → (nat_beq a b ≡ true) ↔ (a ≡ b)
nat_beq_iff a b = ground arith

pub record Eq {ℓ} (A : Type ℓ) : Type ℓ where
  pub beq : A → A → Bool
  pub beq_iff : (a b : A) → (beq a b ≡ true) ↔ (a ≡ b)

instance abbrev pub nat_eq : Eq ℕ
nat_eq = record { beq = nat_beq; beq_iff = nat_beq_iff }

instance abbrev pub string_eq : Eq String
string_eq = record { beq = text_beq; beq_iff = eq_iff }

infix 50 ◌==◌
abbrev pub ◌==◌ {ℓ} : {A : Type ℓ} ⦃e : Eq A⦄ → A → A → Bool
◌==◌ ⦃e⦄ = e.beq

-- An equality test through an injection into the numbers, for the enumerations.
abbrev pub eq_by_code {ℓ} :
    {A : Type ℓ} (index : A → ℕ) → ((a b : A) → index a ≡ index b → a ≡ b) → Eq A
eq_by_code {A} index injective = record {
  beq = λ a b. nat_beq (index a) (index b);
  beq_iff = beq_iff_of;
}
  where
    beq_iff_of : (a b : A) → (nat_beq (index a) (index b) ≡ true) ↔ (a ≡ b)
    beq_iff_of a b = (
      λ h. injective a b ((nat_beq_iff (index a) (index b)).0 h),
      λ p. (nat_beq_iff (index a) (index b)).1 (λ i. index (p i)),
    )

pub Bool-cases : (b : Bool) → (b ≡ true) ⊎ (b ≡ false)
Bool-cases true = inl refl
Bool-cases false = inr refl

pub Option-cases {ℓ} : {A : Type ℓ} (o : Option A) → (o ≡ none) ⊎ ((a : A) × (o ≡ some a))
Option-cases none = inl refl
Option-cases (some a) = inr (a, refl)

-- `a in xs`, for a set or list that is written out.
infix 50 ◌∈?◌
abbrev pub ◌∈?◌ {ℓ} : {A : Type ℓ} ⦃e : Eq A⦄ → A → List A → Bool
a ∈? [] = false
a ∈? (x ∷ xs) = a == x || a ∈? xs

-- `x is not None`
abbrev pub is_some {ℓ} : {A : Type ℓ} → Option A → Bool
is_some none = false
is_some (some _) = true

-- `x or d` at an `Optional` whose values are all true
abbrev pub or_default {ℓ} : {A : Type ℓ} → Option A → A → A
or_default none d = d
or_default (some a) d = a

pub and-eq-true : (a b : Bool) → (a && b) ≡ true → (a ≡ true) × (b ≡ true)
and-eq-true a b h = ground arith

pub or_and_left : (a b c : Bool) → (a && c) ≡ true → ((a || b) && c) ≡ true
or_and_left a b c h = ground arith

pub or_and_right : (a b c : Bool) → (b && c) ≡ true → ((a || b) && c) ≡ true
or_and_right a b c h = ground arith
