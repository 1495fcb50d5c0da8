-- ===== src/Base/Decimal.antt =====
-- A number that is written in decimal is read back.
use Prim.Native.Nat.{ℕ, zero, suc, ◌+◌, ◌-◌, ◌*◌, ◌/◌, ◌%◌, ◌<◌}
use Prim.Native.Char.{Char, code}
use Prim.Native.String.{char_at}
use mathlib.Core.Path.{◌≡◌, refl, ◌∙◌}
use mathlib.Core.Logic.{inl, inr}
use mathlib.Core.Bool.{Bool, true, false, ◌&&◌}
use mathlib.Core.Option.{some}
use native.Mathlib.Omega.{arith}
use text.Mathlib.TextEquality.{eq_iff}
use text.Mathlib.TextLemmas.{cons≢nil}
use salesforce_master_servic.Base.Int.{pos}
use salesforce_master_servic.Base.Tests.{◌==◌, ltb, leb, nat_eq, Bool-cases, string_eq}
use salesforce_master_servic.Base.Text.{
  String, show, digits_of, digits_value, signed_value, int_of_text, strip, strip_left, strip_right,
  cons_strip, is_space,
}
use salesforce_master_servic.Base.Parts.{decimal, digits_from}

abbrev digit : ℕ → Char
digit d = char_at "0123456789" d

code-digit : (d : ℕ) → d < 10 → code (digit d) ≡ 48 + d
code-digit zero h = refl
code-digit (suc zero) h = refl
code-digit (suc (suc zero)) h = refl
code-digit (suc (suc (suc zero))) h = refl
code-digit (suc (suc (suc (suc zero)))) h = refl
code-digit (suc (suc (suc (suc (suc zero))))) h = refl
code-digit (suc (suc (suc (suc (suc (suc zero)))))) h = refl
code-digit (suc (suc (suc (suc (suc (suc (suc zero))))))) h = refl
code-digit (suc (suc (suc (suc (suc (suc (suc (suc zero)))))))) h = refl
code-digit (suc (suc (suc (suc (suc (suc (suc (suc (suc zero))))))))) h = refl
code-digit (suc (suc (suc (suc (suc (suc (suc (suc (suc (suc d)))))))))) h = absurd (omega arith)

-- One digit that is read.
digits_from-digit :
    (acc d : ℕ) (s : String)
    → d < 10
    → digits_from acc (String.◌∷◌ (digit d) s) ≡ digits_from (acc * 10 + d) s
unfolding digits_from
digits_from-digit acc d s h =
    let low : leb 48 (48 + d) ≡ true = ground arith in
    let high : leb (48 + d) 57 ≡ true = ground arith in
    let value : 48 + d - 48 ≡ d = omega arith in rw (code-digit d h) (rw (low, high, value) refl)

digits_from-digits_of :
    (fuel n : ℕ) (acc : String)
    → n < fuel
    → digits_from 0 (digits_of fuel n acc) ≡ digits_from n acc
unfolding digits_of
digits_from-digits_of zero n acc h = absurd (omega arith)
digits_from-digits_of (suc fuel) n acc h =
    let small : n % 10 < 10 = omega arith in
    elim (Bool-cases (ltb n 10)) [
      | inl e ↦
          let same : 0 * 10 + n % 10 ≡ n = ground (arith, e) in
          rw e (digits_from-digit 0 (n % 10) acc small ∙ rw same refl)
      | inr e ↦
          let lower : n / 10 < fuel = ground (arith, e) in
          let split : n / 10 * 10 + n % 10 ≡ n = omega arith in
          rw e (
            digits_from-digits_of fuel (n / 10) (String.◌∷◌ (digit (n % 10)) acc) lower
            ∙ digits_from-digit (n / 10) (n % 10) acc small
            ∙ rw split refl)
    ]

-- A text of digits.
is_digits : String → Bool
is_digits String.[] = true
is_digits (String.◌∷◌ c s) = (leb b'0' (code c) && leb (code c) b'9') && is_digits s

is_digits-digit :
    (d : ℕ) (s : String) → d < 10 → is_digits s ≡ true → is_digits (String.◌∷◌ (digit d) s) ≡ true
unfolding is_digits
is_digits-digit d s h k =
    let low : leb 48 (48 + d) ≡ true = ground arith in
    let high : leb (48 + d) 57 ≡ true = ground arith in rw (code-digit d h) (rw (low, high, k) refl)

is_digits-digits_of :
    (fuel n : ℕ) (acc : String) → is_digits acc ≡ true → is_digits (digits_of fuel n acc) ≡ true
unfolding digits_of
is_digits-digits_of zero n acc h = h
is_digits-digits_of (suc fuel) n acc h =
    let here = is_digits-digit (n % 10) acc (omega arith) h in
    elim (Bool-cases (ltb n 10)) [
      | inl e ↦ rw e here
      | inr e ↦ rw e (is_digits-digits_of fuel (n / 10) (String.◌∷◌ (digit (n % 10)) acc) here)
    ]

-- The digits of a number are at least one.
Digits-shown :
    (fuel n : ℕ) (c : Char) (acc : String)
    → (d : Char) × (s : String) × (digits_of fuel n (String.◌∷◌ c acc) ≡ String.◌∷◌ d s)
unfolding digits_of
Digits-shown zero n c acc = (c, acc, refl)
Digits-shown (suc fuel) n c acc = elim (Bool-cases (ltb n 10)) [
  | inl e ↦ rw e (digit (n % 10), String.◌∷◌ c acc, refl)
  | inr e ↦ rw e (Digits-shown fuel (n / 10) (digit (n % 10)) (String.◌∷◌ c acc))
]

show-cons : (n : ℕ) → (d : Char) × (s : String) × (show n ≡ String.◌∷◌ d s)
unfolding show digits_of
show-cons n = elim (Bool-cases (ltb n 10)) [
  | inl e ↦ rw e (digit (n % 10), String.[], refl)
  | inr e ↦ rw e (Digits-shown n (n / 10) (digit (n % 10)) String.[])
]

-- `int(str(n))` of a text that `isdigit` is right about.
pub decimal-show : (n : ℕ) → decimal (show n) ≡ some n
unfolding decimal
decimal-show n =
    let (c, s, e) = show-cons n in
    let read : digits_from 0 (show n) ≡ some n =
      unfold show in unfold digits_from in digits_from-digits_of (suc n) n "" (omega arith) in
    let read' : digits_from 0 (String.◌∷◌ c s) ≡ some n = rw e at read in rw e read'

is_digits-show : (n : ℕ) → is_digits (show n) ≡ true
unfolding show is_digits
is_digits-show n = is_digits-digits_of (suc n) n "" refl

-- A digit in front.
digits_head :
    (c : Char) (s : String)
    → is_digits (String.◌∷◌ c s) ≡ true
    → (leb 48 (code c) ≡ true) × (leb (code c) 57 ≡ true) × (is_digits s ≡ true)
unfolding is_digits
digits_head c s h = ground arith

not_space : (c : Char) → leb 48 (code c) ≡ true → leb (code c) 57 ≡ true → is_space c ≡ false
unfolding is_space
not_space c low high = ground arith

strip_left-digits : (s : String) → is_digits s ≡ true → strip_left s ≡ s
unfolding strip_left
strip_left-digits String.[] h = refl
strip_left-digits (String.◌∷◌ c s) h =
    let (low, high, rest) = digits_head c s h in rw (not_space c low high)

strip_right-digits : (s : String) → is_digits s ≡ true → strip_right s ≡ s
unfolding strip_right cons_strip
strip_right-digits String.[] h = refl
strip_right-digits (String.◌∷◌ c String.[]) h =
    let (low, high, rest) = digits_head c "" h in rw (not_space c low high)
strip_right-digits (String.◌∷◌ c (String.◌∷◌ d s)) h =
    let (low, high, rest) = digits_head c (String.◌∷◌ d s) h in
    rw (strip_right-digits (String.◌∷◌ d s) rest)

digits_value-from :
    (acc : ℕ) (s : String) → is_digits s ≡ true → digits_value true acc s ≡ digits_from acc s
unfolding digits_value digits_from
digits_value-from acc String.[] h = refl
digits_value-from acc (String.◌∷◌ c s) h =
    let (low, high, rest) = digits_head c s h in
    rw (low, high) (digits_value-from (acc * 10 + (code c - 48)) s rest)

signed_value-digits :
    (c : Char) (s : String) (n : ℕ)
    → is_digits (String.◌∷◌ c s) ≡ true
    → digits_from 0 (String.◌∷◌ c s) ≡ some n
    → signed_value (String.◌∷◌ c s) ≡ some (pos n)
unfolding signed_value digits_value digits_from
signed_value-digits c s n h e =
    let (low, high, rest) = digits_head c s h in
    let minus : (code c == 45) ≡ false = ground arith in
    let plus : (code c == 43) ≡ false = ground arith in
    let value : digits_from (0 * 10 + (code c - 48)) s ≡ some n = rw (low, high) at e in
    rw (minus, plus, low, high)
      (rw (digits_value-from (0 * 10 + (code c - 48)) s rest) (rw value refl))

-- `int(str(n))`
pub int_of_text-show : (n : ℕ) → int_of_text (show n) ≡ some (pos n)
unfolding int_of_text strip
int_of_text-show n =
    let (c, s, e) = show-cons n in
    let digits = is_digits-show n in
    let read : digits_from 0 (show n) ≡ some n =
      unfold show in unfold digits_from in digits_from-digits_of (suc n) n "" (omega arith) in
    rw (strip_left-digits (show n) digits) (
      rw (strip_right-digits (show n) digits)
        (rw e (signed_value-digits c s n (rw e at digits) (rw e at read))))

pub show-nonempty : (n : ℕ) → (show n == "") ≡ false
show-nonempty n =
    let (c, s, e) = show-cons n in
    rw e (elim (Bool-cases (String.◌∷◌ c s == "")) [
      | inl q ↦ absurd (cons≢nil ((eq_iff (String.◌∷◌ c s) "").0 q))
      | inr q ↦ q
    ])
