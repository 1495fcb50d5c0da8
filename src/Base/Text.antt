-- ===== src/Base/Text.antt =====
-- Python's `str`: what the program uses of it. `lower` changes the ASCII letters only.
use Prim.Native.Nat.{ℕ, zero, suc, ◌+◌, ◌-◌, ◌*◌, ◌/◌, ◌%◌}
use Prim.Native.Char.{Char, code}
use Prim.Native.String.{char_at}
use mathlib.Core.Bool.{Bool, true, false, ◌&&◌, ◌||◌}
use mathlib.Core.Option
use mathlib.Core.Option.{Option, none, some}
use mathlib.Core.List.{[], ◌∷◌}
use salesforce_master_servic.Base.Int.{ℤ, pos, negsuc}
use salesforce_master_servic.Base.Tests.{◌==◌, ltb, leb, nat_eq, ◌∈?◌, if◌then◌else◌}
pub use Prim.Native.String.{String, ◌++◌ as ◌<>◌}
pub use text.Mathlib.Text.{starts_with}
pub use text.Mathlib.TextEquality.{eq_iff}
pub use text.Mathlib.TextPositions.{eq_refl}

lower_char : Char → Char
lower_char c =
    if leb b'A' (code c) && leb (code c) b'Z'
    then char_at "abcdefghijklmnopqrstuvwxyz" (code c - b'A')
    else c

-- `s.lower()`
unfoldable pub lower : String → String
unfolding lower_char
lower String.[] = String.[]
lower (String.◌∷◌ c s) = String.◌∷◌ (lower_char c) (lower s)

upper_char : Char → Char
upper_char c =
    if leb b'a' (code c) && leb (code c) b'z'
    then char_at "ABCDEFGHIJKLMNOPQRSTUVWXYZ" (code c - b'a')
    else c

-- `s.upper()`
unfoldable pub upper : String → String
unfolding upper_char
upper String.[] = String.[]
upper (String.◌∷◌ c s) = String.◌∷◌ (upper_char c) (upper s)

-- `c.isspace()`
unfoldable pub is_space : Char → Bool
is_space c =
    let n = code c in
    (leb 9 n && leb n 13)
    || (leb 28 n && leb n 32)
    || (leb 8192 n && leb n 8202)
    || n ∈? (133 ∷ 160 ∷ 5760 ∷ 8232 ∷ 8233 ∷ 8239 ∷ 8287 ∷ 12288 ∷ [])

unfoldable pub strip_left : String → String
strip_left String.[] = String.[]
strip_left (String.◌∷◌ c s) = let rest = strip_left s in if is_space c then rest else String.◌∷◌ c s

-- A character in front of a text that is stripped on the right.
unfoldable pub cons_strip : Char → String → String
cons_strip c String.[] = if is_space c then String.[] else String.◌∷◌ c String.[]
cons_strip c (String.◌∷◌ d s) = String.◌∷◌ c (String.◌∷◌ d s)

unfoldable pub strip_right : String → String
strip_right String.[] = String.[]
strip_right (String.◌∷◌ c s) = cons_strip c (strip_right s)

-- `s.strip()`
unfoldable pub strip : String → String
unfolding is_space strip_left strip_right cons_strip
strip s = strip_right (strip_left s)

-- `str(n)` of a number that is not negative. A number has fewer digits than its value plus one.
unfoldable pub digits_of : ℕ → ℕ → String → String
digits_of zero n acc = acc
digits_of (suc fuel) n acc =
    let shown = String.◌∷◌ (char_at "0123456789" (n % 10)) acc in
    let rest = digits_of fuel (n / 10) shown in if ltb n 10 then shown else rest

unfoldable pub show : ℕ → String
unfolding digits_of
show n = digits_of (suc n) n ""

-- `s[:n]`
unfoldable pub take_text : ℕ → String → String
take_text zero s = String.[]
take_text (suc n) String.[] = String.[]
take_text (suc n) (String.◌∷◌ c s) = String.◌∷◌ c (take_text n s)

-- The digits of `int(s)`, with single underscores between them, after a number and perhaps a digit.
unfoldable pub digits_value : Bool → ℕ → String → Option ℕ
digits_value after_digit acc String.[] = if after_digit then some acc else none
digits_value after_digit acc (String.◌∷◌ c s) =
    let digit = digits_value true (acc * 10 + (code c - b'0')) s in
    let underscore = digits_value false acc s in
    if leb b'0' (code c) && leb (code c) b'9'
    then digit
    else if code c == b'_' && after_digit
    then underscore
    else none

-- 0 less the number.
abbrev negated : ℕ → ℤ
negated zero = pos zero
negated (suc n) = negsuc n

unfoldable pub signed_value : String → Option ℤ
signed_value String.[] = none
signed_value (String.◌∷◌ c s) =
    if code c == b'-'
    then Option.map negated (digits_value false 0 s)
    else if code c == b'+'
    then Option.map pos (digits_value false 0 s)
    else Option.map pos (digits_value false 0 (String.◌∷◌ c s))

-- `int(s)` of a text in ASCII; `none` is its `ValueError`.
unfoldable pub int_of_text : String → Option ℤ
unfolding digits_value signed_value strip
int_of_text s = signed_value (strip s)
