-- ===== src/Base/Parts.antt =====
-- Python's `str`: lengths, ends and searches.
use Prim.Native.Nat.{ℕ, zero, suc, ◌+◌, ◌-◌, ◌*◌, min}
use Prim.Native.Char.{code}
use mathlib.Core.Path.{◌≡◌}
use mathlib.Core.Bool.{Bool, false, ◌&&◌, ◌||◌}
use mathlib.Core.Option.{Option, none, some}
use native.Mathlib.Omega.{arith}
use text.Mathlib.TextLemmas.{nil-append, cons-append}
use salesforce_master_servic.Base.Tests.{◌==◌, leb, nat_eq, string_eq, if◌then◌else◌}
use salesforce_master_servic.Base.Text.{String, ◌<>◌, is_space, starts_with, take_text}

-- `len(s)`
unfoldable pub text_length : String → ℕ
text_length String.[] = 0
text_length (String.◌∷◌ c s) = suc (text_length s)

-- `s[n:]`
unfoldable pub drop_text : ℕ → String → String
drop_text zero s = s
drop_text (suc n) String.[] = String.[]
drop_text (suc n) (String.◌∷◌ c s) = drop_text n s

-- `s[-n:]`, which is all of `s` at 0.
unfoldable pub last_text : ℕ → String → String
last_text zero s = s
last_text (suc n) s = drop_text (text_length s - suc n) s

-- `s.rstrip("/")`
unfoldable pub rstrip_slash : String → String
rstrip_slash String.[] = String.[]
rstrip_slash (String.◌∷◌ c s) = elim (rstrip_slash s) [
  | String.[] ↦ if code c == b'/' then String.[] else String.◌∷◌ c String.[]
  | String.◌∷◌ d rest ↦ String.◌∷◌ c (String.◌∷◌ d rest)
]

-- `re.search(r"\s", s)`
unfoldable pub has_space : String → Bool
has_space String.[] = false
has_space (String.◌∷◌ c s) = is_space c || has_space s

-- `part in s`
unfoldable pub contains : String → String → Bool
contains part String.[] = starts_with String.[] part
contains part (String.◌∷◌ c s) = starts_with (String.◌∷◌ c s) part || contains part s

unfoldable pub digits_from : ℕ → String → Option ℕ
digits_from acc String.[] = some acc
digits_from acc (String.◌∷◌ c s) =
    let rest = digits_from (acc * 10 + (code c - b'0')) s in
    if leb b'0' (code c) && leb (code c) b'9' then rest else none

-- `int(s) if s.isdigit()`, of a text in ASCII.
unfoldable pub decimal : String → Option ℕ
unfolding digits_from
decimal String.[] = none
decimal (String.◌∷◌ c s) = digits_from 0 (String.◌∷◌ c s)

pub length-append_text : (s t : String) → text_length (s <> t) ≡ text_length s + text_length t
unfolding text_length
length-append_text String.[] t = rw nil-append (omega arith)
length-append_text (String.◌∷◌ c s) t = rw cons-append (omega (arith, length-append_text s t))

pub length-take_text : (n : ℕ) (s : String) → text_length (take_text n s) ≡ min n (text_length s)
unfolding text_length take_text
length-take_text zero s = omega arith
length-take_text (suc n) String.[] = omega arith
length-take_text (suc n) (String.◌∷◌ c s) = omega (arith, length-take_text n s)

pub length-drop_text : (n : ℕ) (s : String) → text_length (drop_text n s) ≡ text_length s - n
unfolding text_length drop_text
length-drop_text zero s = omega arith
length-drop_text (suc n) String.[] = omega arith
length-drop_text (suc n) (String.◌∷◌ c s) = omega (arith, length-drop_text n s)

-- A text that is missing or empty does not count.
abbrev pub given : Option String → Option String
given none = none
given (some s) = if s == "" then none else some s

-- `a or b`
infixr 30 ◌or_given◌
abbrev pub ◌or_given◌ : Option String → Option String → Option String
none or_given b = b
some a or_given b = some a
