-- ===== src/Guest/Scan.antt =====
-- Regular expressions of resources/libraries/python/guest.py, taken apart: in each of them the classes
-- of characters that follow each other have nothing in common, so a repetition takes as many characters
-- as there are, and one pass from a place tells whether the expression matches there. Digits and
-- blanks are those of ASCII.
use Prim.Native.Char.{Char, code}
use cne_ovs_sit.Base.{
  ℕ, String, Bool, Option, none, some, is_digit, is_space, unsigned, ◌==◌, if◌then◌else◌,
}

abbrev pub opt_then : {A B : Type 0} → Option A → (A → Option B) → Option B
opt_then none f = none
opt_then (some a) f = f a

-- The characters in front that pass the test, and those behind them.
unfoldable pub span : (Char → Bool) → String → String × String
span p String.[] = ("", "")
span p (String.◌∷◌ c s) =
    let (front, back) = span p s in if p c then (String.◌∷◌ c front, back) else ("", String.◌∷◌ c s)

abbrev pub if_any : String × String → Option (String × String)
if_any (String.[], back) = none
if_any (String.◌∷◌ c front, back) = some (String.◌∷◌ c front, back)

-- One or more of them
unfoldable pub some_of : (Char → Bool) → String → Option (String × String)
unfolding span
some_of p s = if_any (span p s)

-- `\s+`, `[ ]+` and `(\d+)`
abbrev pub blanks : String → Option String
blanks s = opt_then (some_of is_space s) (λ p. some p.1)

abbrev is_space_char : Char → Bool
is_space_char c = code c == 32

abbrev pub spaces : String → Option String
spaces s = opt_then (some_of is_space_char s) (λ p. some p.1)

abbrev pub digits : String → Option (String × String)
digits s = some_of is_digit s

-- What stands behind a literal.
unfoldable pub literal : String → String → Option String
literal String.[] s = some s
literal (String.◌∷◌ c part) String.[] = none
literal (String.◌∷◌ c part) (String.◌∷◌ d s) =
    let rest = literal part s in if code c == code d then rest else none

-- `regex.search(s)`: the first place where the expression matches. None of them matches nothing.
unfoldable pub search : {A : Type 0} → (String → Option A) → String → Option A
search match String.[] = none
search match (String.◌∷◌ c s) =
    let later = search match s in elim (match (String.◌∷◌ c s)) [ some a ↦ some a | none ↦ later ]

-- `int` of one or more digits
unfoldable pub number_of : String → ℕ
unfolding unsigned
number_of s = elim (unsigned s) [ none ↦ 0 | some n ↦ n ]
