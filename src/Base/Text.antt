-- ===== src/Base/Text.antt =====
-- Texts: Python's `+`, f-strings and `str` of a number.
use Prim.Native.Nat.{ℕ, zero, suc, ◌/◌, ◌%◌}
use Prim.Native.Char.{code}
use Prim.Native.String.{String}
use mathlib.Core.Path.{◌≡◌, refl}
use mathlib.Core.List.{List, [], ◌∷◌}
use mathlib.Core.Option.{Option, none, some}
use mathlib.Core.Logic.{◌↔◌}
use mathlib.Core.Bool.{Bool, true, false}
use native.Mathlib.Omega.{arith}
use text.Mathlib.Text.{◌==◌ as text_eq}
use text.Mathlib.TextEquality.{eq_iff}
use cne_ovs_sit.Base.Tests.{ltb, ◌==◌, if◌then◌else◌}

-- `s + t`, by recursion: it computes at a literal in front of a variable too.
unfoldable pub append : String → String → String
append String.[] t = t
append (String.◌∷◌ c s) t = String.◌∷◌ c (append s t)

-- The f-string whose pieces are given.
unfoldable pub fstr : List String → String
unfolding append
fstr [] = ""
fstr (s ∷ ss) = append s (fstr ss)

pub append-empty : (s : String) → append s "" ≡ s
unfolding append
append-empty String.[] = refl
append-empty (String.◌∷◌ c s) = cc (append-empty s)

pub append_assoc : (s t u : String) → append (append s t) u ≡ append s (append t u)
unfolding append
append_assoc String.[] t u = refl
append_assoc (String.◌∷◌ c s) t u = cc (append_assoc s t u)

unfoldable pub digit : ℕ → String
digit zero = "0"
digit (suc zero) = "1"
digit (suc (suc zero)) = "2"
digit (suc (suc (suc zero))) = "3"
digit (suc (suc (suc (suc zero)))) = "4"
digit (suc (suc (suc (suc (suc zero))))) = "5"
digit (suc (suc (suc (suc (suc (suc zero)))))) = "6"
digit (suc (suc (suc (suc (suc (suc (suc zero))))))) = "7"
digit (suc (suc (suc (suc (suc (suc (suc (suc zero)))))))) = "8"
digit _ = "9"

-- A number below ten has one digit; each round divides by ten, so `n` rounds are enough.
unfoldable pub decimal : ℕ → ℕ → String → String
unfolding digit append
decimal zero n out = append (digit n) out
decimal (suc fuel) n out =
    let rest = decimal fuel (n / 10) (append (digit (n % 10)) out) in
    if ltb n 10 then append (digit n) out else rest

-- `str(n)`
unfoldable pub show : ℕ → String
unfolding decimal
show n = decimal n n ""

unfoldable pub is_prefix : String → String → Bool
is_prefix String.[] t = true
is_prefix (String.◌∷◌ c s) String.[] = false
is_prefix (String.◌∷◌ c s) (String.◌∷◌ d t) = if code c == code d then is_prefix s t else false

-- `part in text`
unfoldable pub contains : String → String → Bool
unfolding is_prefix
contains part String.[] = is_prefix part String.[]
contains part (String.◌∷◌ c s) = if is_prefix part (String.◌∷◌ c s) then true else contains part s

-- A Python value that the program keeps as a number or as its text: `0 == "0"` is false.
pub data Value : Type 0 where
  int : ℕ → Value
  str : String → Value

-- `==` of two such values
abbrev pub value_eq : Value → Value → Bool
value_eq (int n) (int m) = n == m
value_eq (str s) (str t) = text_eq s t
value_eq _ _ = false

pub value_eq_iff : (v w : Value) → (value_eq v w ≡ true) ↔ (v ≡ w)
value_eq_iff (int n) (int m) = ground arith
value_eq_iff (str s) (str t) = ground (arith, eq_iff s t)
value_eq_iff (int n) (str t) = ground arith
value_eq_iff (str s) (int m) = ground arith

pub value_eq_self : (v : Value) → value_eq v v ≡ true
value_eq_self v = (value_eq_iff v v).1 refl

unfoldable pub show_value : Value → String
unfolding show
show_value (int n) = show n
show_value (str s) = s

abbrev pub show_option : Option String → String
show_option none = "None"
show_option (some s) = s

show_2021 : show 2021 ≡ "2021"
unfolding show
show_2021 = refl
