-- ===== src/Base/Parse.antt =====
-- Texts taken apart, and numbers read from them and written to them.
use Prim.Native.Nat.{ℕ, zero, suc, ◌+◌, ◌-◌, ◌*◌, ◌/◌, ◌%◌}
use Prim.Native.Char.{Char, code}
use Prim.Native.String.{String}
use mathlib.Core.Bool.{Bool, false, ◌&&◌, ◌||◌}
use mathlib.Core.List.{List, [], ◌∷◌}
use mathlib.Core.Option.{Option, none, some}
use cne_ovs_sit.Base.Tests.{ltb, leb, ◌==◌, if◌then◌else◌}
use cne_ovs_sit.Base.Int.{ℤ, pos, negsuc}
use cne_ovs_sit.Base.Text.{append}

abbrev newline : ℕ
newline = 10

abbrev pub is_space : Char → Bool
is_space c = code c == 32 || (leb 9 (code c) && leb (code c) 13)

-- `s.split(sep)` for a separator of one character, given by its code.
unfoldable pub split_on : ℕ → String → List String
split_on sep String.[] = "" ∷ []
split_on sep (String.◌∷◌ c s) = elim (split_on sep s) [
  | [] ↦ String.◌∷◌ c "" ∷ []
  | part ∷ parts ↦ if code c == sep then "" ∷ part ∷ parts else String.◌∷◌ c part ∷ parts
]

-- `s.split("\n")`
unfoldable pub split_lines : String → List String
unfolding split_on
split_lines s = split_on newline s

-- `StringIO(s).readlines()`: the line ends stay, and nothing comes behind the last one.
unfoldable pub readlines : String → List String
readlines String.[] = []
readlines (String.◌∷◌ c s) =
    let rest = readlines s in
    if code c == newline
    then String.◌∷◌ c "" ∷ rest
    else elim rest [ [] ↦ String.◌∷◌ c "" ∷ [] | line ∷ lines ↦ String.◌∷◌ c line ∷ lines ]

unfoldable pub lstrip : String → String
lstrip String.[] = ""
lstrip (String.◌∷◌ c s) = let rest = lstrip s in if is_space c then rest else String.◌∷◌ c s

-- A text of blanks ends the text.
unfoldable pub rstrip : String → String
rstrip String.[] = ""
rstrip (String.◌∷◌ c s) = elim (rstrip s) [
  | String.[] ↦ if is_space c then "" else String.◌∷◌ c ""
  | String.◌∷◌ d t ↦ String.◌∷◌ c (String.◌∷◌ d t)
]

unfoldable pub strip : String → String
unfolding lstrip rstrip
strip s = lstrip (rstrip s)

abbrev pub is_digit : Char → Bool
is_digit c = leb 48 (code c) && leb (code c) 57

-- The digits from the most significant on, behind the number `n`.
unfoldable pub digits_from : ℕ → String → Option ℕ
digits_from n String.[] = some n
digits_from n (String.◌∷◌ c s) =
    let rest = digits_from (n * 10 + (code c - 48)) s in if is_digit c then rest else none

unfoldable pub unsigned : String → Option ℕ
unfolding digits_from
unsigned String.[] = none
unsigned (String.◌∷◌ c s) = digits_from 0 (String.◌∷◌ c s)

abbrev negated : ℕ → ℤ
negated zero = pos 0
negated (suc n) = negsuc n

signed : String → Option ℤ
unfolding unsigned
signed String.[] = none
signed (String.◌∷◌ c s) =
    if code c == 45
    then elim (unsigned s) [ none ↦ none | some n ↦ some (negated n) ]
    else if code c == 43
    then elim (unsigned s) [ none ↦ none | some n ↦ some (pos n) ]
    else elim (unsigned (String.◌∷◌ c s)) [ none ↦ none | some n ↦ some (pos n) ]

-- `int(s)`, where `none` is a ValueError: blanks around, a sign, and decimal digits. The underscores
-- between digits that Python allows are not read.
unfoldable pub int_of : String → Option ℤ
unfolding signed strip
int_of s = signed (strip s)

hex_digit : ℕ → String
hex_digit n = elim n [
  | zero ↦ "0"
  | suc zero ↦ "1"
  | suc (suc zero) ↦ "2"
  | suc (suc (suc zero)) ↦ "3"
  | suc (suc (suc (suc zero))) ↦ "4"
  | suc (suc (suc (suc (suc zero)))) ↦ "5"
  | suc (suc (suc (suc (suc (suc zero))))) ↦ "6"
  | suc (suc (suc (suc (suc (suc (suc zero)))))) ↦ "7"
  | suc (suc (suc (suc (suc (suc (suc (suc zero))))))) ↦ "8"
  | suc (suc (suc (suc (suc (suc (suc (suc (suc zero)))))))) ↦ "9"
  | suc (suc (suc (suc (suc (suc (suc (suc (suc (suc zero))))))))) ↦ "a"
  | suc (suc (suc (suc (suc (suc (suc (suc (suc (suc (suc zero)))))))))) ↦ "b"
  | suc (suc (suc (suc (suc (suc (suc (suc (suc (suc (suc (suc zero))))))))))) ↦ "c"
  | suc (suc (suc (suc (suc (suc (suc (suc (suc (suc (suc (suc (suc zero)))))))))))) ↦ "d"
  | suc (suc (suc (suc (suc (suc (suc (suc (suc (suc (suc (suc (suc (suc zero))))))))))))) ↦ "e"
  | _ ↦ "f"
]

-- A number below 16 has one digit, so `n` rounds are enough.
hex_digits : ℕ → ℕ → String → String
unfolding hex_digit append
hex_digits zero n out = append (hex_digit n) out
hex_digits (suc fuel) n out =
    let rest = hex_digits fuel (n / 16) (append (hex_digit (n % 16)) out) in
    if ltb n 16 then append (hex_digit n) out else rest

-- `'{:x}'.format(n)`
unfoldable pub hex_text : ℕ → String
unfolding hex_digits
hex_text n = hex_digits n n ""

-- `hex(n)`
unfoldable pub hex : ℕ → String
unfolding hex_text append
hex n = append "0x" (hex_text n)

text_size : String → ℕ
text_size String.[] = 0
text_size (String.◌∷◌ c s) = suc (text_size s)

zeros : ℕ → String → String
unfolding append
zeros zero s = s
zeros (suc n) s = append "0" (zeros n s)

-- The format `0w`: zeros in front up to the width.
unfoldable pub pad : ℕ → String → String
unfolding zeros text_size
pad width s = zeros (width - text_size s) s

ends_in_slash : String → Bool
ends_in_slash String.[] = false
ends_in_slash (String.◌∷◌ c String.[]) = code c == 47
ends_in_slash (String.◌∷◌ c (String.◌∷◌ d s)) = ends_in_slash (String.◌∷◌ d s)

-- `os.path.join(dir, name)` for a name that does not begin with a slash.
unfoldable pub path_join : String → String → String
unfolding ends_in_slash append
path_join String.[] name = name
path_join (String.◌∷◌ c dir) name =
    if ends_in_slash (String.◌∷◌ c dir)
    then append (String.◌∷◌ c dir) name
    else append (String.◌∷◌ c dir) (append "/" name)
