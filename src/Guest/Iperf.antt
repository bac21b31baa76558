-- ===== src/Guest/Iperf.antt =====
-- _verify_iperf_result (resources/libraries/python/guest.py): the rates that iperf3 prints for TCP.
--
-- A Python float is the decimal number that is read, `mantissa / 10 ^ scale`; the rates have few digits.
use Prim.Native.Char.{Char, code}
use Prim.Native.Nat.{◌^◌}
use cne_ovs_sit.Base.{
  ℕ, zero, suc, ◌+◌, ◌-◌, ◌*◌, ◌/◌, ◌&&◌, not, String, Bool, true, false, List, [], ◌∷◌, Option,
  none, some, fstr, append, show, readlines, ltb, ◌==◌, value_error, Result, ok, err, chain,
  if◌then◌else◌,
}
use cne_ovs_sit.Guest.Scan.{opt_then, blanks, digits, some_of, literal, search, number_of}

pub record Decimal : Type 0 where
  pub mantissa : ℕ
  pub scale : ℕ

-- The digits in front of the dots, the number of dots, and the digits behind them.
abbrev pub Numeral : Type 0
Numeral = String × ℕ × String

abbrev is_dot : Char → Bool
is_dot c = code c == 46

abbrev text_length : String → ℕ
text_length String.[] = 0
text_length (String.◌∷◌ c s) = suc (text_length s)

-- `(\d+\.*\d+)`: without a dot, two digits or more.
unfoldable pub numeral : String → Option (Numeral × String)
unfolding some_of
numeral s = opt_then (digits s) (λ p. elim (some_of is_dot p.1) [
  | none ↦ if ltb 1 (text_length p.0) then some ((p.0, 0, ""), p.1) else none
  | some (dots, rest) ↦ elim (digits rest) [
    | some (fraction, back) ↦ some ((p.0, text_length dots, fraction), back)
    | none ↦ none
  ]
])

-- `float`: more than one dot is a ValueError.
unfoldable pub float_of : Numeral → Result Decimal
unfolding number_of
float_of (whole, zero, fraction) = ok (record { mantissa = number_of whole; scale = 0 })
float_of (whole, suc zero, fraction) =
    ok (record { mantissa = number_of (append whole fraction); scale = text_length fraction })
float_of (whole, suc (suc n), fraction) = err value_error

-- `\s+(\d+\.*\d+)\s+Kbits\/sec`, group 1
abbrev rate_in_line : String → Option Numeral
rate_in_line s = opt_then (blanks s) (λ s.
    opt_then (numeral s)
      (λ p. opt_then (blanks p.1) (λ s. opt_then (literal "Kbits/sec" s) (λ s. some p.0))))

unfoldable pub rates_of : List String → List Numeral
unfolding search numeral literal
rates_of [] = []
rates_of (line ∷ lines) =
    let rest = rates_of lines in
    elim (search rate_in_line line) [ none ↦ rest | some rate ↦ rate ∷ rest ]

-- What the functions return: a text with the rate, `0`, or `(False, -1)`.
pub data Rate : Type 0 where
  rate : String → Rate
  no_rate rejected : Rate

unfoldable pub show_rate : Rate → String
show_rate (rate s) = s
show_rate no_rate = "0"
show_rate rejected = "(False, -1)"

abbrev pub is_zero_rate : Decimal → Bool
is_zero_rate d = d.mantissa == 0

abbrev distance : ℕ → ℕ → ℕ
distance a b = if ltb a b then b - a else a - b

-- `abs(bw - exp_rate) > exp_rate / 10`
abbrev pub far_from : ℕ → Decimal → Bool
far_from exp_rate d =
    ltb (exp_rate * 10 ^ d.scale) (distance (d.mantissa * 10) (exp_rate * 10 * 10 ^ d.scale))

-- The last rate, how many were zero, and whether the first one is still to come.
pub record Scanned : Type 0 where
  pub bw : Decimal
  pub zero_cnt : ℕ
  pub first_one : Bool

abbrev pub zeros_with : Scanned → Decimal → ℕ
zeros_with s d = if is_zero_rate d then s.zero_cnt + 1 else s.zero_cnt

-- The loop over the rates; `none` is the early return. Six zeros are too many, and the first second is
-- not compared with the expected rate.
unfoldable pub check_rates : ℕ → Scanned → List Numeral → Result (Option Decimal)
unfolding float_of
check_rates exp_rate s [] = ok (some s.bw)
check_rates exp_rate s (n ∷ ns) = chain (float_of n) (λ d.
    let zero_cnt = zeros_with s d in
    let later =
      check_rates exp_rate (record { bw = d; zero_cnt = zero_cnt; first_one = false }) ns in
    if is_zero_rate d && ltb 5 zero_cnt
    then ok none
    else if (ltb 0 exp_rate && not s.first_one) && far_from exp_rate d
    then ok none
    else later)

abbrev pub zero_decimal : Decimal
zero_decimal = record { mantissa = 0; scale = 0 }

abbrev rate_text : Decimal → String
rate_text d = fstr (show (d.mantissa / 10 ^ d.scale) ∷ " Kbits/sec" ∷ [])

abbrev pub start_scan : Scanned
start_scan = record { bw = zero_decimal; zero_cnt = 0; first_one = true }

abbrev pub judge_rates : ℕ → List Numeral → Result Rate
judge_rates exp_rate [] = ok (rate "0 Kbits/sec")
judge_rates exp_rate (n ∷ ns) =
    chain (check_rates exp_rate start_scan (n ∷ ns))
      (λ o. elim o [ none ↦ ok rejected | some d ↦ ok (rate (rate_text d)) ])

unfoldable pub verify_iperf_result : String → ℕ → Result Rate
unfolding rates_of check_rates
verify_iperf_result log exp_rate = judge_rates exp_rate (rates_of (readlines log))
