-- ===== src/Tests/GuestTests.antt =====
-- Commands and outputs of a guest.
use cne_ovs_sit.Base.{
  String, false, [], ◌∷◌, append, some, none, ok, not, ltb, ◌==◌, if◌then◌else◌, ◌+◌, ◌≡◌, refl,
  arith, unsigned, digits_from,
}
use cne_ovs_sit.Guest.Scan.{number_of}
use cne_ovs_sit.Guest.Ping.{verify_ping_result}
use cne_ovs_sit.Guest.Iperf.{Decimal, Numeral, float_of, zero_decimal, start_scan, check_rates}
use cne_ovs_sit.Guest.Rates.{zero_rates, last_rate, check_rates-zero_rates}
use cne_ovs_sit.Guest.Summary.{summary, verify_ping_result-summary}

abbrev cmd : String
cmd = "poweroff"

abbrev half : Decimal
half = record { mantissa = 125; scale = 1 }

abbrev numeral : Numeral
numeral = ("12", 1, "5")

numeral-read : float_of numeral ≡ ok half
unfolding float_of number_of unsigned digits_from append
numeral-read = refl

check_rates-zero_rates_example :
    check_rates 0 start_scan (numeral ∷ [])
    ≡ ok (
        if ltb 5 (start_scan.zero_cnt + zero_rates (half ∷ []))
        then none
        else some (last_rate zero_decimal (half ∷ [])))
check_rates-zero_rates_example =
    check_rates-zero_rates start_scan (numeral ∷ []) (half ∷ []) (omega arith) (numeral-read, tt)

verify_ping_result-summary_example :
    verify_ping_result (summary 5 5 ", 0% packet loss") 5
    ≡ ok (if 5 == 5 then not (ltb 5 5) else false)
verify_ping_result-summary_example = verify_ping_result-summary 5 5 5 ", 0% packet loss"
