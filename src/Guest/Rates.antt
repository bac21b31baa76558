-- ===== src/Guest/Rates.antt =====
-- What _verify_iperf_result (resources/libraries/python/guest.py) makes of the rates of a run.
use cne_ovs_sit.Base.{
  ℕ, ◌+◌, ◌≤◌, ◌&&◌, Bool, true, false, List, [], ◌∷◌, Option, none, some, ltb, Result, ok, ◌≡◌,
  refl, ap, ◌∙◌, inl, inr, Bool-cases, if◌then◌else◌, arith,
}
use cne_ovs_sit.Guest.Iperf.{
  Decimal, Numeral, float_of, is_zero_rate, zeros_with, Scanned, check_rates,
}

-- The rates that are zero, and the last rate behind one that is known.
abbrev pub zero_rates : List Decimal → ℕ
zero_rates [] = 0
zero_rates (d ∷ ds) = (if is_zero_rate d then 1 else 0) + zero_rates ds

abbrev pub last_rate : Decimal → List Decimal → Decimal
last_rate bw [] = bw
last_rate bw (d ∷ ds) = last_rate d ds

-- The texts are these numbers.
abbrev pub Reads : List Numeral → List Decimal → Type 0
Reads [] [] = Unit
Reads [] (d ∷ ds) = ⊥
Reads (n ∷ ns) [] = ⊥
Reads (n ∷ ns) (d ∷ ds) = (float_of n ≡ ok d) × Reads ns ds

-- One round of the loop, where the rest of it is as it should be as long as it is reached.
round :
    (b : Bool) (cnt zs : ℕ) (bw : Decimal) (later : Result (Option Decimal))
    → cnt ≤ 5
    → ((if b then cnt + 1 else cnt) ≤ 5
        → later ≡ ok (if ltb 5 ((if b then cnt + 1 else cnt) + zs) then none else some bw))
    → (if b && ltb 5 (if b then cnt + 1 else cnt) then ok none else later)
      ≡ ok (if ltb 5 (cnt + ((if b then 1 else 0) + zs)) then none else some bw)
round false cnt zs bw later few rest =
    rest few ∙ ap (λ n. ok (if ltb 5 n then none else some bw)) (omega arith)
round true cnt zs bw later few rest = elim (Bool-cases (ltb 5 (cnt + 1))) [
  | inl over ↦ let total : ltb 5 (cnt + (1 + zs)) ≡ true = ground arith in rw (over, total) refl
  | inr under ↦
      let small : cnt + 1 ≤ 5 = ground arith in
      rw under (rest small ∙ ap (λ n. ok (if ltb 5 n then none else some bw)) (omega arith))
]

-- Without an expected rate, which is how the tests call it, the loop gives the last rate where at most
-- five rates are zero, and is refused where more are.
pub check_rates-zero_rates :
    (s : Scanned) (ns : List Numeral) (ds : List Decimal)
    → s.zero_cnt ≤ 5
    → Reads ns ds
    → check_rates 0 s ns
      ≡ ok (if ltb 5 (s.zero_cnt + zero_rates ds) then none else some (last_rate s.bw ds))
unfolding check_rates
check_rates-zero_rates s [] [] few reads =
    let total : ltb 5 (s.zero_cnt + 0) ≡ false = ground arith in rw total refl
check_rates-zero_rates s [] (d ∷ ds) few reads = elim reads [ ]
check_rates-zero_rates s (n ∷ ns) [] few reads = elim reads [ ]
check_rates-zero_rates s (n ∷ ns) (d ∷ ds) few reads =
    let (read, more) = reads in
    let next : Scanned = record { bw = d; zero_cnt = zeros_with s d; first_one = false } in
    rw read (
      round (is_zero_rate d) s.zero_cnt (zero_rates ds) (last_rate d ds) (check_rates 0 next ns) few
        (λ small. check_rates-zero_rates next ns ds small more))
