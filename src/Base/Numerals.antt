-- ===== src/Base/Numerals.antt =====
-- The decimal text of a number: it is made of digits, and it is read back as the number.
use Prim.Native.Nat.{ℕ, zero, suc, ◌+◌, ◌*◌, ◌/◌, ◌%◌, ◌≤◌, ◌<◌}
use Prim.Native.String.{String}
use mathlib.Core.Path.{◌≡◌, refl, ap, ◌∙◌}
use mathlib.Core.Logic.{inl, inr}
use mathlib.Core.Bool.{true}
use mathlib.Core.Option.{some}
use native.Mathlib.Omega.{arith}
use cne_ovs_sit.Base.Tests.{ltb, Bool-cases}
use cne_ovs_sit.Base.Text.{append, digit, decimal, show}
use cne_ovs_sit.Base.Parse.{is_digit, digits_from, unsigned}

digits_from-digit :
    (m d : ℕ) (out : String)
    → d < 10
    → digits_from m (append (digit d) out) ≡ digits_from (m * 10 + d) out
unfolding digits_from digit append
digits_from-digit m zero out h = refl
digits_from-digit m (suc zero) out h = refl
digits_from-digit m (suc (suc zero)) out h = refl
digits_from-digit m (suc (suc (suc zero))) out h = refl
digits_from-digit m (suc (suc (suc (suc zero)))) out h = refl
digits_from-digit m (suc (suc (suc (suc (suc zero))))) out h = refl
digits_from-digit m (suc (suc (suc (suc (suc (suc zero)))))) out h = refl
digits_from-digit m (suc (suc (suc (suc (suc (suc (suc zero))))))) out h = refl
digits_from-digit m (suc (suc (suc (suc (suc (suc (suc (suc zero)))))))) out h = refl
digits_from-digit m (suc (suc (suc (suc (suc (suc (suc (suc (suc zero))))))))) out h = refl
digits_from-digit m (suc (suc (suc (suc (suc (suc (suc (suc (suc (suc d)))))))))) out h =
    let bad : ⊥ = omega arith in elim bad [ ]

digits_from-decimal :
    (fuel n : ℕ) (out : String) → n ≤ fuel → digits_from 0 (decimal fuel n out) ≡ digits_from n out
unfolding decimal
digits_from-decimal zero n out h =
    digits_from-digit 0 n out (omega arith) ∙ ap (λ k. digits_from k out) (omega arith)
digits_from-decimal (suc fuel) n out h = elim (Bool-cases (ltb n 10)) [
  | inl small ↦
      let less : n < 10 = ground arith in
      rw small (digits_from-digit 0 n out less ∙ ap (λ k. digits_from k out) (omega arith))
  | inr large ↦
      let more : 10 ≤ n = ground arith in
      rw large (
        digits_from-decimal fuel (n / 10) (append (digit (n % 10)) out) (omega arith)
        ∙ digits_from-digit (n / 10) (n % 10) out (omega arith)
        ∙ ap (λ k. digits_from k out) (omega arith))
]

-- A text of digits only.
abbrev pub AllDigits : String → Type 0
AllDigits String.[] = Unit
AllDigits (String.◌∷◌ c s) = (is_digit c ≡ true) × AllDigits s

AllDigits-digit : (d : ℕ) (out : String) → AllDigits out → AllDigits (append (digit d) out)
unfolding digit append
AllDigits-digit zero out h = (refl, h)
AllDigits-digit (suc zero) out h = (refl, h)
AllDigits-digit (suc (suc zero)) out h = (refl, h)
AllDigits-digit (suc (suc (suc zero))) out h = (refl, h)
AllDigits-digit (suc (suc (suc (suc zero)))) out h = (refl, h)
AllDigits-digit (suc (suc (suc (suc (suc zero))))) out h = (refl, h)
AllDigits-digit (suc (suc (suc (suc (suc (suc zero)))))) out h = (refl, h)
AllDigits-digit (suc (suc (suc (suc (suc (suc (suc zero))))))) out h = (refl, h)
AllDigits-digit (suc (suc (suc (suc (suc (suc (suc (suc zero)))))))) out h = (refl, h)
AllDigits-digit (suc (suc (suc (suc (suc (suc (suc (suc (suc d))))))))) out h = (refl, h)

AllDigits-decimal : (fuel n : ℕ) (out : String) → AllDigits out → AllDigits (decimal fuel n out)
unfolding decimal
AllDigits-decimal zero n out h = AllDigits-digit n out h
AllDigits-decimal (suc fuel) n out h = elim (Bool-cases (ltb n 10)) [
  | inl small ↦ rw small (AllDigits-digit n out h)
  | inr large ↦ rw large (AllDigits-decimal fuel (n / 10) _ (AllDigits-digit (n % 10) out h))
]

pub AllDigits-show : (n : ℕ) → AllDigits (show n)
unfolding show
AllDigits-show n = AllDigits-decimal n n "" tt

digits_from-show : (n : ℕ) → digits_from 0 (show n) ≡ some n
unfolding show digits_from
digits_from-show n = digits_from-decimal n n "" (omega arith)

-- The text has a first character.
unsigned-digit :
    (d : ℕ) (out : String) → unsigned (append (digit d) out) ≡ digits_from 0 (append (digit d) out)
unfolding unsigned digit append
unsigned-digit zero out = refl
unsigned-digit (suc zero) out = refl
unsigned-digit (suc (suc zero)) out = refl
unsigned-digit (suc (suc (suc zero))) out = refl
unsigned-digit (suc (suc (suc (suc zero)))) out = refl
unsigned-digit (suc (suc (suc (suc (suc zero))))) out = refl
unsigned-digit (suc (suc (suc (suc (suc (suc zero)))))) out = refl
unsigned-digit (suc (suc (suc (suc (suc (suc (suc zero))))))) out = refl
unsigned-digit (suc (suc (suc (suc (suc (suc (suc (suc zero)))))))) out = refl
unsigned-digit (suc (suc (suc (suc (suc (suc (suc (suc (suc d))))))))) out = refl

unsigned-decimal :
    (fuel n : ℕ) (out : String) → unsigned (decimal fuel n out) ≡ digits_from 0 (decimal fuel n out)
unfolding decimal
unsigned-decimal zero n out = unsigned-digit n out
unsigned-decimal (suc fuel) n out = elim (Bool-cases (ltb n 10)) [
  | inl small ↦ rw small (unsigned-digit n out)
  | inr large ↦ rw large (unsigned-decimal fuel (n / 10) _)
]

pub unsigned-show : (n : ℕ) → unsigned (show n) ≡ some n
unfolding show
unsigned-show n = unsigned-decimal n n "" ∙ digits_from-show n
