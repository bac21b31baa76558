-- ===== src/Base/Effects.antt =====
-- Statements that mutate a state and may raise. What was written before an exception stays written.
use Prim.Native.String.{String}
use mathlib.Core.Path.{◌≡◌, refl}
use mathlib.Core.Logic.{◌⊎◌, inl, inr}
use mathlib.Core.List.{List, [], ◌∷◌}
use mathlib.Core.Option.{Option, none, some}
use mathlib.Core.Bool.{Bool, true, false}
use cne_ovs_sit.Base.Tests.{if◌then◌else◌}

-- The exceptions that the program raises or runs into.
pub data PyError : Type 0 where
  runtime_error : String → PyError
  attribute_error index_error value_error type_error io_error ssh_timeout system_exit : PyError

pub data Result (A : Type 0) : Type 0 where
  ok : A → Result A
  err : PyError → Result A

abbrev pub Action : Type 0 → Type 0 → Type 0
Action S A = S → Result A × S

pub Result-cases :
    {A : Type 0} (r : Result A) → ((a : A) × (r ≡ ok a)) ⊎ ((e : PyError) × (r ≡ err e))
Result-cases (ok a) = inl (a, refl)
Result-cases (err e) = inr (e, refl)

pub ok-injective : {A : Type 0} {x y : A} → ok x ≡ ok y → x ≡ y
ok-injective h = cc

-- The second step on the value of the first.
abbrev pub chain : {A B : Type 0} → Result A → (A → Result B) → Result B
chain (ok a) f = f a
chain (err e) f = err e

pub chain-ok :
    {A B : Type 0} (r : Result A) (f : A → Result B) {b : B}
    → chain r f ≡ ok b
    → (a : A) × (r ≡ ok a) × (f a ≡ ok b)
chain-ok (ok a) f h = (a, refl, h)
chain-ok (err e) f h = cc

module _ {S A : Type 0} where
  abbrev pub pure : A → Action S A
  pure a s = (ok a, s)

  abbrev pub raise : PyError → Action S A
  raise e s = (err e, s)

  abbrev pub gets : (S → A) → Action S A
  gets f s = (ok (f s), s)

  abbrev pub or_raise : Option A → PyError → Action S A
  or_raise none e = raise e
  or_raise (some a) e = pure a

  abbrev pub lift : Result A → Action S A
  lift r s = (r, s)

abbrev pub modify : {S : Type 0} → (S → S) → Action S (Unit {0})
modify f s = (ok tt, f s)

module _ {S A B : Type 0} where
  abbrev pub and_then : Result A → (A → Action S B) → Action S B
  and_then (ok a) f = f a
  and_then (err e) f = raise e

  infixl 5 ◌>>=◌ ◌>>◌
  abbrev pub ◌>>=◌ : Action S A → (A → Action S B) → Action S B
  m >>= f = λ s. let (r, s') = m s in and_then r f s'

  abbrev pub ◌>>◌ : Action S A → Action S B → Action S B
  m >> k = m >>= λ _. k

-- `for x in xs: body(x)`, for a body that leaves `xs` alone.
unfoldable pub for_each : {S A : Type 0} → List A → (A → Action S (Unit {0})) → Action S (Unit {0})
for_each [] body = pure tt
for_each (x ∷ xs) body = do body x; for_each xs body

-- To prove a postcondition of a statement and what follows it.
pub bind_post {κ} :
    {S A B : Type 0} (Q : Result B × S → Type κ) (m : Action S A) (f : A → Action S B) (s : S)
    → ((e : PyError) → (m s).0 ≡ err e → Q (err e, (m s).1))
    → ((a : A) → (m s).0 ≡ ok a → Q (f a (m s).1))
    → Q ((m >>= f) s)
bind_post Q m f s failed passed = elim (Result-cases (m s).0) [
  | inl (a, h) ↦ rw h (passed a h)
  | inr (e, h) ↦ rw h (failed e h)
]

pub bind-ok :
    {S A B : Type 0} (m : Action S A) (f : A → Action S B) (s : S) {b : B}
    → ((m >>= f) s).0 ≡ ok b
    → (a : A) × ((m s).0 ≡ ok a) × ((f a (m s).1).0 ≡ ok b)
bind-ok {S} {A} {B} m f s {b} = passes (m s)
  where
    passes :
        (p : Result A × S)
        → (and_then p.0 f p.1).0 ≡ ok b
        → (a : A) × (p.0 ≡ ok a) × ((f a p.1).0 ≡ ok b)
    passes (ok a, s') h = (a, refl, h)
    passes (err e, s') h = cc

pub or_raise-ok :
    {S A B : Type 0} (o : Option A) (e : PyError) (f : A → Action S B) (s : S) {b : B}
    → ((or_raise o e >>= f) s).0 ≡ ok b
    → (a : A) × (o ≡ some a) × ((f a s).0 ≡ ok b)
or_raise-ok none e f s h = cc
or_raise-ok (some a) e f s h = (a, refl, h)

pub if-ok :
    {S A : Type 0} (c : Bool) (m k : Action S A) (s : S) {a : A}
    → ((if c then m else k) s).0 ≡ ok a
    → ((c ≡ true) × ((m s).0 ≡ ok a)) ⊎ ((c ≡ false) × ((k s).0 ≡ ok a))
if-ok true m k s h = inl (refl, h)
if-ok false m k s h = inr (refl, h)

pub and_then-agree :
    {S A B : Type 0} (r : Result A) (f g : A → Action S B) (s : S)
    → ((a : A) → f a s ≡ g a s)
    → and_then r f s ≡ and_then r g s
and_then-agree (ok a) f g s h = h a
and_then-agree (err e) f g s h = refl

-- A statement that returns hands its value and its state on.
pub bind_run :
    {S A B : Type 0} (m : Action S A) (f : A → Action S B) (s : S) {a : A}
    → (m s).0 ≡ ok a
    → (m >>= f) s ≡ f a (m s).1
bind_run m f s h = rw h refl
