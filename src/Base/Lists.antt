-- ===== src/Base/Lists.antt =====
-- Lists over the native numbers.
use Prim.Native.Nat.{ℕ, zero, suc, ◌+◌}
use mathlib.Core.Path.{◌≡◌, refl, sym, subst}
use mathlib.Core.Bool.{Bool}
use mathlib.Core.Option.{Option, none, some}
use mathlib.Core.List.{List, [], ◌∷◌, ◌++◌}
use native.Mathlib.Omega.{arith}
use cne_ovs_sit.Base.Tests.{◌==◌, if◌then◌else◌}

module _ {ℓ} {A : Type ℓ} where
  pub some-injective : {x y : A} → some x ≡ some y → x ≡ y
  some-injective h = cc

  abbrev pub length : List A → ℕ
  length [] = 0
  length (x ∷ xs) = suc (length xs)

  abbrev pub get_elem? : List A → ℕ → Option A
  get_elem? [] i = none
  get_elem? (x ∷ xs) zero = some x
  get_elem? (x ∷ xs) (suc i) = get_elem? xs i

  -- Out of range nothing changes.
  abbrev pub modify_at : List A → ℕ → (A → A) → List A
  modify_at [] i f = []
  modify_at (x ∷ xs) zero f = f x ∷ xs
  modify_at (x ∷ xs) (suc i) f = x ∷ modify_at xs i f

  abbrev pub erase_idx : List A → ℕ → List A
  erase_idx [] i = []
  erase_idx (x ∷ xs) zero = xs
  erase_idx (x ∷ xs) (suc i) = x ∷ erase_idx xs i

  -- The library's `filter` takes a decision: this one takes a test.
  abbrev pub select : (A → Bool) → List A → List A
  select p [] = []
  select p (x ∷ xs) = if p x then x ∷ select p xs else select p xs

  abbrev pub All {κ} : (A → Type κ) → List A → Type κ
  All P [] = Unit
  All P (x ∷ xs) = P x × All P xs

  abbrev pub Pairwise : (A → A → Type 0) → List A → List A → Type 0
  Pairwise R [] [] = Unit
  Pairwise R [] (y ∷ ys) = ⊥
  Pairwise R (x ∷ xs) [] = ⊥
  Pairwise R (x ∷ xs) (y ∷ ys) = R x y × Pairwise R xs ys

  pub All-append {κ} : (P : A → Type κ) (xs ys : List A) → All P xs → All P ys → All P (xs ++ ys)
  All-append P [] ys h k = k
  All-append P (x ∷ xs) ys h k = (h.0, All-append P xs ys h.1 k)

  pub All-map {κ μ} :
      {P : A → Type κ} {Q : A → Type μ}
      → ((x : A) → P x → Q x)
      → (xs : List A) → All P xs
      → All Q xs
  All-map f [] h = tt
  All-map f (x ∷ xs) h = (f x h.0, All-map f xs h.1)

  pub All-modify_at {κ} :
      (P : A → Type κ) (xs : List A) (i : ℕ) (f : A → A) {x : A}
      → All P xs
      → get_elem? xs i ≡ some x
      → (P x → P (f x))
      → All P (modify_at xs i f)
  All-modify_at P [] i f h at k = tt
  All-modify_at P (y ∷ ys) zero f h at k =
      (subst (λ z. P z → P (f z)) (some-injective (sym at)) k h.0, h.1)
  All-modify_at P (y ∷ ys) (suc i) f h at k = (h.0, All-modify_at P ys i f h.1 at k)

  pub All-get_elem? {κ} :
      (P : A → Type κ) (xs : List A) (i : ℕ) {x : A} → All P xs → get_elem? xs i ≡ some x → P x
  All-get_elem? P [] i h at = cc
  All-get_elem? P (y ∷ ys) zero h at = subst P (some-injective at) h.0
  All-get_elem? P (y ∷ ys) (suc i) h at = All-get_elem? P ys i h.1 at

  pub length-append : (xs ys : List A) → length (xs ++ ys) ≡ length xs + length ys
  length-append [] ys = omega arith
  length-append (x ∷ xs) ys = omega (arith, length-append xs ys)

  pub length-modify_at : (xs : List A) (i : ℕ) (f : A → A) → length (modify_at xs i f) ≡ length xs
  length-modify_at [] i f = refl
  length-modify_at (x ∷ xs) zero f = refl
  length-modify_at (x ∷ xs) (suc i) f = omega (arith, length-modify_at xs i f)

  pub modify_at-modify_at :
      (xs : List A) (i : ℕ) (f g : A → A)
      → modify_at (modify_at xs i f) i g ≡ modify_at xs i (λ x. g (f x))
  modify_at-modify_at [] i f g = refl
  modify_at-modify_at (x ∷ xs) zero f g = refl
  modify_at-modify_at (x ∷ xs) (suc i) f g = cc (modify_at-modify_at xs i f g)

  pub get_elem?-modify_at_self :
      (xs : List A) (i : ℕ) (f : A → A) {x : A}
      → get_elem? xs i ≡ some x
      → get_elem? (modify_at xs i f) i ≡ some (f x)
  get_elem?-modify_at_self [] i f h = cc
  get_elem?-modify_at_self (x ∷ xs) zero f h = cc
  get_elem?-modify_at_self (x ∷ xs) (suc i) f h = get_elem?-modify_at_self xs i f h

  pub get_elem?-append_last : (xs : List A) (y : A) → get_elem? (xs ++ y ∷ []) (length xs) ≡ some y
  get_elem?-append_last [] y = refl
  get_elem?-append_last (x ∷ xs) y = get_elem?-append_last xs y

  pub modify_at-append_last :
      (xs : List A) (y : A) (f : A → A) → modify_at (xs ++ y ∷ []) (length xs) f ≡ xs ++ f y ∷ []
  modify_at-append_last [] y f = refl
  modify_at-append_last (x ∷ xs) y f = cc (modify_at-append_last xs y f)

  pub select-append :
      (p : A → Bool) (xs ys : List A) → select p (xs ++ ys) ≡ select p xs ++ select p ys
  select-append p [] ys = refl
  select-append p (x ∷ xs) ys = ground (arith, select-append p xs ys)

-- How often a number stands in a list.
abbrev pub count : ℕ → List ℕ → ℕ
count a [] = 0
count a (x ∷ xs) = (if a == x then 1 else 0) + count a xs

pub count-append :
    (n : ℕ) (first more : List ℕ) → count n first + count n more ≡ count n (first ++ more)
count-append n [] more = omega arith
count-append n (head ∷ tail) more = omega (count-append n tail more, arith)

-- Python's `range(first, first + n)`.
unfoldable pub range : ℕ → ℕ → List ℕ
range first zero = []
range first (suc n) = first ∷ range (first + 1) n
