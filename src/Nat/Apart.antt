-- ===== src/Nat/Apart.antt =====
-- End points that are different interfaces (EndPoint in resources/libraries/python/pal.py).
use cne_ovs_sit.Base.{
  ℕ, zero, suc, List, [], ◌∷◌, All, modify_at, ◌≡◌, ◌≢◌, refl, ap, ◌⊎◌, inl, inr,
}
use cne_ovs_sit.Vif.{VirtualInterface}
use cne_ovs_sit.Pal.Topology.{EndPoint}
use cne_ovs_sit.Nat.Heaps.{Heaps, edit}

-- Two end points are not the same interface.
abbrev pub Apart : EndPoint → EndPoint → Type 0
Apart p q = (p.host ≢ q.host) ⊎ (p.vif ≢ q.vif)

abbrev pub AllApart : List EndPoint → Type 0
AllApart [] = Unit
AllApart (p ∷ ps) = All (Apart p) ps × AllApart ps

modify_at-modify_at_commuting :
    {A : Type 0} (xs : List A) (i j : ℕ) (f g : A → A)
    → ((x : A) → g (f x) ≡ f (g x))
    → modify_at (modify_at xs i f) j g ≡ modify_at (modify_at xs j g) i f
modify_at-modify_at_commuting [] i j f g h = refl
modify_at-modify_at_commuting (x ∷ xs) zero zero f g h = cc (h x)
modify_at-modify_at_commuting (x ∷ xs) zero (suc j) f g h = refl
modify_at-modify_at_commuting (x ∷ xs) (suc i) zero f g h = refl
modify_at-modify_at_commuting (x ∷ xs) (suc i) (suc j) f g h =
    ap (λ ys. x ∷ ys) (modify_at-modify_at_commuting xs i j f g h)

modify_at-modify_at_other :
    {A : Type 0} (xs : List A) (i j : ℕ) (f g : A → A)
    → i ≢ j
    → modify_at (modify_at xs i f) j g ≡ modify_at (modify_at xs j g) i f
modify_at-modify_at_other [] i j f g differ = refl
modify_at-modify_at_other (x ∷ xs) zero zero f g differ = elim (differ refl) [ ]
modify_at-modify_at_other (x ∷ xs) zero (suc j) f g differ = refl
modify_at-modify_at_other (x ∷ xs) (suc i) zero f g differ = refl
modify_at-modify_at_other (x ∷ xs) (suc i) (suc j) f g differ =
    ap (λ ys. x ∷ ys) (modify_at-modify_at_other xs i j f g (λ same. differ (ap suc same)))

pub edit-Apart :
    (p q : EndPoint) (f g : VirtualInterface → VirtualInterface) (hs : Heaps)
    → Apart p q
    → edit q g (edit p f hs) ≡ edit p f (edit q g hs)
edit-Apart p q f g hs (inl hosts) = modify_at-modify_at_other hs p.host q.host _ _ hosts
edit-Apart p q f g hs (inr vifs) =
    modify_at-modify_at_commuting hs p.host q.host (λ heap. modify_at heap p.vif f)
      (λ heap. modify_at heap q.vif g) (λ heap. modify_at-modify_at_other heap p.vif q.vif f g vifs)
