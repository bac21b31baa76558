-- ===== src/Switch/Vnis/Grouping.antt =====
-- The VNI map of a bridge (br.vnis in resources/libraries/python/vswitch.py) against a description
-- that names neither the order of the calls nor the dict: the members of a VNI, in the bridge's order.
use cne_ovs_sit.Base.{
  ℕ, Bool, false, List, [], ◌∷◌, ◌++◌, map, get_elem?, select, select-append, All, Option, none,
  some, Option-cases, Bool-cases, inl, inr, Value, value_eq, value_eq_iff, if◌then◌else◌, ◌≡◌, refl,
  sym, ap, arith,
}
use mathlib.Core.List.{append-nil, append_assoc}
use cne_ovs_sit.Vif.{VirtualInterface}
use cne_ovs_sit.Switch.State.{Bridge, VirtualSwitch}
use cne_ovs_sit.Switch.Vnis.{
  append_vni, add_vni, add_vnis, bridge_add_vif, bridge_add_vni, refresh_vnis, refresh_bridge_vnis,
}

abbrev pub lookup : Value → List (Value × List ℕ) → Option (List ℕ)
lookup vni [] = none
lookup vni ((k, members) ∷ vnis) = if value_eq k vni then some members else lookup vni vnis

abbrev has_vni : List VirtualInterface → Value → ℕ → Bool
has_vni heap vni vif = elim (get_elem? heap vif) [ none ↦ false | some v ↦ value_eq v.vni vni ]

-- A list under a key: the key is there only with a member.
abbrev nonempty : List ℕ → Option (List ℕ)
nonempty [] = none
nonempty (x ∷ xs) = some (x ∷ xs)

-- Each VNI is mapped to exactly the bridge's interfaces that have it, in the bridge's order, and a
-- VNI that no interface has is not in the map.
abbrev pub IsGrouped : List VirtualInterface → Bridge → Type 0
IsGrouped heap br =
    (vni : Value) → lookup vni br.vnis ≡ nonempty (select (has_vni heap vni) br.vifs)

-- A list of members behind those that a key has already.
abbrev extend : Option (List ℕ) → List ℕ → Option (List ℕ)
extend none members = nonempty members
extend (some old) members = some (old ++ members)

lookup-append_vni :
    (k vni : Value) (vif : ℕ) (vnis : List (Value × List ℕ))
    → lookup k (append_vni vni vif vnis)
      ≡ (if value_eq vni k then extend (lookup k vnis) (vif ∷ []) else lookup k vnis)
unfolding append_vni
lookup-append_vni k vni vif [] = ground arith
lookup-append_vni k vni vif ((j, members) ∷ vnis) = ground (
  arith,
  value_eq_iff j vni,
  value_eq_iff j k,
  value_eq_iff vni k,
  lookup-append_vni k vni vif vnis,
)

extend-append :
    (o : Option (List ℕ)) (xs ys : List ℕ) → extend (extend o xs) ys ≡ extend o (xs ++ ys)
extend-append none [] ys = refl
extend-append none (x ∷ xs) ys = refl
extend-append (some old) xs ys = cc (append_assoc old xs ys)

extend-nil : (o : Option (List ℕ)) → extend o [] ≡ o
extend-nil none = refl
extend-nil (some old) = cc (append-nil old)

extend-nonempty : (xs : List ℕ) (y : ℕ) → extend (nonempty xs) (y ∷ []) ≡ nonempty (xs ++ y ∷ [])
extend-nonempty [] y = refl
extend-nonempty (x ∷ xs) y = refl

lookup-add_vni :
    (heap : List VirtualInterface) (k : Value) (vif : ℕ) (vnis : List (Value × List ℕ))
    → lookup k (add_vni heap vif vnis)
      ≡ (if has_vni heap k vif then extend (lookup k vnis) (vif ∷ []) else lookup k vnis)
unfolding add_vni
lookup-add_vni heap k vif vnis = elim (Option-cases (get_elem? heap vif)) [
  | inl dangling ↦ rw (dangling, add_vni, has_vni)
  | inr (v, e) ↦ rw (e, add_vni, has_vni) (lookup-append_vni k v.vni vif vnis)
]

lookup-add_vnis :
    (heap : List VirtualInterface) (k : Value) (vifs : List ℕ) (vnis : List (Value × List ℕ))
    → lookup k (add_vnis heap vifs vnis) ≡ extend (lookup k vnis) (select (has_vni heap k) vifs)
unfolding add_vnis
lookup-add_vnis heap k [] vnis = sym (extend-nil (lookup k vnis))
lookup-add_vnis heap k (vif ∷ vifs) vnis =
    rw (lookup-add_vnis heap k vifs (add_vni heap vif vnis), lookup-add_vni heap k vif vnis)
      (elim (Bool-cases (has_vni heap k vif)) [
        | inl e ↦ rw e (extend-append (lookup k vnis) (vif ∷ []) _)
        | inr e ↦ rw e
      ])

-- After a refresh the map groups the bridge's interfaces by VNI, whatever it held before.
pub refresh_vnis-IsGrouped :
    (heap : List VirtualInterface) (br : Bridge) → IsGrouped heap (refresh_vnis heap br)
unfolding refresh_vnis
refresh_vnis-IsGrouped heap br vni = lookup-add_vnis heap vni br.vifs []

refresh-All :
    (heap : List VirtualInterface) (brs : List Bridge)
    → All (IsGrouped heap) (map (refresh_vnis heap) brs)
refresh-All heap [] = tt
refresh-All heap (br ∷ brs) = (refresh_vnis-IsGrouped heap br, refresh-All heap brs)

-- After refresh_bridge_vnis every bridge of the switch maps each VNI to exactly those of its
-- interfaces that have it, in the bridge's order, and no VNI that none has. It needs no hypothesis:
-- what the maps held before is forgotten.
pub refresh_bridge_vnis-IsGrouped :
    (s : VirtualSwitch) → All (IsGrouped s.vif_heap) (refresh_bridge_vnis s).bridges
unfolding refresh_bridge_vnis
refresh_bridge_vnis-IsGrouped s = refresh-All s.vif_heap s.bridges

-- Adding an interface to a bridge whose VNI map is grouped keeps it grouped.
pub bridge_add_vif-IsGrouped :
    (heap : List VirtualInterface) (vif : ℕ) (br : Bridge)
    → IsGrouped heap br
    → IsGrouped heap (bridge_add_vif heap vif br)
unfolding bridge_add_vif bridge_add_vni
bridge_add_vif-IsGrouped heap vif br h vni =
    rw
      (
        lookup-add_vni heap vni vif br.vnis,
        h vni,
        select-append (has_vni heap vni) br.vifs (vif ∷ []),
      )
      (elim (Bool-cases (has_vni heap vni vif)) [
        | inl e ↦ rw e (extend-nonempty (select (has_vni heap vni) br.vifs) vif)
        | inr e ↦ rw e (ap nonempty (sym (append-nil (select (has_vni heap vni) br.vifs))))
      ])
