-- ===== src/Switch/Vnis.antt =====
-- _bridge_add_vni, _bridge_add_vif and VirtualSwitch.refresh_bridge_vnis
-- (resources/libraries/python/vswitch.py).
pub mod Grouping
use cne_ovs_sit.Base.{
  ℕ, List, [], ◌∷◌, ◌++◌, map, get_elem?, Option, none, some, Value, value_eq, if◌then◌else◌,
}
use cne_ovs_sit.Vif.{VirtualInterface}
use cne_ovs_sit.Switch.State.{Bridge, VirtualSwitch}

-- `br.vnis` as a dict in insertion order: a new key gets an empty list first.
unfoldable pub append_vni : Value → ℕ → List (Value × List ℕ) → List (Value × List ℕ)
append_vni vni vif [] = (vni, vif ∷ []) ∷ []
append_vni vni vif ((k, members) ∷ vnis) =
    if value_eq k vni
    then (k, members ++ vif ∷ []) ∷ vnis
    else (k, members) ∷ append_vni vni vif vnis

-- The VNI is the one that the interface has at this moment.
unfoldable pub add_vni : List VirtualInterface → ℕ → List (Value × List ℕ) → List (Value × List ℕ)
add_vni heap vif vnis = elim (get_elem? heap vif) [
  | none ↦ vnis
  | some v ↦ append_vni v.vni vif vnis
]

unfoldable pub bridge_add_vni : List VirtualInterface → ℕ → Bridge → Bridge
bridge_add_vni heap vif br = record br { vnis = add_vni heap vif br.vnis }

unfoldable pub bridge_add_vif : List VirtualInterface → ℕ → Bridge → Bridge
unfolding bridge_add_vni
bridge_add_vif heap vif br = bridge_add_vni heap vif (record br { vifs = br.vifs ++ vif ∷ [] })

unfoldable pub add_vnis :
    List VirtualInterface → List ℕ → List (Value × List ℕ) → List (Value × List ℕ)
add_vnis heap [] vnis = vnis
add_vnis heap (vif ∷ vifs) vnis = add_vnis heap vifs (add_vni heap vif vnis)

unfoldable pub refresh_vnis : List VirtualInterface → Bridge → Bridge
refresh_vnis heap br = record br { vnis = add_vnis heap br.vifs [] }

unfoldable pub refresh_bridge_vnis : VirtualSwitch → VirtualSwitch
unfolding refresh_vnis add_vnis
refresh_bridge_vnis s = record s { bridges = map (refresh_vnis s.vif_heap) s.bridges }
