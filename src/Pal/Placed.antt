-- ===== src/Pal/Placed.antt =====
-- What it means that a verify topology (resources/libraries/python/pal.py) fits the nodes.
use cne_ovs_sit.Base.{
  ℕ, Bool, true, false, List, [], ◌∷◌, get_elem?, All, some, value_eq, inl, inr, ◌⊎◌, ok, ◌==◌, ◌≡◌,
  refl,
}
use cne_ovs_sit.Vif.{VirtualInterface, has_same_subnet}
use cne_ovs_sit.World.{VirtualMachine, Sut, World, get_vms}
use cne_ovs_sit.Pal.Topology.{EndPoint, VerifyTopologyEntry, VerifyTopology}
use cne_ovs_sit.Pal.Select.{Locality, undef, numa, xnuma, xhost, Source}

-- The nearness of a destination, by the tests on its node and its NUMA node.
abbrev pub Near : Locality → Bool → Bool → Type 0
Near xhost same_host same_numa = same_host ≡ false
Near xnuma same_host same_numa = (same_host ≡ true) × (same_numa ≡ false)
Near numa same_host same_numa = (same_host ≡ true) × (same_numa ≡ true)
Near undef same_host same_numa = Unit

-- A reference stands in a list.
abbrev pub IsIn : ℕ → List ℕ → Type 0
IsIn r [] = ⊥
IsIn r (q ∷ qs) = (r ≡ q) ⊎ IsIn r qs

IsIn-weaken : (q : ℕ) (ps qs : List ℕ) → All (λ r. IsIn r qs) ps → All (λ r. IsIn r (q ∷ qs)) ps
IsIn-weaken q [] qs h = tt
IsIn-weaken q (p ∷ ps) qs h = (inr h.0, IsIn-weaken q ps qs h.1)

pub IsIn-self : (qs : List ℕ) → All (λ r. IsIn r qs) qs
IsIn-self [] = tt
IsIn-self (q ∷ qs) = (inl refl, IsIn-weaken q qs qs (IsIn-self qs))

-- A destination is an interface of a machine of a node, which the machine lists; it is in the
-- source's subnet, its VNI is the source's exactly if it is allowed, and it stands in the list of its
-- nearness.
abbrev pub IsPlaced : World → Source → Bool → Locality → EndPoint → Type 0
IsPlaced suts src allowed loc dep =
    (sut : Sut) × (vm : VirtualMachine) × (face : VirtualInterface) × (get_elem? suts dep.host
      ≡ some sut)
    × (get_elem? (get_vms sut) dep.guest ≡ some vm)
    × IsIn dep.vif vm.vifs
    × (get_elem? sut.vswitch.vif_heap dep.vif ≡ some face)
    × (has_same_subnet face src.face ≡ ok true)
    × (value_eq face.vni src.face.vni ≡ allowed)
    × Near loc (src.point.host == dep.host) (src.machine.numa_id == vm.numa_id)

abbrev pub IsEntry : World → Source → Bool → VerifyTopologyEntry → Type 0
IsEntry suts src allowed vte =
    (vte.sep ≡ src.point)
    × All (IsPlaced suts src allowed numa) vte.dep_numa
    × All (IsPlaced suts src allowed xnuma) vte.dep_xnuma
    × All (IsPlaced suts src allowed xhost) vte.dep_xhost

-- At most one entry, the source's.
abbrev pub AtMostOne : (VerifyTopologyEntry → Type 0) → List VerifyTopologyEntry → Type 0
AtMostOne P [] = Unit
AtMostOne P (vte ∷ []) = P vte
AtMostOne P (vte ∷ other ∷ vtes) = ⊥

abbrev pub IsVerified : World → Source → VerifyTopology → Type 0
IsVerified suts src vt =
    AtMostOne (IsEntry suts src true) vt.allow × AtMostOne (IsEntry suts src false) vt.deny
