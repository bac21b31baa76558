-- ===== src/Overlay/Assign/Effect.antt =====
-- What the assignment of VNIs (resources/libraries/python/overlay.py) changes on the nodes.
use cne_ovs_sit.Base.{
  ℕ, zero, suc, ◌+◌, ◌<◌, List, [], ◌∷◌, map, length, length-modify_at, get_elem?, modify_at,
  get_elem?-modify_at_self, All, show, Value, str, Option, none, some, ◌≡◌, ◌≢◌, refl, ap, ◌∙◌,
  arith,
}
use cne_ovs_sit.Vif.{VirtualInterface}
use cne_ovs_sit.Switch.Vnis.{refresh_bridge_vnis}
use cne_ovs_sit.Switch.Vnis.Grouping.{IsGrouped, refresh_bridge_vnis-IsGrouped}
use cne_ovs_sit.World.{VirtualMachine, Sut, World}
use cne_ovs_sit.Overlay.Assign.{
  set_vni, number_vifs, number_by_vm, number_by_host, reset_vms, assign, vni_base_by_idx_on_host,
  set_vif_vni_by_idx_on_vm, set_vif_vni_by_idx_on_host, reset_vif_vni_on_all_suts,
}

abbrev pub HasGroups : Sut → Type 0
HasGroups sut = All (IsGrouped sut.vswitch.vif_heap) sut.vswitch.bridges

assign-HasGroups :
    (f : List VirtualMachine → List VirtualInterface → List VirtualInterface) (suts : World)
    → All HasGroups (map (assign f) suts)
unfolding refresh_bridge_vnis
assign-HasGroups f [] = tt
assign-HasGroups f (sut ∷ suts) = (
  refresh_bridge_vnis-IsGrouped
      (let vswitch = sut.vswitch in record vswitch { vif_heap = f sut.vms vswitch.vif_heap }),
  assign-HasGroups f suts,
)

-- After each of the three assignments of VNIs every bridge of every node maps each VNI to exactly
-- those of its interfaces that have it, in the bridge's order.
pub set_vif_vni-HasGroups :
    (suts : World)
    → All HasGroups (set_vif_vni_by_idx_on_vm suts)
      × All HasGroups (set_vif_vni_by_idx_on_host suts)
      × All HasGroups (reset_vif_vni_on_all_suts suts)
unfolding set_vif_vni_by_idx_on_vm set_vif_vni_by_idx_on_host reset_vif_vni_on_all_suts
set_vif_vni-HasGroups suts = (
  assign-HasGroups number_by_vm suts,
  assign-HasGroups (λ vms heap. number_by_host vms vni_base_by_idx_on_host heap) suts,
  assign-HasGroups reset_vms suts,
)

-- The node lists no machine of its own.
abbrev pub HasNoVms : Sut → Type 0
HasNoVms sut = sut.vms ≡ []

abbrev pub heaps : World → List (List VirtualInterface)
heaps suts = map (λ sut. sut.vswitch.vif_heap) suts

assign-heaps :
    (f : List VirtualMachine → List VirtualInterface → List VirtualInterface) (suts : World)
    → ((heap : List VirtualInterface) → f [] heap ≡ heap)
    → All HasNoVms suts
    → heaps (map (assign f) suts) ≡ heaps suts
unfolding refresh_bridge_vnis
assign-heaps f [] still h = refl
assign-heaps f (sut ∷ suts) still h = cc (
  ap (λ vms. f vms sut.vswitch.vif_heap) h.0,
  still sut.vswitch.vif_heap,
  assign-heaps f suts still h.1,
)

-- What no assignment changes on nodes whose own list of machines is empty.
pub set_vif_vni-heaps :
    (suts : World)
    → All HasNoVms suts
    → (heaps (set_vif_vni_by_idx_on_vm suts) ≡ heaps suts)
      × (heaps (set_vif_vni_by_idx_on_host suts) ≡ heaps suts)
      × (heaps (reset_vif_vni_on_all_suts suts) ≡ heaps suts)
unfolding set_vif_vni_by_idx_on_vm set_vif_vni_by_idx_on_host reset_vif_vni_on_all_suts number_by_vm
    number_by_host reset_vms
set_vif_vni-heaps suts h = (
  assign-heaps number_by_vm suts (λ heap. refl) h,
  assign-heaps (λ vms heap. number_by_host vms vni_base_by_idx_on_host heap) suts (λ heap. refl) h,
  assign-heaps reset_vms suts (λ heap. refl) h,
)

-- No reference stands twice in a list.
abbrev pub Absent : ℕ → List ℕ → Type 0
Absent vif [] = Unit
Absent vif (w ∷ vifs) = (vif ≢ w) × Absent vif vifs

abbrev pub AllDifferent : List ℕ → Type 0
AllDifferent [] = Unit
AllDifferent (vif ∷ vifs) = Absent vif vifs × AllDifferent vifs

get_elem?-modify_at_other :
    (heap : List VirtualInterface) (i j : ℕ) (f : VirtualInterface → VirtualInterface)
    → j ≢ i
    → get_elem? (modify_at heap i f) j ≡ get_elem? heap j
get_elem?-modify_at_other [] i j f h = refl
get_elem?-modify_at_other (x ∷ xs) zero zero f h = absurd (h refl)
get_elem?-modify_at_other (x ∷ xs) zero (suc j) f h = refl
get_elem?-modify_at_other (x ∷ xs) (suc i) zero f h = refl
get_elem?-modify_at_other (x ∷ xs) (suc i) (suc j) f h =
    get_elem?-modify_at_other xs i j f (λ e. h (ap suc e))

number_vifs-other :
    (vifs : List ℕ) (vni : ℕ) (heap : List VirtualInterface) (j : ℕ)
    → Absent j vifs
    → get_elem? (number_vifs vifs vni heap).1 j ≡ get_elem? heap j
unfolding number_vifs set_vni
number_vifs-other [] vni heap j h = refl
number_vifs-other (vif ∷ vifs) vni heap j h =
    number_vifs-other vifs (vni + 1) (set_vni vif vni heap) j h.1
    ∙ get_elem?-modify_at_other heap vif j _ h.0

abbrev vni_of : Option VirtualInterface → Option Value
vni_of none = none
vni_of (some v) = some v.vni

abbrev pub vni_at : List VirtualInterface → ℕ → Option Value
vni_at heap vif = vni_of (get_elem? heap vif)

number_vifs-next :
    (vifs : List ℕ) (vni : ℕ) (heap : List VirtualInterface)
    → (number_vifs vifs vni heap).0 ≡ vni + length vifs
unfolding number_vifs
number_vifs-next [] vni heap = omega arith
number_vifs-next (vif ∷ vifs) vni heap =
    omega (arith, number_vifs-next vifs (vni + 1) (set_vni vif vni heap))

live :
    (heap : List VirtualInterface) (i : ℕ)
    → i < length heap
    → (v : VirtualInterface) × (get_elem? heap i ≡ some v)
live [] i h = absurd (omega (arith, h))
live (x ∷ xs) zero h = (x, refl)
live (x ∷ xs) (suc i) h = live xs i (omega (arith, h))

still_inside :
    (vif vni : ℕ) (heap : List VirtualInterface) (vifs : List ℕ)
    → All (λ w. w < length heap) vifs
    → All (λ w. w < length (set_vni vif vni heap)) vifs
unfolding set_vni
still_inside vif vni heap [] h = tt
still_inside vif vni heap (w ∷ vifs) h =
    (rw (length-modify_at heap vif) h.0, still_inside vif vni heap vifs h.1)

vni_at-set_vni :
    (vif vni : ℕ) (heap : List VirtualInterface)
    → vif < length heap
    → vni_at (set_vni vif vni heap) vif ≡ some (str (show vni))
unfolding set_vni
vni_at-set_vni vif vni heap h =
    let (v, found) = live heap vif h in
    ap vni_of (get_elem?-modify_at_self heap vif (λ v. record v { vni = str (show vni) }) found)

numbered :
    (vifs : List ℕ) (vni : ℕ) (heap : List VirtualInterface)
    → AllDifferent vifs
    → All (λ vif. vif < length heap) vifs
    → (i : ℕ) {vif : ℕ} → get_elem? vifs i ≡ some vif
    → vni_at (number_vifs vifs vni heap).1 vif ≡ some (str (show (vni + i)))
unfolding number_vifs
numbered [] vni heap different inside i at = cc
numbered (w ∷ vifs) vni heap different inside zero {vif} at = rw (← same at) (
    ap vni_of (number_vifs-other vifs (vni + 1) (set_vni w vni heap) w different.0)
    ∙ vni_at-set_vni w vni heap inside.0
    ∙ ap (λ n. some (str (show n))) (omega arith))
  where
    same : some w ≡ some vif → w ≡ vif
    same e = cc
numbered (w ∷ vifs) vni heap different inside (suc i) {vif} at =
    numbered vifs (vni + 1) (set_vni w vni heap) different.1 (still_inside w vni heap vifs inside.1)
      i at
    ∙ ap (λ n. some (str (show n))) (omega arith)

-- Numbering different interfaces from a VNI on gives the i-th of them the VNI that is `i` further, as a
-- text, and leaves every interface that is not in the list as it was; the next VNI is behind the last.
pub number_vifs-vni_at :
    (vifs : List ℕ) (vni : ℕ) (heap : List VirtualInterface)
    → AllDifferent vifs
    → All (λ vif. vif < length heap) vifs
    → ((number_vifs vifs vni heap).0 ≡ vni + length vifs)
      × ((i vif : ℕ)
          → get_elem? vifs i ≡ some vif
          → vni_at (number_vifs vifs vni heap).1 vif ≡ some (str (show (vni + i))))
      × ((j : ℕ) → Absent j vifs → get_elem? (number_vifs vifs vni heap).1 j ≡ get_elem? heap j)
number_vifs-vni_at vifs vni heap different inside = (
  number_vifs-next vifs vni heap,
  (λ i vif at. numbered vifs vni heap different inside i at),
  number_vifs-other vifs vni heap,
)
