-- ===== src/Overlay/Assign.antt =====
-- set_vif_vni_by_idx_on_vm, set_vif_vni_by_idx_on_host and reset_vif_vni_on_all_suts
-- (resources/libraries/python/overlay.py). They loop over `sut.vms`.
pub mod Effect
pub mod Unassigned
use cne_ovs_sit.Base.{ℕ, ◌+◌, List, [], ◌∷◌, map, modify_at, show, Value, str}
use cne_ovs_sit.Constants.{vni_none}
use cne_ovs_sit.Vif.{VirtualInterface}
use cne_ovs_sit.Switch.Vnis.{refresh_bridge_vnis}
use cne_ovs_sit.World.{VirtualMachine, Sut, World}

abbrev pub vni_base_by_idx_on_vm : ℕ
vni_base_by_idx_on_vm = 200

abbrev pub vni_base_by_idx_on_host : ℕ
vni_base_by_idx_on_host = 300

-- The VNI is stored as a text.
unfoldable pub set_vni : ℕ → ℕ → List VirtualInterface → List VirtualInterface
set_vni vif vni heap = modify_at heap vif (λ v. record v { vni = str (show vni) })

-- Numbers the interfaces from `vni` on; the result has the next number.
unfoldable pub number_vifs : List ℕ → ℕ → List VirtualInterface → ℕ × List VirtualInterface
number_vifs [] vni heap = (vni, heap)
number_vifs (vif ∷ vifs) vni heap = number_vifs vifs (vni + 1) (set_vni vif vni heap)

unfoldable pub number_by_vm : List VirtualMachine → List VirtualInterface → List VirtualInterface
number_by_vm [] heap = heap
number_by_vm (vm ∷ vms) heap = number_by_vm vms (number_vifs vm.vifs vni_base_by_idx_on_vm heap).1

unfoldable pub number_by_host :
    List VirtualMachine → ℕ → List VirtualInterface → List VirtualInterface
number_by_host [] vni heap = heap
number_by_host (vm ∷ vms) vni heap =
    let (next, heap') = number_vifs vm.vifs vni heap in number_by_host vms next heap'

unfoldable pub reset_vifs : List ℕ → List VirtualInterface → List VirtualInterface
reset_vifs [] heap = heap
reset_vifs (vif ∷ vifs) heap = reset_vifs vifs (set_vni vif vni_none heap)

unfoldable pub reset_vms : List VirtualMachine → List VirtualInterface → List VirtualInterface
reset_vms [] heap = heap
reset_vms (vm ∷ vms) heap = reset_vms vms (reset_vifs vm.vifs heap)

-- A change of the interfaces, and then the refresh of the bridges' maps.
abbrev pub assign :
    (List VirtualMachine → List VirtualInterface → List VirtualInterface) → Sut → Sut
assign f sut =
    let vswitch = sut.vswitch in
    record sut {
      vswitch = refresh_bridge_vnis (record vswitch { vif_heap = f sut.vms vswitch.vif_heap });
    }

unfoldable pub set_vif_vni_by_idx_on_vm : World → World
unfolding number_by_vm number_vifs set_vni refresh_bridge_vnis
set_vif_vni_by_idx_on_vm = map (assign number_by_vm)

unfoldable pub set_vif_vni_by_idx_on_host : World → World
unfolding number_by_host number_vifs set_vni refresh_bridge_vnis
set_vif_vni_by_idx_on_host =
    map (assign (λ vms heap. number_by_host vms vni_base_by_idx_on_host heap))

unfoldable pub reset_vif_vni_on_all_suts : World → World
unfolding reset_vms reset_vifs set_vni refresh_bridge_vnis
reset_vif_vni_on_all_suts = map (assign reset_vms)
