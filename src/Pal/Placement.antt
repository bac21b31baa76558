-- ===== src/Pal/Placement.antt =====
-- Where verify_topology_get (resources/libraries/python/pal.py) puts the end points it finds.
use cne_ovs_sit.Base.{get_elem?, some, Result, ok, err, ◌≡◌}
use cne_ovs_sit.Vif.{VirtualInterface}
use cne_ovs_sit.World.{VirtualMachine, Sut, World, get_vms}
use cne_ovs_sit.Pal.Topology.{EndPoint, VerifyTopology}
use cne_ovs_sit.Pal.Placed.{IsIn, IsVerified}
use cne_ovs_sit.Pal.Select.{Source}

abbrev Verifies : World → Source → Result VerifyTopology → Type 0
Verifies suts src (ok vt) = IsVerified suts src vt
Verifies suts src (err e) = Unit

module _ (suts : World) (src : Source) where
  module _ (sut : Sut) (vm : VirtualMachine) (face : VirtualInterface) (dep : EndPoint) where
    -- The interface that the innermost loop is at.
    abbrev IsAt : Type 0
    IsAt =
        (get_elem? suts dep.host ≡ some sut)
        × (get_elem? (get_vms sut) dep.guest ≡ some vm)
        × IsIn dep.vif vm.vifs
        × (get_elem? sut.vswitch.vif_heap dep.vif ≡ some face)
