-- ===== src/Tests/PalTests.antt =====
-- Verify topologies of the sample nodes.
use cne_ovs_sit.Base.{ℕ, [], ◌∷◌, map, ok, ◌≡◌, refl}
use cne_ovs_sit.Pal.Topology.{
  EndPoint, VerifyTopologyEntry, VerifyTopology, get_full_deps, verify_topology_allow_originate,
}
use cne_ovs_sit.Pal.Select.{undef, TopologyCriteria}
use cne_ovs_sit.Pal.Reversal.{directions, verify_topology_allow_originate-directions}

abbrev point : ℕ → EndPoint
point host = record { host = host; guest = 0; vif = 0 }

abbrev entry : VerifyTopologyEntry
entry = record { sep = point 0; dep_numa = []; dep_xnuma = []; dep_xhost = point 1 ∷ [] }

abbrev topology : VerifyTopology
topology = record { allow = entry ∷ []; deny = [] }

abbrev anywhere : TopologyCriteria
anywhere = record { sepc_pnic_loc = undef; depc_pnic_loc = undef; locc = undef }

verify_topology_allow_originate-directions_example :
    (new_vt : VerifyTopology) × (verify_topology_allow_originate topology ≡ ok (point 0, new_vt))
    × (new_vt.allow ≡ entry ∷ [])
    × (map directions new_vt.deny ≡ map (λ dep. (dep, point 0 ∷ [])) (get_full_deps entry))
verify_topology_allow_originate-directions_example =
    verify_topology_allow_originate-directions topology entry [] refl
