-- ===== src/Overlay/Assign/Unassigned.antt =====
-- The assignment of VNIs (resources/libraries/python/overlay.py) on the nodes that the topology file
-- gives (init_topology in resources/libraries/python/topology.py).
use cne_ovs_sit.Base.{
  Bool, List, [], ◌∷◌, ◌++◌, All, All-append, if-ok, bind-ok, ok, ok-injective, inl, inr, ◌≡◌,
}
use mathlib.Core.Path.{subst}
use cne_ovs_sit.Ssh.{Env, Call}
use cne_ovs_sit.World.{Sut, World}
use cne_ovs_sit.Topology.Construct.{NodeEntry, new_sut, load_topo, init_topology}
use cne_ovs_sit.Topology.Conservation.Sharing.{new_sut-vms}
use cne_ovs_sit.Overlay.Assign.{
  set_vif_vni_by_idx_on_vm, set_vif_vni_by_idx_on_host, reset_vif_vni_on_all_suts,
}
use cne_ovs_sit.Overlay.Assign.Effect.{HasNoVms, heaps, set_vif_vni-heaps}

module _ (env : Env) (attach_gdb : Bool) where
  load_topo-HasNoVms :
      (entries : List NodeEntry) (before : List Sut) (calls : List Call) (suts : World)
      → All HasNoVms before
      → (load_topo env attach_gdb entries before calls).0 ≡ ok suts
      → All HasNoVms suts
  unfolding load_topo
  load_topo-HasNoVms [] before calls suts none h = subst (All HasNoVms) (ok-injective h) none
  load_topo-HasNoVms (entry ∷ entries) before calls suts none h =
      elim (if-ok entry.is_sut _ (load_topo env attach_gdb entries before) calls h) [
        | inr (other, skipped) ↦ load_topo-HasNoVms entries before calls suts none skipped
        | inl (is_node, made) ↦
            let (sut, built, rest) =
              bind-ok (new_sut env attach_gdb entry.name entry.spec) _ calls made in
            load_topo-HasNoVms entries (before ++ sut ∷ []) _ suts
              (All-append HasNoVms before (sut ∷ []) none
                (new_sut-vms env attach_gdb entry.name entry.spec calls sut built, tt))
              rest
      ]

-- On the nodes that init_topology returns, with all machines that it creates on their NUMA nodes, no
-- assignment of VNIs changes any interface.
pub init_topology-heaps :
    (env : Env) (attach_gdb : Bool) (entries : List NodeEntry) (calls : List Call) (suts : World)
    → (init_topology env attach_gdb entries calls).0 ≡ ok suts
    → (heaps (set_vif_vni_by_idx_on_vm suts) ≡ heaps suts)
      × (heaps (set_vif_vni_by_idx_on_host suts) ≡ heaps suts)
      × (heaps (reset_vif_vni_on_all_suts suts) ≡ heaps suts)
unfolding init_topology
init_topology-heaps env attach_gdb entries calls suts h =
    set_vif_vni-heaps suts (load_topo-HasNoVms env attach_gdb entries [] calls suts tt h)
