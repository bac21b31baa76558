-- ===== src/Pal/Setup.antt =====
-- The operations of resources/libraries/python/pal.py that run a method on every node's switch.
use cne_ovs_sit.Base.{ℕ, String, Bool, List, [], ◌∷◌, ◌++◌, Action, for_each, pure, ◌>>=◌, ◌>>◌}
use cne_ovs_sit.Ssh.{Env}
use cne_ovs_sit.Switch.State.{Method, read_vif}
use cne_ovs_sit.Switch.Exec.{execute_}
use cne_ovs_sit.Switch.Bridges.{
  create_bridge, delete_bridge, delete_interface, set_port_vlan, set_uplink_mtu,
  create_vhost_user_interface, create_uplink_bridge, delete_uplink_bridge,
}
use cne_ovs_sit.World.{VirtualMachine, World, get_vms, read_sut, on_switch, for_suts}

-- The interfaces of the machines, one machine after the other.
abbrev machine_vifs : List VirtualMachine → List ℕ
machine_vifs [] = []
machine_vifs (vm ∷ vms) = vm.vifs ++ machine_vifs vms

-- The body for each interface of each machine of a node.
abbrev for_vifs : ℕ → (ℕ → Method (Unit {0})) → Action World (Unit {0})
for_vifs i body = do
  sut ← read_sut i
  for_each (machine_vifs (get_vms sut)) (λ vif. on_switch i (body vif))

module _ (env : Env) where
  unfoldable pub create_bridge_on_all_suts : String → Action World (Unit {0})
  create_bridge_on_all_suts br_name =
      for_suts (λ i. on_switch i (create_bridge env br_name >> pure tt))

  unfoldable pub delete_bridge_on_all_suts : String → Action World (Unit {0})
  delete_bridge_on_all_suts br_name = for_suts (λ i. on_switch i (delete_bridge env br_name))

  unfoldable pub setup_uplink_bridge_on_all_suts : String → Bool → Action World (Unit {0})
  setup_uplink_bridge_on_all_suts br_name bond =
      for_suts (λ i. on_switch i (create_uplink_bridge env br_name bond))

  unfoldable pub teardown_uplink_bridge_on_all_suts : String → Action World (Unit {0})
  teardown_uplink_bridge_on_all_suts br_name =
      for_suts (λ i. on_switch i (delete_uplink_bridge env br_name))

  unfoldable pub bump_uplink_mtu_on_all_suts : ℕ → Action World (Unit {0})
  bump_uplink_mtu_on_all_suts mtu = for_suts (λ i. on_switch i (set_uplink_mtu env mtu))

  unfoldable pub flush_revalidator_on_all_suts : Action World (Unit {0})
  flush_revalidator_on_all_suts =
      for_suts (λ i. on_switch i (execute_ env "ovs-appctl revalidator/purge"))

  unfoldable pub flush_conntrack_on_all_suts : Action World (Unit {0})
  flush_conntrack_on_all_suts = for_suts (λ i. on_switch i (
      execute_ env "ovs-appctl dpctl/flush-conntrack"
      >> execute_ env "ovs-appctl dpctl/dump-conntrack -m"))

  unfoldable pub set_port_vlan_on_all_suts : String → ℕ → Action World (Unit {0})
  set_port_vlan_on_all_suts port_name vlan_id =
      for_suts (λ i. on_switch i (set_port_vlan env port_name vlan_id))

  unfoldable pub add_vif_ports_on_all_suts : String → Action World (Unit {0})
  add_vif_ports_on_all_suts br_name =
      for_suts (λ i. for_vifs i (create_vhost_user_interface env br_name))

  -- The interfaces leave the switch and stay in the bridge's lists.
  unfoldable pub delete_vif_ports_on_all_suts : String → Action World (Unit {0})
  delete_vif_ports_on_all_suts br_name =
      for_suts (λ i. for_vifs i (λ r. do vif ← read_vif r; delete_interface env br_name vif.name))
