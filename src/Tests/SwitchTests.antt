-- ===== src/Tests/SwitchTests.antt =====
-- Tunnel ports and VNI maps on the sample bridge.
use cne_ovs_sit.Base.{◌≤◌, [], ◌∷◌, All, some, str, ◌≡◌, refl, inl, arith, count}
use cne_ovs_sit.Switch.State.{flow, get_id, new_bridge}
use cne_ovs_sit.Switch.Bridges.{
  delete_interface, find_bridge, remove_port, create_tunnel_port, delete_tunnel_port,
}
use cne_ovs_sit.Switch.Vnis.{bridge_add_vif, refresh_vnis, refresh_bridge_vnis}
use cne_ovs_sit.Switch.Vnis.Grouping.{
  IsGrouped, refresh_vnis-IsGrouped, refresh_bridge_vnis-IsGrouped, bridge_add_vif-IsGrouped,
}
use cne_ovs_sit.Switch.Ids.{
  ofps, held, once_in_range, IsAllocated, new_bridge-held, create_tunnel_port-IsAllocated,
}
use cne_ovs_sit.Switch.Creation.{Creates, create_tunnel_port-Creates}
use cne_ovs_sit.Switch.Release.{
  DeletesAs, delete_tunnel_port-DeletesAs, delete_tunnel_port-IsAllocated,
}
use cne_ovs_sit.Tests.Samples.{env, good_reply, allocator, port, br0, switch, faces}

br0-IsAllocated : IsAllocated br0
br0-IsAllocated a = ground arith

br0-found : find_bridge "br0" switch.bridges ≡ some (0, br0)
unfolding find_bridge
br0-found = refl

create_tunnel_port-IsAllocated_example :
    All IsAllocated (create_tunnel_port env "br0" "vxlan" flow (str "flow") switch).1.bridges
create_tunnel_port-IsAllocated_example =
    create_tunnel_port-IsAllocated env "br0" "vxlan" flow (str "flow") switch (br0-IsAllocated, tt)

delete_tunnel_port-IsAllocated_example :
    All IsAllocated (delete_tunnel_port env "br0" (port 0 100) switch).1.bridges
delete_tunnel_port-IsAllocated_example =
    delete_tunnel_port-IsAllocated env "br0" (port 0 100) switch {b = 0} {br = br0} br0-found
      (inl refl) (br0-IsAllocated, tt)

port_removed : remove_port 0 br0.tnl_ports ≡ some (port 1 101 ∷ [])
unfolding remove_port
port_removed = refl

delete_tunnel_port-DeletesAs_example :
    DeletesAs
      (port 0 100)
      0
      (port 1 101 ∷ [])
      switch
      (delete_interface env "br0" "vxlan" switch).0
      (delete_tunnel_port env "br0" (port 0 100) switch)
delete_tunnel_port-DeletesAs_example =
    delete_tunnel_port-DeletesAs env "br0" (port 0 100) switch {b = 0} {br = br0}
      {rest = port 1 101 ∷ []} br0-found port_removed

new_bridge-held_example : held 150 (new_bridge "br0") ≡ once_in_range 150
new_bridge-held_example = new_bridge-held "br0" 150

refresh_bridge_vnis-IsGrouped_example :
    All (IsGrouped switch.vif_heap) (refresh_bridge_vnis switch).bridges
refresh_bridge_vnis-IsGrouped_example = refresh_bridge_vnis-IsGrouped switch

bridge_add_vif-IsGrouped_example : IsGrouped faces (bridge_add_vif faces 1 (refresh_vnis faces br0))
bridge_add_vif-IsGrouped_example =
    bridge_add_vif-IsGrouped faces 1 (refresh_vnis faces br0) (refresh_vnis-IsGrouped faces br0)

first_free : get_id br0.ofp_ids_tunnel ≡ some (102, allocator [])
unfolding get_id
first_free = refl

create_tunnel_port-Creates_example :
    Creates "br0" 0 br0 102
      (allocator [])
      (create_tunnel_port env "br0" "vxlan" flow (str "flow") switch)
    × (100 ≤ 102)
    × (102 ≤ 200)
    × (count 102 (ofps br0.tnl_ports) ≡ 0)
    × (count 102 [] ≡ 0)
create_tunnel_port-Creates_example =
    create_tunnel_port-Creates env (λ calls call. (good_reply, refl, refl)) "br0" "vxlan" flow
      (str "flow") switch 0 br0 102 (allocator []) br0-found first_free br0-IsAllocated
