-- ===== src/Switch/Bridges.antt =====
-- The methods of class VirtualSwitch on bridges and ports (resources/libraries/python/vswitch.py).
-- An attribute of `None`, where no bridge has the name, is an AttributeError.
use cne_ovs_sit.Base.{
  ℕ, ◌+◌, String, Bool, List, [], ◌∷◌, ◌++◌, length, get_elem?, erase_idx, Option, none, some, fstr,
  show, show_value, show_option, Value, attribute_error, index_error, value_error, ◌==◌, for_each,
  pure, gets, or_raise, modify, ◌>>=◌, ◌>>◌, if◌then◌else◌,
}
use text.Mathlib.Text.{◌==◌ as text_eq}
use cne_ovs_sit.Constants.{ofp_local, ofp_uplink_base}
use cne_ovs_sit.Ssh.{Env}
use cne_ovs_sit.Vif.{tap_interface, ipv4_str_with_prefix, ipv6_str_with_prefix, show_network}
use cne_ovs_sit.Switch.State.{
  Rip, flow, address, TunnelPort, get_id, put_id, Bridge, new_bridge, VirtualSwitch, Method,
  read_vif, read_uplink, update_bridge, update_uplink,
}
use cne_ovs_sit.Switch.Exec.{execute_, execute_host, execute_host_batch, kill}
use cne_ovs_sit.Switch.Vnis.{bridge_add_vif}
use cne_ovs_sit.Switch.Datapath.{
  create_bridge_impl, create_vhost_user_interface_impl, create_uplink_interface_impl,
  create_uplink_bond_impl, delete_uplink_impl, set_bond_member_up_impl,
}

-- `get_bridge`: the first bridge with the name, as its reference and what it refers to.
unfoldable pub find_bridge : String → List Bridge → Option (ℕ × Bridge)
find_bridge name [] = none
find_bridge name (br ∷ brs) =
    if text_eq br.name name
    then some (0, br)
    else elim (find_bridge name brs) [ none ↦ none | some (b, found) ↦ some (b + 1, found) ]

unfoldable pub get_bridge : String → Method (Option (ℕ × Bridge))
unfolding find_bridge
get_bridge br_name = gets (λ s. find_bridge br_name s.bridges)

-- `list.remove` finds an object by its identity.
unfoldable pub remove_port : ℕ → List TunnelPort → Option (List TunnelPort)
remove_port ident [] = none
remove_port ident (p ∷ ps) =
    if p.ident == ident
    then some ps
    else elim (remove_port ident ps) [ none ↦ none | some rest ↦ some (p ∷ rest) ]

abbrev show_rip : Env → Rip → String
show_rip env flow = "flow"
show_rip env (address a) = env.show_ipv4 a

module _ (env : Env) where
  -- The result is the new bridge's reference. The tap is a new interface of the host.
  unfoldable pub create_bridge : String → Method ℕ
  create_bridge br_name = do
    execute_host env (fstr ("ip link del " ∷ br_name ∷ [])) 30 none
    datapath ← gets (λ s. s.datapath)
    create_bridge_impl env datapath br_name
    b ← gets (λ s. length s.bridges)
    modify (λ s. record s { bridges = s.bridges ++ new_bridge br_name ∷ [] })
    vif ← gets (λ s. length s.vif_heap)
    modify (λ s. record s { vif_heap = s.vif_heap ++ tap_interface br_name ofp_local ∷ [] })
    modify (λ s. update_bridge b (bridge_add_vif s.vif_heap vif) s)
    pure b

  -- `bridges.remove(None)` is a ValueError.
  unfoldable pub delete_bridge : String → Method (Unit {0})
  delete_bridge br_name = do
    execute_ env (fstr ("ovs-vsctl del-br " ∷ br_name ∷ []))
    (b, _) ← or_raise (← get_bridge br_name) value_error
    modify (λ s. record s { bridges = erase_idx s.bridges b })

  unfoldable pub delete_interface : String → String → Method (Unit {0})
  delete_interface br_name if_name =
      execute_ env (fstr ("ovs-vsctl del-port " ∷ br_name ∷ " " ∷ if_name ∷ []))

  unfoldable pub set_port_vlan : String → ℕ → Method (Unit {0})
  set_port_vlan if_name vlan_id =
      execute_ env (fstr ("ovs-vsctl set port " ∷ if_name ∷ " tag=" ∷ show vlan_id ∷ []))

  unfoldable pub set_vlan_limit : ℕ → Method (Unit {0})
  set_vlan_limit limit =
      execute_ env
        (fstr ("ovs-vsctl set Open_vSwitch . other_config:vlan-limit=" ∷ show limit ∷ []))

  unfoldable pub set_uplink_mtu : ℕ → Method (Unit {0})
  set_uplink_mtu mtu = do
    bridges ← gets (λ s. s.bridges)
    for_each bridges (λ br. for_each br.uplinks (λ r. do
      u ← read_uplink r
      execute_ env (
          fstr
            ("ovs-vsctl set Interface " ∷ show_option u.name ∷ " mtu_request=" ∷ show mtu ∷ []))))

  -- `br.ofp_ids_tunnel.get()`: an empty list is an IndexError.
  unfoldable pub allocate_ofp : ℕ → Bridge → Method ℕ
  allocate_ofp b br = do
    (ofp, ids) ← or_raise (get_id br.ofp_ids_tunnel) index_error
    modify (update_bridge b (λ br. record br { ofp_ids_tunnel = ids }))
    pure ofp

  unfoldable pub tunnel_name : String → ℕ → String
  tunnel_name tnl_type tnl_ofp = fstr (tnl_type ∷ show tnl_ofp ∷ [])

  unfoldable pub tunnel_command : String → String → Rip → Value → ℕ → String
  unfolding tunnel_name
  tunnel_command br_name tnl_type rip vni tnl_ofp =
      let tnl_name = tunnel_name tnl_type tnl_ofp in
      fstr (
        "ovs-vsctl add-port "
        ∷ br_name
        ∷ " "
        ∷ tnl_name
        ∷ " -- set Interface "
        ∷ tnl_name
        ∷ " type="
        ∷ tnl_type
        ∷ " options:remote_ip="
        ∷ show_rip env rip
        ∷ " options:key="
        ∷ show_value vni
        ∷ " ofport_request="
        ∷ show tnl_ofp
        ∷ " "
        ∷ [])

  -- The object is made, and joins the list of the bridge that is looked up once more.
  unfoldable pub record_tunnel_port : String → String → Rip → Value → ℕ → Method TunnelPort
  unfolding tunnel_name
  record_tunnel_port br_name tnl_type rip vni tnl_ofp = do
    ident ← gets (λ s. s.next_ident)
    modify (λ s. record s { next_ident = s.next_ident + 1 })
    (b, _) ← or_raise (← get_bridge br_name) attribute_error
    let port : TunnelPort = record {
      ident = ident;
      name = tunnel_name tnl_type tnl_ofp;
      rip = rip;
      vni = vni;
      ofp = tnl_ofp;
    }
    modify (update_bridge b (λ br. record br { tnl_ports = br.tnl_ports ++ port ∷ [] }))
    pure port

  -- The part of `create_tunnel_port` behind the allocation of the port number.
  unfoldable pub add_tunnel_port : String → String → Rip → Value → ℕ → Method TunnelPort
  add_tunnel_port br_name tnl_type rip vni tnl_ofp =
      execute_ env (tunnel_command br_name tnl_type rip vni tnl_ofp)
      >> record_tunnel_port br_name tnl_type rip vni tnl_ofp

  -- The id is taken before the command is run.
  unfoldable pub create_tunnel_port : String → String → Rip → Value → Method TunnelPort
  create_tunnel_port br_name tnl_type rip vni = do
    (b, br) ← or_raise (← get_bridge br_name) attribute_error
    tnl_ofp ← allocate_ofp b br
    add_tunnel_port br_name tnl_type rip vni tnl_ofp

  -- The number is put back before the list is searched for the port.
  unfoldable pub forget_tunnel_port : Option (ℕ × Bridge) → TunnelPort → Method (Unit {0})
  forget_tunnel_port found port = do
    (b, br) ← or_raise found attribute_error
    modify
        (update_bridge b (λ br. record br { ofp_ids_tunnel = put_id br.ofp_ids_tunnel port.ofp }))
    ports ← or_raise (remove_port port.ident br.tnl_ports) value_error
    modify (update_bridge b (λ br. record br { tnl_ports = ports }))

  -- `br` is looked up first; an attribute of `None` is read after the command.
  unfoldable pub delete_tunnel_port : String → TunnelPort → Method (Unit {0})
  delete_tunnel_port br_name port = do
    found ← get_bridge br_name
    delete_interface br_name port.name
    forget_tunnel_port found port

  unfoldable pub create_vhost_user_interface : String → ℕ → Method (Unit {0})
  create_vhost_user_interface br_name vif = do
    v ← read_vif vif
    datapath ← gets (λ s. s.datapath)
    create_vhost_user_interface_impl env datapath br_name v v.vhost
    (b, _) ← or_raise (← get_bridge br_name) attribute_error
    modify (λ s. update_bridge b (bridge_add_vif s.vif_heap vif) s)

  -- The addresses and routes of the tunnel end point, on the bridge's local port.
  tep_commands : String → VirtualSwitch → List String
  tep_commands br_name s =
      let ipv4 = show_network env.show_ipv4 s.tep_addr.ipv4_network in
      let ipv6 = show_network env.show_ipv6 s.tep_addr.ipv6_network in
      fstr ("ip -4 addr add " ∷ ipv4_str_with_prefix env s.tep_addr ∷ " dev " ∷ br_name ∷ [])
      ∷ fstr ("ip -6 addr add " ∷ ipv6_str_with_prefix env s.tep_addr ∷ " dev " ∷ br_name ∷ [])
      ∷ fstr ("ip link set " ∷ br_name ∷ " up" ∷ [])
      ∷ fstr ("ip -4 route flush " ∷ ipv4 ∷ [])
      ∷ fstr ("ip -6 route flush " ∷ ipv6 ∷ [])
      ∷ fstr ("ip -4 route add " ∷ ipv4 ∷ " dev " ∷ br_name ∷ [])
      ∷ fstr ("ip -6 route add " ∷ ipv6 ∷ " dev " ∷ br_name ∷ [])
      ∷ []

  -- The first uplink alone, on port OFP_UPLINK_BASE.
  single_uplink : ℕ → String → Method (Unit {0})
  single_uplink b br_name = do
    r ← or_raise (← gets (λ s. get_elem? s.uplinks 0)) index_error
    modify (update_uplink r (λ u. record u { ofp = some ofp_uplink_base }))
    u ← read_uplink r
    datapath ← gets (λ s. s.datapath)
    create_uplink_interface_impl env datapath br_name u
    modify (update_bridge b (λ br. record br { uplinks = br.uplinks ++ r ∷ [] }))

  unfoldable pub create_uplink_bridge : String → Bool → Method (Unit {0})
  unfolding tep_commands single_uplink
  create_uplink_bridge br_name bond = do
    b ← create_bridge br_name
    cmds ← gets (tep_commands br_name)
    execute_host_batch env cmds 30
    datapath ← gets (λ s. s.datapath)
    if bond then create_uplink_bond_impl env datapath b br_name else single_uplink b br_name

  unfoldable pub delete_uplink_bridge : String → Method (Unit {0})
  delete_uplink_bridge br_name = do
    (_, br) ← or_raise (← get_bridge br_name) attribute_error
    datapath ← gets (λ s. s.datapath)
    for_each br.uplinks (λ r. do
      u ← read_uplink r
      delete_uplink_impl env datapath u
      modify (update_uplink r (λ u. record u { ofp = none })))
    delete_bridge br_name

  unfoldable pub set_bond_member_up : String → ℕ → Bool → Method (Unit {0})
  set_bond_member_up br_name idx up = do
    r ← or_raise (← gets (λ s. get_elem? s.uplinks idx)) index_error
    u ← read_uplink r
    execute_ env (
        if up
        then fstr ("ovs-ofctl mod-port " ∷ br_name ∷ " " ∷ show_option u.name ∷ " up" ∷ [])
        else fstr ("ovs-ofctl mod-port " ∷ br_name ∷ " " ∷ show_option u.name ∷ " down" ∷ []))
    datapath ← gets (λ s. s.datapath)
    set_bond_member_up_impl env datapath u.name up

  unfoldable pub stop_vswitch : Method (Unit {0})
  stop_vswitch = do kill env "ovs-vswitchd"; kill env "ovsdb-server"
