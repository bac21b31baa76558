-- ===== src/Nat/Configure.antt =====
-- _configure_vm, _nat_configure_vms, nat_restore_vms, snat_configure_vms and dnat_configure_vms
-- (resources/libraries/python/nat.py). A verify topology that a call changes is its result.
use cne_ovs_sit.Base.{
  ℕ, ◌+◌, String, List, [], ◌∷◌, ◌++◌, map, range, modify_at, none, some, fstr, attribute_error,
  type_error, index_error, for_each, pure, raise, modify, or_raise, Action, ◌>>=◌, ◌>>◌,
}
use cne_ovs_sit.Ssh.{Env}
use cne_ovs_sit.Vif.{
  Network, InterfaceAddress, VirtualInterface, ipv4_str_with_prefix, ipv6_str_with_prefix,
  show_network,
}
use cne_ovs_sit.World.{World, on_switch}
use cne_ovs_sit.Guest.Exec.{execute_batch}
use cne_ovs_sit.Guest.Configure.{device}
use cne_ovs_sit.Pal.Topology.{EndPoint, VerifyTopology, get_full_deps}
use cne_ovs_sit.Pal.Traffic.{in_guest, end_point}
use cne_ovs_sit.Nat.Networks.{
  net_elem, nat_client_netv4, nat_client_netv6, nat_server_netv4, nat_server_netv6,
  nat_snat_addr_idx_start, nat_snat_addr_num, nat_endpoint_addr_idx_start, nat_router_cif_mac,
  nat_router_cif_ipv4, nat_router_cif_ipv6, nat_router_sif_mac, nat_router_sif_ipv4,
  nat_router_sif_ipv6,
}

-- What an end point is to know: the other network behind the router, and the router's MAC for each of
-- some addresses.
pub record Surroundings : Type 0 where
  pub net4 : Network
  pub net6 : Network
  pub gw4 : ℕ
  pub gw6 : ℕ
  pub mac : String
  pub neighs4 : List ℕ
  pub neighs6 : List ℕ

abbrev pub readdressed : InterfaceAddress → VirtualInterface → VirtualInterface
readdressed addr vif = record vif { restore_if_addr = vif.if_addr; if_addr = some addr }

abbrev pub restored : VirtualInterface → VirtualInterface
restored vif = record vif { if_addr = vif.restore_if_addr; restore_if_addr = none }

abbrev pub client_addr : InterfaceAddress
client_addr = record {
  ipv4 = net_elem nat_client_netv4 nat_endpoint_addr_idx_start;
  ipv4_network = nat_client_netv4;
  ipv6 = net_elem nat_client_netv6 nat_endpoint_addr_idx_start;
  ipv6_network = nat_client_netv6;
}

abbrev pub server_addr : ℕ → InterfaceAddress
server_addr idx = record {
  ipv4 = net_elem nat_server_netv4 (nat_endpoint_addr_idx_start + idx);
  ipv4_network = nat_server_netv4;
  ipv6 = net_elem nat_server_netv6 (nat_endpoint_addr_idx_start + idx);
  ipv6_network = nat_server_netv6;
}

abbrev pub client_side : Surroundings
client_side = record {
  net4 = nat_server_netv4;
  net6 = nat_server_netv6;
  gw4 = nat_router_cif_ipv4;
  gw6 = nat_router_cif_ipv6;
  mac = nat_router_cif_mac;
  neighs4 = nat_router_cif_ipv4 ∷ [];
  neighs6 = nat_router_cif_ipv6 ∷ [];
}

abbrev pub server_side : List ℕ → List ℕ → Surroundings
server_side neighs4 neighs6 = record {
  net4 = nat_client_netv4;
  net6 = nat_client_netv6;
  gw4 = nat_router_sif_ipv4;
  gw6 = nat_router_sif_ipv6;
  mac = nat_router_sif_mac;
  neighs4 = nat_router_sif_ipv4 ∷ neighs4;
  neighs6 = nat_router_sif_ipv6 ∷ neighs6;
}

module _ (env : Env) where
  abbrev neigh_command : String → (ℕ → String) → String → String → ℕ → String
  neigh_command start show_ip mac dev ip =
      fstr (start ∷ show_ip ip ∷ " lladdr " ∷ mac ∷ " dev " ∷ dev ∷ [])

  unfoldable pub configure_commands :
      Surroundings → VirtualInterface → InterfaceAddress → List String
  unfolding device
  configure_commands about vif addr =
      let dev = device vif in
      let n4 = show_network env.show_ipv4 addr.ipv4_network in
      let n6 = show_network env.show_ipv6 addr.ipv6_network in
      fstr ("ip -4 addr flush dev " ∷ dev ∷ " scope global" ∷ [])
      ∷ fstr ("ip -6 addr flush dev " ∷ dev ∷ " scope global" ∷ [])
      ∷ fstr ("ip link set " ∷ dev ∷ " up" ∷ [])
      ∷ fstr ("ip -4 route flush " ∷ n4 ∷ [])
      ∷ fstr ("ip -6 route flush " ∷ n6 ∷ [])
      ∷ "ip -4 route flush cache"
      ∷ "ip -6 route flush cache"
      ∷ fstr ("ip -4 neigh flush dev " ∷ dev ∷ [])
      ∷ fstr ("ip -6 neigh flush dev " ∷ dev ∷ [])
      ∷ fstr ("ip -4 addr add " ∷ ipv4_str_with_prefix env addr ∷ " dev " ∷ dev ∷ [])
      ∷ fstr ("ip -6 addr add " ∷ ipv6_str_with_prefix env addr ∷ " dev " ∷ dev ∷ [])
      ∷ fstr ("ip -4 route flush " ∷ n4 ∷ [])
      ∷ fstr ("ip -6 route flush " ∷ n6 ∷ [])
      ∷ fstr ("ip -4 route add " ∷ n4 ∷ " dev " ∷ dev ∷ [])
      ∷ fstr ("ip -6 route add " ∷ n6 ∷ " dev " ∷ dev ∷ [])
      ∷ fstr (
          "ip route add "
          ∷ show_network env.show_ipv4 about.net4
          ∷ " via "
          ∷ env.show_ipv4 about.gw4
          ∷ [])
      ∷ fstr (
          "ip -6 route add "
          ∷ show_network env.show_ipv6 about.net6
          ∷ " via "
          ∷ env.show_ipv6 about.gw6
          ∷ [])
      ∷ (map (neigh_command "ip neigh add " env.show_ipv4 about.mac dev) about.neighs4
          ++ map (neigh_command "ip -6 neigh add " env.show_ipv6 about.mac dev) about.neighs6)

  -- Writing through the reference of an interface.
  unfoldable pub update_point :
      EndPoint → (VirtualInterface → VirtualInterface) → Action World (Unit {0})
  update_point p f =
      on_switch p.host (modify (λ s. record s { vif_heap = modify_at s.vif_heap p.vif f }))

  unfoldable pub configure_vm : Surroundings → EndPoint → Action World (Unit {0})
  unfolding configure_commands end_point in_guest
  configure_vm about p = end_point p >>= λ q. or_raise (q.1).if_addr attribute_error >>= λ addr.
      on_switch p.host (in_guest (execute_batch env q.0 (configure_commands about q.1 addr)))

  unfoldable pub configure_point :
      Surroundings → InterfaceAddress → EndPoint → Action World (Unit {0})
  unfolding update_point configure_vm
  configure_point about addr p = update_point p (readdressed addr) >> configure_vm about p

  -- The servers get consecutive addresses.
  unfoldable pub configure_servers : Surroundings → ℕ → List EndPoint → Action World (Unit {0})
  unfolding configure_point
  configure_servers about idx [] = pure tt
  configure_servers about idx (dep ∷ deps) =
      configure_point about (server_addr idx) dep >> configure_servers about (idx + 1) deps

  -- `raise` of a text is a TypeError. The topology keeps its first entry only.
  unfoldable pub nat_configure_vms : VerifyTopology → List ℕ → List ℕ → Action World VerifyTopology
  unfolding configure_point configure_servers
  nat_configure_vms vt neighs4 neighs6 = elim vt.allow [
    | [] ↦ raise type_error
    | vte ∷ rest ↦ do
      configure_point client_side client_addr vte.sep
      configure_servers (server_side neighs4 neighs6) 0 (get_full_deps vte)
      pure (record { allow = vte ∷ []; deny = [] })
  ]

  unfoldable pub snat_configure_vms : VerifyTopology → Action World VerifyTopology
  unfolding nat_configure_vms
  snat_configure_vms vt =
      nat_configure_vms vt
        (map (λ i. net_elem nat_server_netv4 (nat_snat_addr_idx_start + i))
          (range 0 nat_snat_addr_num))
        (map (λ i. net_elem nat_server_netv6 (nat_snat_addr_idx_start + i))
          (range 0 nat_snat_addr_num))

  unfoldable pub dnat_configure_vms : VerifyTopology → Action World VerifyTopology
  unfolding nat_configure_vms
  dnat_configure_vms vt = nat_configure_vms vt [] []

  unfoldable pub nat_restore_vms : VerifyTopology → Action World (Unit {0})
  unfolding update_point
  nat_restore_vms vt = elim vt.allow [
    | [] ↦ raise index_error
    | vte ∷ rest ↦ do
      update_point vte.sep restored
      for_each (get_full_deps vte) (λ dep. update_point dep restored)
  ]
