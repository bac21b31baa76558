-- ===== src/Nat/Verify.antt =====
-- verify_snat, verify_snat_related, verify_dnat and verify_dnat_related
-- (resources/libraries/python/nat.py). The numbers that the tests give as texts are numbers here.
use cne_ovs_sit.Base.{
  ℕ, ◌*◌, ◌&&◌, String, Bool, true, false, [], ◌∷◌, get_elem?, range, none, some, fstr, show, ltb,
  type_error, index_error, for_each, pure, raise, or_raise, Action, ◌>>=◌, ◌>>◌, if◌then◌else◌,
}
use cne_ovs_sit.Ssh.{Env}
use cne_ovs_sit.Vif.{InterfaceAddress}
use cne_ovs_sit.World.{World, VirtualMachine, on_switch}
use cne_ovs_sit.Guest.Exec.{Session, execute_, kill_process}
use cne_ovs_sit.Guest.Udp.{Ip, v4, v6}
use cne_ovs_sit.Guest.Transfer.{execute_tftp, execute_ftp}
use cne_ovs_sit.Pal.Topology.{
  EndPoint, VerifyTopology, VerifyTopologyEntry, get_deps, get_full_deps,
}
use cne_ovs_sit.Pal.Setup.{flush_conntrack_on_all_suts, flush_revalidator_on_all_suts}
use cne_ovs_sit.Pal.Traffic.{in_guest, end_point, between}
use cne_ovs_sit.Nat.{NatSpec}
use cne_ovs_sit.Nat.Networks.{
  net_elem, nat_server_netv4, nat_server_netv6, nat_snat_addr_idx_start, nat_snat_port_start,
  nat_endpoint_addr_idx_start, nat_router_cif_ipv4, nat_router_cif_ipv6,
}
use cne_ovs_sit.Nat.Conns.{check_nat_result}
use cne_ovs_sit.Nat.Flows.{nat_setup_flows}
use cne_ovs_sit.Nat.Related.{orig, reply, nat_execute_related}

-- Other names run no traffic.
pub data Tool : Type 0 where
  telnet ping tftp ftp_active ftp_passive other_tool : Tool

unfoldable pub snat_spec : ℕ → ℕ → NatSpec
snat_spec ip_num port_num = record {
  ipv4_ia_start = net_elem nat_server_netv4 nat_snat_addr_idx_start;
  ipv6_ia_start = net_elem nat_server_netv6 nat_snat_addr_idx_start;
  ia_num = ip_num;
  port_start = nat_snat_port_start;
  port_num = port_num;
  flags = none;
  vipv4 = none;
  vipv6 = none;
}

unfoldable pub dnat_spec : Env → NatSpec
dnat_spec env = record {
  ipv4_ia_start = net_elem nat_server_netv4 nat_endpoint_addr_idx_start;
  ipv6_ia_start = net_elem nat_server_netv6 nat_endpoint_addr_idx_start;
  ia_num = 1;
  port_start = 0;
  port_num = 0;
  flags = none;
  vipv4 = some (env.show_ipv4 nat_router_cif_ipv4);
  vipv6 = some (env.show_ipv6 nat_router_cif_ipv6);
}

-- `raise` of a text is a TypeError.
abbrev only_entry : VerifyTopology → Action World VerifyTopologyEntry
only_entry vt = elim vt.allow [
  | [] ↦ raise type_error
  | vte ∷ [] ↦ pure vte
  | vte ∷ next ∷ rest ↦ raise type_error
]

-- The first `svr_num` servers: there have to be as many.
unfoldable pub for_servers :
    VerifyTopologyEntry
    → ℕ
    → (VirtualMachine → VirtualMachine → InterfaceAddress → Session (Unit {0}))
    → Action World (Unit {0})
unfolding between
for_servers vte svr_num test = for_each (range 0 svr_num) (λ s.
    or_raise (get_elem? (get_full_deps vte) s) index_error >>= λ dep. between vte.sep dep test)

-- The same `times` times.
abbrev repeat : ℕ → Session (Unit {0}) → Session (Unit {0})
repeat times m = for_each (range 0 times) (λ _. m)

module _ (env : Env) where
  abbrev both :
      (String → String) → (String → String) → VirtualMachine → String → String → Session (Unit {0})
  both cmd4 cmd6 vm ip4 ip6 = do execute_ env vm (cmd4 ip4); execute_ env vm (cmd6 ip6)

  abbrev telnet_command : String → String
  telnet_command ip = fstr ("telnet " ∷ ip ∷ " 22 &" ∷ [])

  abbrev ping_command : String → ℕ → String → String
  ping_command program size ip =
      fstr (program ∷ " -c 3 -i 0.3 -s " ∷ show size ∷ " " ∷ ip ∷ " &" ∷ [])

  abbrev to_server :
      ℕ
      → (String → String)
      → (String → String)
      → VirtualMachine
      → VirtualMachine
      → InterfaceAddress
      → Session (Unit {0})
  to_server parallel cmd4 cmd6 vm server addr =
      repeat parallel (both cmd4 cmd6 vm (env.show_ipv4 addr.ipv4) (env.show_ipv6 addr.ipv6))

  abbrev stop_tool : EndPoint → String → Action World (Unit {0})
  stop_tool p name = end_point p >>= λ q. on_switch p.host (in_guest (kill_process env q.0 name))

  abbrev copy_files : Tool → Ip → Ip → VirtualMachine → VirtualMachine → Session (Unit {0})
  copy_files tftp ip4 ip6 vm server =
      execute_tftp env vm server ip4 >> execute_tftp env vm server ip6
  copy_files ftp_active ip4 ip6 vm server =
      execute_ftp env vm server ip4 true >> execute_ftp env vm server ip6 true
  copy_files ftp_passive ip4 ip6 vm server =
      execute_ftp env vm server ip4 false >> execute_ftp env vm server ip6 false
  copy_files _ ip4 ip6 vm server = pure tt

  unfoldable pub snat_traffic : Tool → VerifyTopologyEntry → ℕ → ℕ → ℕ → Action World (Unit {0})
  unfolding for_servers check_nat_result end_point
  snat_traffic telnet vte svr_num parallel ping_size = do
    for_servers vte svr_num (to_server parallel telnet_command telnet_command)
    on_switch (vte.sep).host (check_nat_result env (parallel * svr_num * 2) (some "tcp"))
    stop_tool vte.sep "telnet"
  snat_traffic ping vte svr_num parallel ping_size = do
    for_servers vte svr_num
        (to_server parallel (ping_command "ping" ping_size) (ping_command "ping -6" ping_size))
    on_switch (vte.sep).host (check_nat_result env (parallel * svr_num * 2) none)
    stop_tool vte.sep "ping"
  snat_traffic other_tool vte svr_num parallel ping_size = pure tt
  snat_traffic tool vte svr_num parallel ping_size =
      for_servers vte svr_num
        (λ vm server addr. copy_files tool (v4 addr.ipv4) (v6 addr.ipv6) vm server)

  abbrev copies_files : Tool → Bool
  copies_files tftp = true
  copies_files ftp_active = true
  copies_files ftp_passive = true
  copies_files _ = false

  -- Several file copies at once are not supported, and nothing is done.
  unfoldable pub verify_snat : VerifyTopology → ℕ → ℕ → ℕ → Tool → ℕ → ℕ → Action World (Unit {0})
  unfolding snat_spec nat_setup_flows snat_traffic
  verify_snat vt ip_num port_num svr_num tool parallel ping_size = only_entry vt >>= λ vte.
      if copies_files tool && ltb 1 parallel then pure tt else (do
        flush_conntrack_on_all_suts env
        flush_revalidator_on_all_suts env
        nat_setup_flows env vt "br0" (snat_spec ip_num port_num)
        snat_traffic tool vte svr_num parallel ping_size)

  abbrev related_both : NatSpec → EndPoint → EndPoint → Action World (Unit {0})
  related_both spec sep dep = do
    nat_execute_related env spec sep dep true orig
    nat_execute_related env spec sep dep false orig
    nat_execute_related env spec sep dep true reply
    nat_execute_related env spec sep dep false reply

  unfoldable pub verify_snat_related : VerifyTopology → Action World (Unit {0})
  unfolding snat_spec nat_setup_flows nat_execute_related
  verify_snat_related vt = only_entry vt >>= λ vte. do
    flush_conntrack_on_all_suts env
    nat_setup_flows env vt "br0" (snat_spec 1 0)
    for_each (get_deps vte) (λ dep. related_both (snat_spec 1 0) vte.sep dep)

  abbrev vip_command : String → String → String → String
  vip_command start ip last = fstr (start ∷ ip ∷ last ∷ [])

  abbrev to_vip : EndPoint → (String → String) → (String → String) → Action World (Unit {0})
  to_vip sep cmd4 cmd6 = end_point sep >>= λ q. on_switch sep.host (
      in_guest (
        both cmd4 cmd6 q.0 (env.show_ipv4 nat_router_cif_ipv4) (env.show_ipv6 nat_router_cif_ipv6)))

  abbrev quiet_ping : String → ℕ → String → String
  quiet_ping program size ip =
      fstr (program ∷ " -c 3 -i 0.3 -s " ∷ show size ∷ " " ∷ ip ∷ " >/dev/null 2>&1 &" ∷ [])

  abbrev quiet_telnet : String → String
  quiet_telnet ip = fstr ("nohup telnet " ∷ ip ∷ " 22 >/dev/null 2>&1 &" ∷ [])

  unfoldable pub dnat_traffic : Tool → VerifyTopologyEntry → ℕ → Action World (Unit {0})
  unfolding for_servers check_nat_result end_point
  dnat_traffic telnet vte ping_size = do
    to_vip vte.sep quiet_telnet quiet_telnet
    on_switch (vte.sep).host (check_nat_result env 2 (some "tcp"))
    stop_tool vte.sep "telnet"
  dnat_traffic ping vte ping_size = do
    to_vip vte.sep (quiet_ping "ping" ping_size) (quiet_ping "ping -6" ping_size)
    on_switch (vte.sep).host (check_nat_result env 2 none)
    stop_tool vte.sep "ping"
  dnat_traffic other_tool vte ping_size = pure tt
  dnat_traffic tool vte ping_size = for_servers vte 1 (λ vm server addr.
      copy_files tool (v4 nat_router_cif_ipv4) (v6 nat_router_cif_ipv6) vm server)

  -- The first server has to be there with every tool.
  unfoldable pub verify_dnat : VerifyTopology → Tool → ℕ → Action World (Unit {0})
  unfolding dnat_spec nat_setup_flows dnat_traffic
  verify_dnat vt tool ping_size = only_entry vt >>= λ vte. do
    flush_conntrack_on_all_suts env
    nat_setup_flows env vt "br0" (dnat_spec env)
    or_raise (get_elem? (get_full_deps vte) 0) index_error
    dnat_traffic tool vte ping_size

  unfoldable pub verify_dnat_related : VerifyTopology → Action World (Unit {0})
  unfolding dnat_spec nat_setup_flows nat_execute_related
  verify_dnat_related vt = only_entry vt >>= λ vte. do
    flush_conntrack_on_all_suts env
    nat_setup_flows env vt "br0" (dnat_spec env)
    dep ← or_raise (get_elem? (get_full_deps vte) 0) index_error
    related_both (dnat_spec env) vte.sep dep
