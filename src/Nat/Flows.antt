-- ===== src/Nat/Flows.antt =====
-- _nat_setup_flows (resources/libraries/python/nat.py): the flows of a NAT test, on the client's node.
use cne_ovs_sit.Base.{
  ℕ, ◌+◌, String, Bool, true, false, List, [], ◌∷◌, ◌++◌, Option, fstr, append, show, show_value,
  show_option, attribute_error, index_error, pure, raise, or_raise, Action, ◌>>=◌, ◌>>◌,
  if◌then◌else◌,
}
use cne_ovs_sit.Constants.{of_table_nat, of_table_l2_match}
use cne_ovs_sit.Ssh.{Env}
use cne_ovs_sit.Vif.{InterfaceAddress, VirtualInterface}
use cne_ovs_sit.World.{World, on_switch}
use cne_ovs_sit.Switch.Exec.{execute_}
use cne_ovs_sit.Flow.Pipeline.{provision_flows, setup_default_pipeline_on_all_suts}
use cne_ovs_sit.Pal.Topology.{EndPoint, VerifyTopology, get_full_deps}
use cne_ovs_sit.Pal.Traffic.{end_point}
use cne_ovs_sit.Nat.{NatSpec, is_dnat, generate_nat_action}
use cne_ovs_sit.Nat.Networks.{nat_router_cif_mac, nat_router_sif_mac}

abbrev table : ℕ → String
table n = show (of_table_nat + n)

-- Table 0: all IP traffic goes through connection tracking.
unfoldable pub track_flows : List String
track_flows =
    fstr ("table=" ∷ table 0 ∷ ",priority=10,ip,action=ct\\(nat,table=" ∷ table 1 ∷ "\\)" ∷ [])
    ∷ fstr ("table=" ∷ table 0 ∷ ",priority=10,ipv6,action=ct\\(nat,table=" ∷ table 1 ∷ "\\)" ∷ [])
    ∷ fstr ("table=" ∷ table 0 ∷ ",priority=0,action=drop" ∷ [])
    ∷ []

abbrev commit_alg : String → String → String → String → String
commit_alg base match alg action = fstr (
    base
    ∷ match
    ∷ ",action=ct\\(alg="
    ∷ alg
    ∷ ",commit,nat\\("
    ∷ action
    ∷ "\\),table="
    ∷ table 2
    ∷ "\\)"
    ∷ [])

abbrev commit : String → String → String → String
commit base match action =
    fstr
      (base ∷ match ∷ ",action=ct\\(commit,nat\\(" ∷ action ∷ "\\),table=" ∷ table 2 ∷ "\\)" ∷ [])

abbrev destination : Bool → String → String → Option String → String
destination dnat family field vip =
    if dnat
    then fstr (family ∷ "," ∷ field ∷ "=" ∷ show_option vip ∷ "," ∷ [])
    else fstr (family ∷ "," ∷ [])

-- Table 1, new connections from the client.
unfoldable pub new_flows : Env → NatSpec → VirtualInterface → List String
unfolding is_dnat generate_nat_action
new_flows env spec vif =
    let action4 = generate_nat_action env spec true in
    let action6 = generate_nat_action env spec false in
    let base = fstr (
      "table=" ∷ table 1 ∷ ",priority=10,in_port=" ∷ show_value vif.ofp ∷ ",ct_state=+new," ∷ []) in
    let base_v4 = append base (destination (is_dnat spec) "ip" "nw_dst" spec.vipv4) in
    let base_v6 = append base (destination (is_dnat spec) "ipv6" "ipv6_dst" spec.vipv6) in
    commit_alg base_v4 "tcp,tp_dst=21" "ftp" action4
    ∷ commit_alg base_v4 "udp,tp_dst=69" "tftp" action4
    ∷ commit_alg base_v6 "tcp6,tp_dst=21" "ftp" action6
    ∷ commit_alg base_v6 "udp6,tp_dst=69" "tftp" action6
    ∷ commit base_v4 "tcp" action4
    ∷ commit base_v4 "udp" action4
    ∷ commit base_v4 "icmp" action4
    ∷ commit base_v6 "tcp6" action6
    ∷ commit base_v6 "udp6" action6
    ∷ commit base_v6 "icmp6" action6
    ∷ []

abbrev related_flow : String → String
related_flow proto = fstr (
    "table="
    ∷ table 1
    ∷ ",priority=10,ct_state=+new+rel,"
    ∷ proto
    ∷ ",action=ct\\(table="
    ∷ table 2
    ∷ ",commit,nat\\)"
    ∷ [])

abbrev pass_flow : String → String
pass_flow state = fstr (
    "table="
    ∷ table 1
    ∷ ",priority=10,ct_state="
    ∷ state
    ∷ ",action=resubmit\\(,"
    ∷ table 2
    ∷ "\\)"
    ∷ [])

-- Table 1, related and established connections; table 2.
unfoldable pub later_flows : List String
later_flows =
    related_flow "tcp"
    ∷ related_flow "tcp6"
    ∷ related_flow "udp"
    ∷ related_flow "udp6"
    ∷ pass_flow "+est"
    ∷ pass_flow "+rel"
    ∷ fstr (
        "table="
        ∷ table 2
        ∷ ",action=resubmit\\(,"
        ∷ table 3
        ∷ "\\),goto_table:"
        ∷ show of_table_l2_match
        ∷ [])
    ∷ []

abbrev rewrite_flow : String → String → Option String → String → String
rewrite_flow match ip mac router_mac = fstr (
    "table="
    ∷ table 3
    ∷ ","
    ∷ match
    ∷ "="
    ∷ ip
    ∷ ",action=mod_dl_dst\\("
    ∷ show_option mac
    ∷ "\\),mod_dl_src\\("
    ∷ router_mac
    ∷ "\\)"
    ∷ [])

-- Table 3: the MAC addresses on the way to an end point.
unfoldable pub mac_flows : Env → String → VirtualInterface → InterfaceAddress → List String
mac_flows env router_mac vif addr =
    rewrite_flow "ip,nw_dst" (env.show_ipv4 addr.ipv4) vif.mac router_mac
    ∷ rewrite_flow "ip6,ipv6_dst" (env.show_ipv6 addr.ipv6) vif.mac router_mac
    ∷ []

module _ (env : Env) where
  unfoldable pub point_flows : String → EndPoint → Action World (List String)
  unfolding end_point mac_flows
  point_flows router_mac p = end_point p >>= λ q.
      or_raise (q.1).if_addr attribute_error >>= λ addr. pure (mac_flows env router_mac q.1 addr)

  unfoldable pub server_flows : List EndPoint → Action World (List String)
  unfolding point_flows
  server_flows [] = pure []
  server_flows (dep ∷ deps) = point_flows nat_router_sif_mac dep >>= λ here.
      server_flows deps >>= λ rest. pure (here ++ rest)

  unfoldable pub nat_setup_flows : VerifyTopology → String → NatSpec → Action World (Unit {0})
  unfolding track_flows new_flows later_flows point_flows server_flows
  nat_setup_flows vt br_name spec = elim vt.allow [
    | [] ↦ raise index_error
    | vte ∷ rest ↦ do
      source ← end_point vte.sep
      setup_default_pipeline_on_all_suts env br_name
      on_switch (vte.sep).host
          (execute_ env (fstr ("ovs-ofctl del-flows " ∷ br_name ∷ " table=" ∷ table 0 ∷ [])))
      client ← point_flows nat_router_cif_mac vte.sep
      servers ← server_flows (get_full_deps vte)
      on_switch (vte.sep).host (
          provision_flows env br_name
            (track_flows ++ (new_flows env spec source.1 ++ (later_flows ++ (client ++ servers)))))
  ]
