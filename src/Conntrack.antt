-- ===== src/Conntrack.antt =====
-- Connection tracking (resources/libraries/python/conntrack.py): the flows of table ACL.
pub mod Coverage
use cne_ovs_sit.Base.{
  ℕ, String, List, [], ◌∷◌, ◌++◌, get_elem?, Option, fstr, append, show, show_option, show_value,
  Value, int, index_error, Action, pure, or_raise, lift, ◌>>=◌, ◌>>◌, if◌then◌else◌,
}
use text.Mathlib.Text.{◌==◌ as text_eq}
use cne_ovs_sit.Constants.{of_table_acl, of_table_core}
use cne_ovs_sit.Ssh.{Env}
use cne_ovs_sit.Vif.{VirtualInterface}
use cne_ovs_sit.Switch.State.{TunnelPort}
use cne_ovs_sit.Switch.Exec.{execute_}
use cne_ovs_sit.World.{World, read_sut, on_switch, for_suts, view}
use cne_ovs_sit.Flow.Output.{View, vif_ofps, uplink_ports}
use cne_ovs_sit.Flow.Pipeline.{provision_flows}
use cne_ovs_sit.Pal.Topology.{VerifyTopology, verify_topology_allow_originate}

-- A test with UDP opens its ports over TCP.
unfoldable pub protos_of : String → List String
unfolding append
protos_of proto =
    if text_eq proto "udp"
    then "tcp" ∷ "tcp6" ∷ "udp" ∷ "udp6" ∷ []
    else proto ∷ append proto "6" ∷ []

-- Sends a packet that is not tracked yet through the tracker.
abbrev untracked_flow : Value → String → String
untracked_flow ofp proto = fstr (
    "table="
    ∷ show of_table_acl
    ∷ ",in_port="
    ∷ show_value ofp
    ∷ ",priority=100,"
    ∷ proto
    ∷ ",ct_state=-trk,action=ct\\(zone=reg0[0..15],table="
    ∷ show of_table_acl
    ∷ "\\)"
    ∷ [])

-- What a tracked packet of the zone does in a state.
abbrev tracked_flow : Value → Value → String → String → String
tracked_flow vni ofp proto rest = fstr (
    "table="
    ∷ show of_table_acl
    ∷ ",in_port="
    ∷ show_value ofp
    ∷ ",priority=100,"
    ∷ proto
    ∷ ",ct_zone="
    ∷ show_value vni
    ∷ rest
    ∷ [])

unfoldable pub track_protos : Value → Value → List String → List String
track_protos vni ofp [] = []
track_protos vni ofp (p ∷ ps) =
    untracked_flow ofp p
    ∷ tracked_flow vni ofp p (
        fstr (
          ",ct_state=+trk+new,action=ct\\(commit,zone="
          ∷ show_value vni
          ∷ "\\),goto_table:"
          ∷ show of_table_core
          ∷ []))
    ∷ tracked_flow vni ofp p
        (fstr (",ct_state=+trk+est,action=goto_table:" ∷ show of_table_core ∷ []))
    ∷ tracked_flow vni ofp p
        (fstr (",ct_state=+trk+est+rpl,action=goto_table:" ∷ show of_table_core ∷ []))
    ∷ track_protos vni ofp ps

unfoldable pub generate_flow_track_proto : Value → Value → String → List String
unfolding track_protos protos_of
generate_flow_track_proto vni ofp proto =
    fstr (
      "table="
      ∷ show of_table_acl
      ∷ ",in_port="
      ∷ show_value ofp
      ∷ ",priority=100,ipv6,ip_frag=later,ct_state=-trk,action=ct\\(zone=reg0[0..15],table="
      ∷ show of_table_acl
      ∷ "\\)"
      ∷ [])
    ∷ track_protos vni ofp (protos_of proto)

-- Each port of a list in turn.
unfoldable pub track_ports : Value → String → List Value → List String
unfolding generate_flow_track_proto
track_ports vni proto [] = []
track_ports vni proto (ofp ∷ ofps) =
    generate_flow_track_proto vni ofp proto ++ track_ports vni proto ofps

abbrev pub tnl_ofps : List TunnelPort → List Value
tnl_ofps [] = []
tnl_ofps (p ∷ ps) = int p.ofp ∷ tnl_ofps ps

-- The flows of the VNIs' own interfaces, and of the ports that lead out of the bridge.
unfoldable pub track_vifs : String → List VirtualInterface → List (Value × List ℕ) → List String
unfolding track_ports
track_vifs proto heap [] = []
track_vifs proto heap ((vni, vifs) ∷ vnis) =
    track_ports vni proto (vif_ofps heap vifs) ++ track_vifs proto heap vnis

unfoldable pub track_trunks : String → List Value → List (Value × List ℕ) → List String
unfolding track_ports
track_trunks proto trunks [] = []
track_trunks proto trunks ((vni, _) ∷ vnis) =
    track_ports vni proto trunks ++ track_trunks proto trunks vnis

-- ARP and neighbour discovery always pass; anything that no flow matches is dropped.
abbrev pub default_flows : List String
default_flows =
    fstr ("table=" ∷ show of_table_acl ∷ ",priority=1,action=drop" ∷ [])
    ∷ fstr (
        "table="
        ∷ show of_table_acl
        ∷ ",priority=2000,arp,action=goto_table:"
        ∷ show of_table_core
        ∷ [])
    ∷ fstr (
        "table="
        ∷ show of_table_acl
        ∷ ",priority=2000,icmp6,icmp_type=135,action=goto_table:"
        ∷ show of_table_core
        ∷ [])
    ∷ fstr (
        "table="
        ∷ show of_table_acl
        ∷ ",priority=2000,icmp6,icmp_type=136,action=goto_table:"
        ∷ show of_table_core
        ∷ [])
    ∷ []

unfoldable pub acl_flows : View → String → List String
unfolding track_vifs track_trunks
acl_flows w proto =
    default_flows
    ++ (track_vifs proto w.vif_heap w.bridge.vnis
        ++ track_trunks proto (tnl_ofps w.bridge.tnl_ports ++ uplink_ports w) w.bridge.vnis)

-- The two states in which a packet towards `mac` that opens a connection is dropped.
unfoldable pub deny_flows : Option String → List String → List String
deny_flows mac [] = []
deny_flows mac (p ∷ ps) =
    fstr (
      "table="
      ∷ show of_table_acl
      ∷ ",priority=2000,ct_state=+trk+new,dl_dst="
      ∷ show_option mac
      ∷ ","
      ∷ p
      ∷ ",action=drop"
      ∷ [])
    ∷ fstr (
        "table="
        ∷ show of_table_acl
        ∷ ",priority=2000,ct_state=+trk+inv,dl_dst="
        ∷ show_option mac
        ∷ ","
        ∷ p
        ∷ ",action=drop"
        ∷ [])
    ∷ deny_flows mac ps

module _ (env : Env) where
  unfoldable pub acl_setup_allow_proto : String → String → ℕ → Action World (Unit {0})
  unfolding acl_flows
  acl_setup_allow_proto br_name proto i = do
    on_switch i (
        execute_ env (fstr ("ovs-ofctl del-flows " ∷ br_name ∷ " table=" ∷ show of_table_acl ∷ [])))
    w ← view env i br_name
    on_switch i (provision_flows env br_name (acl_flows w proto))

  unfoldable pub acl_setup_allow_proto_on_all_suts : String → String → Action World (Unit {0})
  unfolding acl_setup_allow_proto
  acl_setup_allow_proto_on_all_suts br_name proto = for_suts (acl_setup_allow_proto br_name proto)

  unfoldable pub acl_setup_allow_originate :
      String → String → VerifyTopology → Action World VerifyTopology
  unfolding deny_flows append
  acl_setup_allow_originate br_name proto vt = do
    (sep, new_vt) ← lift (verify_topology_allow_originate vt)
    sut ← read_sut sep.host
    vif ← or_raise (get_elem? sut.vswitch.vif_heap sep.vif) index_error
    on_switch sep.host
        (provision_flows env br_name (deny_flows vif.mac (proto ∷ append proto "6" ∷ [])))
    pure new_vt
