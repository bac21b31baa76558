-- ===== src/Overlay.antt =====
-- Overlay deployment (resources/libraries/python/overlay.py).
pub mod Assign
pub mod Removal
use cne_ovs_sit.Base.{
  ℕ, zero, suc, ◌+◌, String, Bool, true, false, List, [], ◌∷◌, ◌++◌, map, length, get_elem?,
  modify_at, Option, none, some, fstr, show, Value, str, attribute_error, Action, for_each, pure,
  gets, or_raise, modify, lift, ◌>>=◌, ◌>>◌, if◌then◌else◌,
}
use text.Mathlib.Text.{◌==◌ as text_eq}
use cne_ovs_sit.Constants.{vni_none}
use cne_ovs_sit.Ssh.{Env}
use cne_ovs_sit.Vif.{VirtualInterface}
use cne_ovs_sit.Switch.State.{
  Rip, flow, address, TunnelPort, Bridge, VirtualSwitch, Method, update_bridge,
}
use cne_ovs_sit.Switch.Exec.{execute_}
use cne_ovs_sit.Switch.Vnis.{refresh_bridge_vnis}
use cne_ovs_sit.Switch.Bridges.{
  get_bridge, create_tunnel_port, delete_tunnel_port, set_vlan_limit, set_uplink_mtu,
}
use cne_ovs_sit.World.{VirtualMachine, Sut, World, read_sut, on_switch, for_suts, view, remote_teps}
use cne_ovs_sit.Flow.Output.{generate_output_flows}
use cne_ovs_sit.Flow.Input.{generate_input_flows}
use cne_ovs_sit.Flow.Pipeline.{
  delete_flows, provision_flows, clear_input_output_flows, setup_default_pipeline_on_all_suts,
}

-- The VNIs of the map's keys, in its order.
abbrev vni_keys : List (Value × List ℕ) → List Value
vni_keys [] = []
vni_keys ((vni, _) ∷ vnis) = vni ∷ vni_keys vnis

module _ (env : Env) where
  -- A failing command raises, so the tests of the return code behind these two never hold.
  unfoldable pub add_tlv_map : String → Method (Unit {0})
  add_tlv_map br_name = execute_ env (
      fstr (
        "ovs-ofctl add-tlv-map " ∷ br_name
        ∷ " \"{class=0xffff,type=0,len=4}->tun_metadata0,{class=0xffff,type=1,len=8}->tun_metadata1\""
        ∷ []))

  unfoldable pub del_tlv_map : String → Method (Unit {0})
  del_tlv_map br_name = execute_ env (fstr ("ovs-ofctl del-tlv-map " ∷ br_name ∷ []))

  -- `for tnl_port in br.tnl_ports`, whose body takes ports off that very list: the iterator counts
  -- positions and reads the list anew each time. The position rises in each round, so the list's
  -- length and one more round are enough fuel.
  unfoldable pub delete_ports : ℕ → String → ℕ → ℕ → Method (Unit {0})
  delete_ports zero br_name b position s = (pure tt) s
  delete_ports (suc fuel) br_name b position s = elim (get_elem? s.bridges b) [
    | none ↦ (pure tt) s
    | some br ↦ elim (get_elem? br.tnl_ports position) [
      | none ↦ (pure tt) s
      | some port ↦
          (delete_tunnel_port env br_name port >> delete_ports fuel br_name b (position + 1)) s
    ]
  ]

  unfoldable pub delete_tunnel_ports : String → Method (Unit {0})
  unfolding delete_ports
  delete_tunnel_ports br_name = do
    (b, br) ← or_raise (← get_bridge br_name) attribute_error
    delete_ports (suc (length br.tnl_ports)) br_name b 0

  unfoldable pub delete_tunnel_ports_on_all_suts : String → Action World (Unit {0})
  unfolding delete_tunnel_ports
  delete_tunnel_ports_on_all_suts br_name =
      for_suts (λ i. on_switch i (delete_tunnel_ports br_name))

  -- The ports towards one remote address: one for all VNIs, or one for each VNI of the bridge.
  unfoldable pub create_ports_to : String → String → String → Rip → Method (Unit {0})
  create_ports_to br_name tnl_type vni_mode rip =
      if text_eq vni_mode "flow"
      then create_tunnel_port env br_name tnl_type rip (str "flow") >> pure tt
      else (do
        (_, br) ← or_raise (← get_bridge br_name) attribute_error
        for_each (vni_keys br.vnis)
            (λ vni. create_tunnel_port env br_name tnl_type rip vni >> pure tt))

  unfoldable pub create_tunnel_ports :
      String → String → String → String → List ℕ → Method (Unit {0})
  unfolding create_ports_to
  create_tunnel_ports br_name tnl_type rip_mode vni_mode remotes =
      if text_eq rip_mode "flow"
      then create_ports_to br_name tnl_type vni_mode flow
      else for_each remotes (λ a. create_ports_to br_name tnl_type vni_mode (address a))

  unfoldable pub create_tunnel_ports_on_all_suts :
      String → String → String → String → Action World (Unit {0})
  create_tunnel_ports_on_all_suts br_name tnl_type rip_mode vni_mode = for_suts (λ i. do
    remotes ← gets (remote_teps i 0)
    on_switch i (create_tunnel_ports br_name tnl_type rip_mode vni_mode remotes))

  -- The TLV map goes last: active flows may use it.
  unfoldable pub clear_overlay_flows : String → Method (Unit {0})
  clear_overlay_flows br_name = do
    delete_flows env br_name
    (b, br) ← or_raise (← get_bridge br_name) attribute_error
    if br.with_md
        then (del_tlv_map br_name >> modify (update_bridge b (λ br. record br { with_md = false })))
        else pure tt

  unfoldable pub overlay_flow_clear : String → Action World (Unit {0})
  unfolding clear_overlay_flows
  overlay_flow_clear br_name = for_suts (λ i. on_switch i (clear_overlay_flows br_name))

  -- `with_md` is noted on the bridge before the flows are made.
  unfoldable pub enable_metadata : String → Bool → Method (Unit {0})
  enable_metadata br_name with_md = do
    found ← get_bridge br_name
    if with_md
        then (do
          add_tlv_map br_name
          (b, _) ← or_raise found attribute_error
          modify (update_bridge b (λ br. record br { with_md = true })))
        else pure tt

  -- The INPUT and OUTPUT tables of one node for a deployment.
  unfoldable pub deploy_flows : String → String → Bool → ℕ → Action World (Unit {0})
  deploy_flows br_name deploy with_md i = do
    on_switch i (clear_input_output_flows env br_name)
    w ← view env i br_name
    inputs ← lift (generate_input_flows w deploy)
    outputs ← lift (generate_output_flows w deploy with_md)
    on_switch i (provision_flows env br_name (inputs ++ outputs))

  unfoldable pub tunnel_overlay_flow_setup : String → Bool → Action World (Unit {0})
  unfolding deploy_flows
  tunnel_overlay_flow_setup br_name with_md =
      for_suts
        (λ i. on_switch i (enable_metadata br_name with_md) >> deploy_flows br_name "tnl" with_md i)

  unfoldable pub l2_overlay_flow_setup : String → String → Action World (Unit {0})
  unfolding deploy_flows
  l2_overlay_flow_setup br_name mode = for_suts (deploy_flows br_name mode false)

  unfoldable pub deploy_vni_as_tunnel_overlay :
      String → String → String → String → Bool → Action World (Unit {0})
  deploy_vni_as_tunnel_overlay br_name tnl_type rip_mode tun_id_mode tnl_md = do
    create_tunnel_ports_on_all_suts br_name tnl_type rip_mode tun_id_mode
    setup_default_pipeline_on_all_suts env br_name
    tunnel_overlay_flow_setup br_name tnl_md

  unfoldable pub undeploy_vni_as_tunnel_overlay : String → Action World (Unit {0})
  undeploy_vni_as_tunnel_overlay br_name = do
    overlay_flow_clear br_name
    delete_tunnel_ports_on_all_suts br_name

  unfoldable pub deploy_vni_as_vlan_overlay : String → Action World (Unit {0})
  deploy_vni_as_vlan_overlay br_name = do
    setup_default_pipeline_on_all_suts env br_name
    l2_overlay_flow_setup br_name "vlan"

  unfoldable pub undeploy_vni_as_vlan_overlay : String → Action World (Unit {0})
  undeploy_vni_as_vlan_overlay br_name = overlay_flow_clear br_name

  unfoldable pub deploy_vni_as_qinq_overlay : String → Action World (Unit {0})
  deploy_vni_as_qinq_overlay br_name = do
    for_suts (λ i. on_switch i (set_vlan_limit env 2))
    setup_default_pipeline_on_all_suts env br_name
    l2_overlay_flow_setup br_name "qinq"

  unfoldable pub undeploy_vni_as_qinq_overlay : String → Action World (Unit {0})
  undeploy_vni_as_qinq_overlay br_name = do
    for_suts (λ i. on_switch i (set_vlan_limit env 2 >> set_uplink_mtu env 1500))
    overlay_flow_clear br_name
