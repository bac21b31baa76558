-- ===== src/Flow/Input.antt =====
-- generate_input_flows (resources/libraries/python/flowutils.py): the flows of table INPUT, which load
-- the virtual network of a packet into reg0.
use cne_ovs_sit.Base.{
  ℕ, ◌+◌, String, List, [], ◌∷◌, map, get_elem?, Option, none, some, fstr, show, show_value, Value,
  int, str, type_error, Result, ok, err,
}
use cne_ovs_sit.Constants.{of_table_input, of_table_acl}
use cne_ovs_sit.Vif.{VirtualInterface}
use cne_ovs_sit.Flow.Actions.{Deploy, tnl, vlan, qinq, native}
use cne_ovs_sit.Flow.Output.{View, uplink_ports, deploy_of, join_flows}

-- `vif.vni + 100`: a text and a number cannot be added.
abbrev pub outer_vni : Value → Result ℕ
outer_vni (int vni) = ok (vni + 100)
outer_vni (str vni) = err type_error

-- The inner tag in reg0[0..11], the outer one in reg0[16..27].
abbrev pub qinq_text : VirtualInterface → Result ℕ → Result (List String)
qinq_text vif (err e) = err e
qinq_text vif (ok outer) = ok (
    fstr (
      "table="
      ∷ show of_table_input
      ∷ ",in_port="
      ∷ show_value vif.ofp
      ∷ ",priority=100,action=load:"
      ∷ show_value vif.vni
      ∷ "-\\>reg0[0..11],load:"
      ∷ show outer
      ∷ "-\\>reg0[16..27],goto_table:"
      ∷ show of_table_acl
      ∷ [])
    ∷ [])

unfoldable pub vif_input : Option Deploy → VirtualInterface → Result (List String)
vif_input (some qinq) vif = qinq_text vif (outer_vni vif.vni)
vif_input deploy vif = ok (
    fstr (
      "table="
      ∷ show of_table_input
      ∷ ",in_port="
      ∷ show_value vif.ofp
      ∷ ",priority=100,action=load:"
      ∷ show_value vif.vni
      ∷ "-\\>reg0[0..31],goto_table:"
      ∷ show of_table_acl
      ∷ [])
    ∷ [])

unfoldable pub vif_inputs : Option Deploy → List VirtualInterface → List ℕ → Result (List String)
vif_inputs deploy heap [] = ok []
vif_inputs deploy heap (r ∷ rs) = elim (get_elem? heap r) [
  | none ↦ vif_inputs deploy heap rs
  | some vif ↦ join_flows (vif_input deploy vif) (vif_inputs deploy heap rs)
]

module _ (w : View) where
  unfoldable pub external_inputs : Option Deploy → List String
  external_inputs (some tnl) =
      map
        (λ p. fstr (
          "table="
          ∷ show of_table_input
          ∷ ",in_port="
          ∷ show p.ofp
          ∷ ",priority=100,action=move:tun_id[0..31]-\\>reg0[0..31],goto_table:"
          ∷ show of_table_acl
          ∷ []))
        w.bridge.tnl_ports
  external_inputs (some vlan) =
      map
        (λ ofp. fstr (
          "table="
          ∷ show of_table_input
          ∷ ",in_port="
          ∷ show_value ofp
          ∷ ",priority=100,action=move:vlan_tci[0..11]-\\>reg0[0..11],pop_vlan,goto_table:"
          ∷ show of_table_acl
          ∷ []))
        (uplink_ports w)
  external_inputs (some qinq) =
      map
        (λ ofp. fstr (
          "table="
          ∷ show of_table_input
          ∷ ",in_port="
          ∷ show_value ofp
          ∷ ",priority=100,action=move:vlan_tci[0..11]-\\>reg0[16..27],pop_vlan,move:vlan_tci[0..11]-\\>reg0[0..11],pop_vlan,goto_table:"
          ∷ show of_table_acl
          ∷ []))
        (uplink_ports w)
  external_inputs other = []

  -- `native` needs no bridge; any other text than the four gives the interfaces' flows alone.
  unfoldable pub input_flows : Option Deploy → Result (List String)
  unfolding external_inputs
  input_flows (some native) = ok (
      fstr (
        "table="
        ∷ show of_table_input
        ∷ ",priority=100,action=goto_table:"
        ∷ show of_table_acl
        ∷ [])
      ∷ [])
  input_flows deploy =
      join_flows (vif_inputs deploy w.vif_heap w.bridge.vifs) (ok (external_inputs deploy))

  unfoldable pub generate_input_flows : String → Result (List String)
  unfolding input_flows
  generate_input_flows deploy = input_flows (deploy_of deploy)
