-- ===== src/Tests/FlowTests.antt =====
-- Flows of the sample bridge.
use cne_ovs_sit.Base.{
  ℕ, Value, List, [], ◌∷◌, ◌++◌, map, All, none, some, int, str, true, false, show, show_value, ok,
  err, type_error, ◌≡◌, ◌≢◌, refl, inl, inr,
}
use cne_ovs_sit.Flow.Actions.{qinq, tnl, vlan}
use cne_ovs_sit.Flow.Output.{
  View, uplink_ports, uplink_ofps, vif_ofps, deploy_of, generate_output_flows, flood_vni,
}
use cne_ovs_sit.Flow.Input.{external_inputs, generate_input_flows}
use cne_ovs_sit.Flow.Rules.{in_port, external_ports, Rule, render}
use cne_ovs_sit.Flow.Flooding.{IsSplitHorizon, entry, flood_vni-IsSplitHorizon}
use cne_ovs_sit.Flow.Table.{HasPorts, IsNamed, output_rules, generate_output_flows-render}
use cne_ovs_sit.Flow.Tags.{Numbered, tagged, generate_input_flows-tagged, generate_input_flows-text}
use cne_ovs_sit.Conntrack.{generate_flow_track_proto, acl_flows}
use cne_ovs_sit.Conntrack.Coverage.{Block, acl_flows-Block}
use cne_ovs_sit.Tests.Samples.{br0, face, faces, view0}

show_ten : show_value (int 10) ≢ ""
unfolding show_value show
show_ten e = cc

flood_vni-IsSplitHorizon_example :
    (rules : List Rule) × All (IsSplitHorizon view0 tnl (int 5) (int 10 ∷ int 11 ∷ [])) rules
    × (map entry rules
        ≡ map (λ q. in_port q ∷ []) ((int 10 ∷ int 11 ∷ []) ++ external_ports view0 tnl))
    × (flood_vni view0 tnl false (int 5) (int 10 ∷ int 11 ∷ []) ≡ ok (map render rules))
flood_vni-IsSplitHorizon_example =
    flood_vni-IsSplitHorizon view0 tnl false (int 5) (int 10) (int 11 ∷ []) show_ten

abbrev numbers : List (Value × ℕ)
numbers = (int 10, 5) ∷ (int 11, 5) ∷ []

faces-Numbered : Numbered faces (0 ∷ 1 ∷ []) numbers
faces-Numbered = (
  face "vnic0" 10 (int 5),
  5,
  (int 11, 5) ∷ [],
  refl,
  refl,
  refl,
  (face "vnic1" 11 (int 5), 5, [], refl, refl, refl, refl),
)

generate_input_flows-tagged_example :
    generate_input_flows view0 "qinq" ≡ ok (map tagged numbers ++ external_inputs view0 (some qinq))
generate_input_flows-tagged_example = generate_input_flows-tagged view0 numbers faces-Numbered

abbrev text_view : View
text_view = record view0 { vif_heap = face "vnic0" 10 (int 5) ∷ face "vnic1" 11 (str "301") ∷ [] }

generate_input_flows-text_example : generate_input_flows text_view "qinq" ≡ err type_error
generate_input_flows-text_example =
    generate_input_flows-text text_view (0 ∷ []) 1 [] refl
      (face "vnic1" 11 (str "301"), "301", refl, refl)

acl_flows-Block_example :
    Block (generate_flow_track_proto (int 5) (int 100) "udp") (acl_flows view0 "udp")
acl_flows-Block_example =
    acl_flows-Block view0 "udp" 0 (int 5) (0 ∷ 1 ∷ []) (int 100) refl (inr (inl refl))

-- With one uplink, on port 1.
abbrev uplink_view : View
uplink_view = record view0 {
  uplink_heap =
      record {
        pci_addr = some "0000:01:00.0";
        name = some "vlink0";
        ofp = some 1;
        n_queue_pair = none;
        n_rxq_desc = none;
        n_txq_desc = none;
      }
      ∷ [];
  bridge = record br0 { uplinks = 0 ∷ [] };
}

known_vlan : deploy_of "vlan" ≡ some vlan
unfolding deploy_of
known_vlan = refl

vnis-HasPorts : All (HasPorts uplink_view) ((int 5, 0 ∷ 1 ∷ []) ∷ [])
unfolding vif_ofps
vnis-HasPorts = ((int 10, int 11 ∷ [], refl, show_ten), tt)

uplinks-IsNamed : All IsNamed (uplink_ports uplink_view)
unfolding uplink_ofps show_value show
uplinks-IsNamed = ((λ e. cc), tt)

generate_output_flows-render_example :
    generate_output_flows uplink_view "vlan" true
    ≡ ok (map render (output_rules uplink_view vlan true))
generate_output_flows-render_example =
    generate_output_flows-render uplink_view "vlan" vlan true known_vlan vnis-HasPorts
      uplinks-IsNamed
