-- ===== src/Flow/Table.antt =====
-- The whole of table OUTPUT (generate_output_flows in resources/libraries/python/flowutils.py) as rules.
use cne_ovs_sit.Base.{
  append-empty, ℕ, String, Bool, true, false, List, [], ◌∷◌, ◌++◌, map, All, fstr, append, show,
  show_value, Value, int, some, ok, if◌then◌else◌, ◌≡◌, ◌≢◌, refl, sym, ap, ◌∙◌,
}
use mathlib.Core.Path.{ap₂}
use mathlib.Core.List.{map-append}
use cne_ovs_sit.Constants.{of_table_output}
use cne_ovs_sit.Switch.State.{TunnelPort}
use cne_ovs_sit.Flow.Actions.{
  Deploy, tnl, vlan, qinq, native, uplink_as, append_as, join_as, tnl_as, append_as-empty,
}
use cne_ovs_sit.Flow.Output.{
  View, uplink_ports, vif_ofps, deploy_of, flood_vnis, unicast_external, check_metadata,
  check_ports, unicast_vifs, unicast_flows, output_flows, generate_output_flows,
}
use cne_ovs_sit.Flow.Rules.{
  in_port, reg1, tun_metadata0, tun_metadata1, Rule, output, output_reg1, change, render, tnl_acts,
  flood_rules,
}
use cne_ovs_sit.Flow.Refinement.{flood_vni-render, map_texts, tnl_as-eq}

-- A port has a number or a name.
abbrev pub IsNamed : Value → Type 0
IsNamed ofp = show_value ofp ≢ ""

module _ (w : View) where
  -- A packet whose destination is learnt, with its port in `reg1`: through a tunnel, or with the tags
  -- through the uplink.
  unfoldable pub tunnel_rule : Bool → TunnelPort → Rule
  tunnel_rule tnl_md p = record {
    matches = reg1 (int p.ofp) ∷ [];
    priority = 20;
    actions = tnl_acts w tnl_md p;
  }

  unfoldable pub uplink_rule : Deploy → Value → Rule
  uplink_rule native ofp = record {
    matches = reg1 ofp ∷ [];
    priority = 20;
    actions = output ofp ∷ [];
  }
  uplink_rule deploy ofp = record {
    matches = reg1 ofp ∷ [];
    priority = 20;
    actions = change (uplink_as deploy) ∷ output ofp ∷ [];
  }

  unfoldable pub external_rules : Deploy → Bool → List Rule
  unfolding tunnel_rule uplink_rule
  external_rules tnl tnl_md = map (tunnel_rule tnl_md) w.bridge.tnl_ports
  external_rules deploy tnl_md = map (uplink_rule deploy) (uplink_ports w)

  -- With metadata, what comes from a tunnel is sent to a learnt port only if it has them.
  unfoldable pub metadata_rule : Value → TunnelPort → Rule
  metadata_rule vni p = record {
    matches = in_port (int p.ofp) ∷ tun_metadata0 vni ∷ tun_metadata1 ∷ [];
    priority = 15;
    actions = output_reg1 ∷ [];
  }

  unfoldable pub metadata_rules : List (Value × List ℕ) → TunnelPort → List Rule
  unfolding metadata_rule
  metadata_rules [] p = []
  metadata_rules ((vni, vifs) ∷ vnis) p = metadata_rule vni p ∷ metadata_rules vnis p

  unfoldable pub all_metadata_rules : List TunnelPort → List Rule
  unfolding metadata_rules
  all_metadata_rules [] = []
  all_metadata_rules (p ∷ ps) = metadata_rules w.bridge.vnis p ++ all_metadata_rules ps

  unfoldable pub vif_rule : Value → Rule
  vif_rule ofp = record { matches = reg1 ofp ∷ []; priority = 10; actions = output ofp ∷ [] }

  unfoldable pub flood_table : Deploy → Bool → List (Value × List ℕ) → List Rule
  flood_table deploy tnl_md [] = []
  flood_table deploy tnl_md ((vni, vifs) ∷ vnis) =
      flood_rules w deploy tnl_md vni (vif_ofps w.vif_heap vifs) ++ flood_table deploy tnl_md vnis

  unfoldable pub output_rules : Deploy → Bool → List Rule
  unfolding external_rules all_metadata_rules vif_rule flood_table
  output_rules deploy tnl_md =
      flood_table deploy tnl_md w.bridge.vnis
      ++ (external_rules deploy tnl_md
          ++ ((if tnl_md then all_metadata_rules w.bridge.tnl_ports else [])
              ++ map vif_rule (vif_ofps w.vif_heap w.bridge.vifs)))

  -- A VNI has a live interface, the first of which has a port.
  abbrev pub HasPorts : Value × List ℕ → Type 0
  HasPorts (vni, vifs) =
      (p : Value) × (ps : List Value) × (vif_ofps w.vif_heap vifs ≡ p ∷ ps) × (show_value p ≢ "")

  flood_vnis-render :
      (d : Deploy) (tnl_md : Bool) (vnis : List (Value × List ℕ))
      → All HasPorts vnis
      → flood_vnis w d tnl_md vnis ≡ ok (map render (flood_table d tnl_md vnis))
  unfolding flood_vnis flood_table
  flood_vnis-render d tnl_md [] h = refl
  flood_vnis-render d tnl_md ((vni, vifs) ∷ vnis) h =
      let (p, ps, ports, named) = h.0 in
      rw (ports, flood_vni-render w d tnl_md vni p ps named, flood_vnis-render d tnl_md vnis h.1)
        (ap ok (
          sym
            (map-append render (flood_rules w d tnl_md vni (p ∷ ps)) (flood_table d tnl_md vnis))))

  vif-render :
      (ofp : Value)
      → fstr (
          "table="
          ∷ show of_table_output
          ∷ ",reg1="
          ∷ show_value ofp
          ∷ ",priority=10,action="
          ∷ show_value ofp
          ∷ [])
        ≡ render (vif_rule ofp)
  unfolding vif_rule render fstr show show_value join_as
  vif-render ofp = rw (append_as-empty (show_value ofp)) refl

  vifs-render : unicast_vifs w ≡ map render (map vif_rule (vif_ofps w.vif_heap w.bridge.vifs))
  unfolding unicast_vifs
  vifs-render =
      map_texts
        (λ ofp. fstr (
          "table="
          ∷ show of_table_output
          ∷ ",reg1="
          ∷ show_value ofp
          ∷ ",priority=10,action="
          ∷ show_value ofp
          ∷ []))
        vif_rule vif-render (vif_ofps w.vif_heap w.bridge.vifs)

  metadata-render :
      (vnis : List (Value × List ℕ)) (p : TunnelPort)
      → check_metadata w vnis p ≡ map render (metadata_rules vnis p)
  unfolding check_metadata metadata_rules metadata_rule render fstr show show_value join_as
      append_as append
  metadata-render [] p = refl
  metadata-render ((vni, vifs) ∷ vnis) p = ap₂ ◌∷◌ refl (metadata-render vnis p)

  all_metadata-render :
      (ps : List TunnelPort) → check_ports w ps ≡ map render (all_metadata_rules ps)
  unfolding check_ports all_metadata_rules
  all_metadata-render [] = refl
  all_metadata-render (p ∷ ps) =
      ap₂ ◌++◌ (metadata-render w.bridge.vnis p) (all_metadata-render ps)
      ∙ sym (map-append render (metadata_rules w.bridge.vnis p) (all_metadata_rules ps))

  tunnel-render :
      (tnl_md : Bool) (p : TunnelPort)
      → fstr (
          "table="
          ∷ show of_table_output
          ∷ ",reg1="
          ∷ show p.ofp
          ∷ ",priority=20,action="
          ∷ tnl_as w.env w.remotes p tnl_md
          ∷ [])
        ≡ render (tunnel_rule tnl_md p)
  unfolding tunnel_rule render fstr show show_value
  tunnel-render tnl_md p = rw (tnl_as-eq w tnl_md p) refl

  native-render :
      (ofp : Value)
      → fstr (
          "table="
          ∷ show of_table_output
          ∷ ",reg1="
          ∷ show_value ofp
          ∷ ",priority=20,action="
          ∷ show_value ofp
          ∷ [])
        ≡ render (uplink_rule native ofp)
  unfolding uplink_rule render fstr show show_value join_as
  native-render ofp = rw (append_as-empty (show_value ofp)) refl

  append_as-comma : (s t : String) → s ≢ "" → t ≢ "" → append_as s t ≡ append s (append "," t)
  unfolding append_as
  append_as-comma String.[] t h k = absurd (h refl)
  append_as-comma (String.◌∷◌ c s) String.[] h k = absurd (k refl)
  append_as-comma (String.◌∷◌ c s) (String.◌∷◌ d t) h k = refl

  uplink_as-nonempty : (d : Deploy) → uplink_as d ≢ ""
  unfolding uplink_as
  uplink_as-nonempty tnl e = cc
  uplink_as-nonempty vlan e = cc
  uplink_as-nonempty qinq e = cc
  uplink_as-nonempty native e = cc

  tagged_text :
      (s t : String)
      → s ≢ ""
      → t ≢ ""
      → append s (append "," (append t "")) ≡ append (append_as s (append_as t "")) ""
  tagged_text s t h k =
      rw
        (
          append_as-empty t,
          append_as-comma s t h k,
          append-empty t,
          append-empty (append s (append "," t)),
        )
        refl

  abbrev tagged_flow : Deploy → Value → String
  tagged_flow d ofp = fstr (
      "table="
      ∷ show of_table_output
      ∷ ",reg1="
      ∷ show_value ofp
      ∷ ",priority=20,action="
      ∷ uplink_as d
      ∷ ","
      ∷ show_value ofp
      ∷ [])

  abbrev behind_tags : Value → String → String
  behind_tags ofp actions =
      append "table=80,reg1=" (append (show_value ofp) (append ",priority=20,action=" actions))

  vlan-render :
      (ofp : Value) → show_value ofp ≢ "" → tagged_flow vlan ofp ≡ render (uplink_rule vlan ofp)
  unfolding uplink_rule render fstr show show_value join_as append
  vlan-render ofp h =
      ap (behind_tags ofp)
        (tagged_text (uplink_as vlan) (show_value ofp) (uplink_as-nonempty vlan) h)

  qinq-render :
      (ofp : Value) → show_value ofp ≢ "" → tagged_flow qinq ofp ≡ render (uplink_rule qinq ofp)
  unfolding uplink_rule render fstr show show_value join_as append
  qinq-render ofp h =
      ap (behind_tags ofp)
        (tagged_text (uplink_as qinq) (show_value ofp) (uplink_as-nonempty qinq) h)

  map_named :
      (f : Value → String) (r : Value → Rule)
      → ((ofp : Value) → IsNamed ofp → f ofp ≡ render (r ofp))
      → (ofps : List Value) → All IsNamed ofps
      → map f ofps ≡ map render (map r ofps)
  map_named f r h [] k = refl
  map_named f r h (ofp ∷ ofps) k = ap₂ ◌∷◌ (h ofp k.0) (map_named f r h ofps k.1)

  external-render :
      (d : Deploy) (tnl_md : Bool)
      → All IsNamed (uplink_ports w)
      → unicast_external w d tnl_md ≡ map render (external_rules d tnl_md)
  unfolding unicast_external external_rules
  external-render tnl tnl_md h =
      map_texts _ (tunnel_rule tnl_md) (tunnel-render tnl_md) w.bridge.tnl_ports
  external-render native tnl_md h = map_texts _ (uplink_rule native) native-render (uplink_ports w)
  external-render vlan tnl_md h =
      map_named (tagged_flow vlan) (uplink_rule vlan) vlan-render (uplink_ports w) h
  external-render qinq tnl_md h =
      map_named (tagged_flow qinq) (uplink_rule qinq) qinq-render (uplink_ports w) h

  unicast-render :
      (d : Deploy) (tnl_md : Bool)
      → All IsNamed (uplink_ports w)
      → unicast_flows w d tnl_md
        ≡ map render (
            external_rules d tnl_md
            ++ ((if tnl_md then all_metadata_rules w.bridge.tnl_ports else [])
                ++ map vif_rule (vif_ofps w.vif_heap w.bridge.vifs)))
  unfolding unicast_flows
  unicast-render d true h =
      simp
        (map-append, external-render d true h, all_metadata-render w.bridge.tnl_ports, vifs-render)
  unicast-render d false h = simp (map-append, external-render d false h, vifs-render)

  -- Where the bridge's VNIs have ports and its uplinks have numbers, generate_output_flows returns, for each
  -- of the four deployments, with and without tunnel metadata, exactly the texts of the rules: the
  -- floods of each VNI, the learnt external ports, the checks of metadata and the learnt interfaces.
  pub generate_output_flows-render :
      (deploy : String) (d : Deploy) (tnl_md : Bool)
      → deploy_of deploy ≡ some d
      → All HasPorts w.bridge.vnis
      → All IsNamed (uplink_ports w)
      → generate_output_flows w deploy tnl_md ≡ ok (map render (output_rules d tnl_md))
  unfolding generate_output_flows output_flows output_rules
  generate_output_flows-render deploy d tnl_md known ports named =
      rw
        (
          known,
          generate_output_flows,
          flood_vnis-render d tnl_md w.bridge.vnis ports,
          unicast-render d tnl_md named,
        )
        (ap ok (sym (map-append render (flood_table d tnl_md w.bridge.vnis) _)))
