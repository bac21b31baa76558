-- ===== src/Flow/Rules.antt =====
-- The OUTPUT table as data: what each flow of generate_output_flows
-- (resources/libraries/python/flowutils.py) matches, with which priority, and the actions it has.
use cne_ovs_sit.Base.{
  ℕ, String, Bool, true, false, not, List, [], ◌∷◌, ◌++◌, map, select, fstr, show, show_value,
  Value, int, value_eq,
}
use cne_ovs_sit.Constants.{of_table_output}
use cne_ovs_sit.Switch.State.{TunnelPort}
use cne_ovs_sit.Flow.Actions.{Deploy, tnl, native, join_as, uplink_as, tnl_changes}
use cne_ovs_sit.Flow.Output.{View, uplink_ports, relevant}

pub data Match : Type 0 where
  in_port reg0 reg0_low reg1 tun_metadata0 : Value → Match
  tun_metadata1 : Match

-- To a port, or to the port that reg1 names, or a change of the packet.
pub data Act : Type 0 where
  output : Value → Act
  output_reg1 : Act
  change : String → Act

pub record Rule : Type 0 where
  pub matches : List Match
  pub priority : ℕ
  pub actions : List Act

unfoldable pub act_text : Act → String
act_text (output p) = show_value p
act_text output_reg1 = "output:reg1"
act_text (change text) = text

unfoldable pub match_texts : List Match → List String → List String
match_texts [] rest = rest
match_texts (in_port v ∷ ms) rest = "in_port=" ∷ show_value v ∷ "," ∷ match_texts ms rest
match_texts (reg0 v ∷ ms) rest = "reg0=" ∷ show_value v ∷ "," ∷ match_texts ms rest
match_texts (reg0_low v ∷ ms) rest = "reg0[0..11]=" ∷ show_value v ∷ "," ∷ match_texts ms rest
match_texts (reg1 v ∷ ms) rest = "reg1=" ∷ show_value v ∷ "," ∷ match_texts ms rest
match_texts (tun_metadata0 v ∷ ms) rest =
    "tun_metadata0=" ∷ show_value v ∷ "," ∷ match_texts ms rest
match_texts (tun_metadata1 ∷ ms) rest = "tun_metadata1=0x1234567890abcdef," ∷ match_texts ms rest

unfoldable pub render : Rule → String
unfolding match_texts act_text
render r = fstr (
    "table="
    ∷ show of_table_output
    ∷ ","
    ∷ match_texts r.matches
        ("priority=" ∷ show r.priority ∷ ",action=" ∷ join_as (map act_text r.actions) ∷ []))

-- The local ports but one.
abbrev pub others : Value → List Value → List Value
others p ofps = select (λ q. not (value_eq q p)) ofps

abbrev pub outputs : List Value → List Act
outputs ofps = map output ofps

module _ (w : View) where
  abbrev pub tnl_acts : Bool → TunnelPort → List Act
  tnl_acts tnl_md p = map change (tnl_changes w.env w.remotes p tnl_md) ++ output (int p.ofp) ∷ []

  abbrev pub all_tnl_acts : Bool → List TunnelPort → List Act
  all_tnl_acts tnl_md [] = []
  all_tnl_acts tnl_md (p ∷ ps) = tnl_acts tnl_md p ++ all_tnl_acts tnl_md ps

  -- What a flood sends out of the bridge: through the tunnel ports of the VNI, or through the
  -- uplinks, with the tags pushed once.
  unfoldable pub external_acts : Deploy → Bool → Value → List Act
  external_acts tnl tnl_md vni = all_tnl_acts tnl_md (relevant vni w.bridge.tnl_ports)
  external_acts native tnl_md vni = outputs (uplink_ports w)
  external_acts deploy tnl_md vni = change (uplink_as deploy) ∷ outputs (uplink_ports w)

  unfoldable pub local_flood_rule : Deploy → Bool → Value → List Value → Value → Rule
  unfolding external_acts
  local_flood_rule deploy tnl_md vni local_ofps p = record {
    matches = in_port p ∷ reg1 (int 0) ∷ [];
    priority = 100;
    actions = outputs (others p local_ofps) ++ external_acts deploy tnl_md vni;
  }

  abbrev external_matches : Deploy → Bool → Value → Value → List Match
  external_matches tnl true vni p =
      in_port p ∷ reg0 vni ∷ reg1 (int 0) ∷ tun_metadata0 vni ∷ tun_metadata1 ∷ []
  external_matches tnl false vni p = in_port p ∷ reg0 vni ∷ reg1 (int 0) ∷ []
  external_matches native tnl_md vni p = in_port p ∷ reg1 (int 0) ∷ []
  external_matches deploy tnl_md vni p = in_port p ∷ reg0_low vni ∷ reg1 (int 0) ∷ []

  unfoldable pub external_flood_rule : Deploy → Bool → Value → List Value → Value → Rule
  external_flood_rule deploy tnl_md vni local_ofps p = record {
    matches = external_matches deploy tnl_md vni p;
    priority = 100;
    actions = outputs local_ofps;
  }

  -- The ports that lead out of the bridge.
  unfoldable pub external_ports : Deploy → List Value
  external_ports tnl = map (λ p. int p.ofp) w.bridge.tnl_ports
  external_ports deploy = uplink_ports w

  unfoldable pub flood_rules : Deploy → Bool → Value → List Value → List Rule
  unfolding local_flood_rule external_flood_rule external_ports
  flood_rules deploy tnl_md vni local_ofps =
      map (local_flood_rule deploy tnl_md vni local_ofps) local_ofps
      ++ map (external_flood_rule deploy tnl_md vni local_ofps) (external_ports deploy)
