-- ===== src/Flow/Output.antt =====
-- generate_output_flows (resources/libraries/python/flowutils.py): the flows of table OUTPUT.
use cne_ovs_sit.Base.{
  ℕ, String, Bool, true, false, List, [], ◌∷◌, ◌++◌, map, get_elem?, Option, none, some, fstr, show,
  show_value, Value, int, str, value_eq, runtime_error, Result, ok, err, if◌then◌else◌, ◌||◌,
}
use text.Mathlib.Text.{◌==◌ as text_eq}
use cne_ovs_sit.Constants.{of_table_output}
use cne_ovs_sit.Ssh.{Env}
use cne_ovs_sit.Vif.{VirtualInterface}
use cne_ovs_sit.Switch.State.{Uplink, TunnelPort, Bridge}
use cne_ovs_sit.Flow.Actions.{
  Deploy, tnl, vlan, qinq, native, append_as, append_all, tnl_as, uplink_as,
}

-- A `deploy` that is none of the four is refused.
unfoldable pub deploy_of : String → Option Deploy
deploy_of s =
    if text_eq s "tnl"
    then some tnl
    else if text_eq s "vlan"
    then some vlan
    else if text_eq s "qinq"
    then some qinq
    else if text_eq s "native"
    then some native
    else none

-- The port numbers of interfaces and uplinks, read through their references.
unfoldable pub vif_ofps : List VirtualInterface → List ℕ → List Value
vif_ofps heap [] = []
vif_ofps heap (r ∷ rs) = elim (get_elem? heap r) [
  | none ↦ vif_ofps heap rs
  | some v ↦ v.ofp ∷ vif_ofps heap rs
]

-- `format` of a port number that is not set gives "None".
abbrev pub uplink_ofp : Uplink → Value
uplink_ofp u = elim u.ofp [ none ↦ str "None" | some ofp ↦ int ofp ]

unfoldable pub uplink_ofps : List Uplink → List ℕ → List Value
uplink_ofps heap [] = []
uplink_ofps heap (r ∷ rs) = elim (get_elem? heap r) [
  | none ↦ uplink_ofps heap rs
  | some u ↦ uplink_ofp u ∷ uplink_ofps heap rs
]

-- `tnl_port.vni != 'flow' and tnl_port.vni != vni` filters a port out.
unfoldable pub relevant : Value → List TunnelPort → List TunnelPort
relevant vni [] = []
relevant vni (p ∷ ps) =
    if value_eq p.vni (str "flow") || value_eq p.vni vni
    then p ∷ relevant vni ps
    else relevant vni ps

-- The loop over the local ports other than the one that the packet came from.
unfoldable pub flood_local : Value → List Value → String → String
flood_local local_ofp [] output_as = output_as
flood_local local_ofp (ofp ∷ ofps) output_as =
    flood_local local_ofp ofps
      (if value_eq ofp local_ofp then output_as else append_as output_as (show_value ofp))

unfoldable pub flood_all : List Value → String → String
flood_all [] output_as = output_as
flood_all (ofp ∷ ofps) output_as = flood_all ofps (append_as output_as (show_value ofp))

-- `flows.extend(…)`, where making the flows may raise.
abbrev pub join_flows : Result (List String) → Result (List String) → Result (List String)
join_flows (ok flows) (ok more) = ok (flows ++ more)
join_flows (ok flows) (err e) = err e
join_flows (err e) more = err e

-- What the methods read: the other hosts' end points, the heaps and the bridge.
pub record View : Type 0 where
  pub env : Env
  pub remotes : List ℕ
  pub vif_heap : List VirtualInterface
  pub uplink_heap : List Uplink
  pub bridge : Bridge

module _ (w : View) where
  abbrev pub uplink_ports : List Value
  uplink_ports = uplink_ofps w.uplink_heap w.bridge.uplinks

  -- The actions towards the external ports, behind those for the local ones.
  unfoldable pub flood_external : Deploy → Bool → Value → String → String
  flood_external tnl tnl_md vni output_as =
      append_all output_as
        (map (λ p. tnl_as w.env w.remotes p tnl_md) (relevant vni w.bridge.tnl_ports))
  flood_external vlan tnl_md vni output_as =
      flood_all uplink_ports (append_as output_as (uplink_as vlan))
  flood_external qinq tnl_md vni output_as =
      flood_all uplink_ports (append_as output_as (uplink_as qinq))
  flood_external native tnl_md vni output_as = flood_all uplink_ports output_as

  -- Floods that begin at a local port; `reg1=0` means that no FIB entry matched.
  unfoldable pub local_floods : Deploy → Bool → Value → List Value → List Value → List String
  local_floods deploy tnl_md vni local_ofps [] = []
  local_floods deploy tnl_md vni local_ofps (local_ofp ∷ rest) =
      fstr (
        "table="
        ∷ show of_table_output
        ∷ ",in_port="
        ∷ show_value local_ofp
        ∷ ",reg1=0,priority=100,action="
        ∷ flood_external deploy tnl_md vni (flood_local local_ofp local_ofps "")
        ∷ [])
      ∷ local_floods deploy tnl_md vni local_ofps rest

  -- Floods that begin at an external port go to local ports only. With tunnel metadata the flow
  -- matches it.
  unfoldable pub external_flood : Deploy → Bool → Value → String → List String
  external_flood tnl true vni output_as =
      map
        (λ p. fstr (
          "table="
          ∷ show of_table_output
          ∷ ",in_port="
          ∷ show p.ofp
          ∷ ",reg0="
          ∷ show_value vni
          ∷ ",reg1=0,tun_metadata0="
          ∷ show_value vni
          ∷ ",tun_metadata1=0x1234567890abcdef,priority=100,action="
          ∷ output_as
          ∷ []))
        w.bridge.tnl_ports
  external_flood tnl false vni output_as =
      map
        (λ p. fstr (
          "table="
          ∷ show of_table_output
          ∷ ",in_port="
          ∷ show p.ofp
          ∷ ",reg0="
          ∷ show_value vni
          ∷ ",reg1=0,priority=100,action="
          ∷ output_as
          ∷ []))
        w.bridge.tnl_ports
  external_flood native tnl_md vni output_as =
      map
        (λ ofp. fstr (
          "table="
          ∷ show of_table_output
          ∷ ",in_port="
          ∷ show_value ofp
          ∷ ",reg1=0,priority=100,action="
          ∷ output_as
          ∷ []))
        uplink_ports
  external_flood vlan_or_qinq tnl_md vni output_as =
      map
        (λ ofp. fstr (
          "table="
          ∷ show of_table_output
          ∷ ",in_port="
          ∷ show_value ofp
          ∷ ",reg0[0..11]="
          ∷ show_value vni
          ∷ ",reg1=0,priority=100,action="
          ∷ output_as
          ∷ []))
        uplink_ports

  -- The flooding flows of one VNI. Its two guards raise.
  abbrev pub flood_with : Deploy → Bool → Value → List Value → String → Result (List String)
  flood_with deploy tnl_md vni local_ofps String.[] =
      err (runtime_error "we cannot have empty local vifs")
  flood_with deploy tnl_md vni local_ofps (String.◌∷◌ c output_as) = ok (
      local_floods deploy tnl_md vni local_ofps local_ofps
      ++ external_flood deploy tnl_md vni (String.◌∷◌ c output_as))

  unfoldable pub flood_vni : Deploy → Bool → Value → List Value → Result (List String)
  flood_vni deploy tnl_md vni [] = err (runtime_error "no local vif on vni")
  flood_vni deploy tnl_md vni (ofp ∷ ofps) =
      flood_with deploy tnl_md vni (ofp ∷ ofps) (flood_all (ofp ∷ ofps) "")

  unfoldable pub flood_vnis : Deploy → Bool → List (Value × List ℕ) → Result (List String)
  flood_vnis deploy tnl_md [] = ok []
  flood_vnis deploy tnl_md ((vni, vifs) ∷ vnis) =
      join_flows (flood_vni deploy tnl_md vni (vif_ofps w.vif_heap vifs))
        (flood_vnis deploy tnl_md vnis)

  -- Flows for a known destination port, in `reg1`.
  unfoldable pub unicast_external : Deploy → Bool → List String
  unicast_external tnl tnl_md =
      map
        (λ p. fstr (
          "table="
          ∷ show of_table_output
          ∷ ",reg1="
          ∷ show p.ofp
          ∷ ",priority=20,action="
          ∷ tnl_as w.env w.remotes p tnl_md
          ∷ []))
        w.bridge.tnl_ports
  unicast_external native tnl_md =
      map
        (λ ofp. fstr (
          "table="
          ∷ show of_table_output
          ∷ ",reg1="
          ∷ show_value ofp
          ∷ ",priority=20,action="
          ∷ show_value ofp
          ∷ []))
        uplink_ports
  unicast_external deploy tnl_md =
      map
        (λ ofp. fstr (
          "table="
          ∷ show of_table_output
          ∷ ",reg1="
          ∷ show_value ofp
          ∷ ",priority=20,action="
          ∷ uplink_as deploy
          ∷ ","
          ∷ show_value ofp
          ∷ []))
        uplink_ports

  -- For each tunnel port, a check of the metadata of each VNI.
  unfoldable pub check_metadata : List (Value × List ℕ) → TunnelPort → List String
  check_metadata [] p = []
  check_metadata ((vni, vifs) ∷ vnis) p =
      fstr (
        "table="
        ∷ show of_table_output
        ∷ ",in_port="
        ∷ show p.ofp
        ∷ ",tun_metadata0="
        ∷ show_value vni
        ∷ ",tun_metadata1=0x1234567890abcdef,priority=15,action=output:reg1"
        ∷ [])
      ∷ check_metadata vnis p

  unfoldable pub check_ports : List TunnelPort → List String
  unfolding check_metadata
  check_ports [] = []
  check_ports (p ∷ ps) = check_metadata w.bridge.vnis p ++ check_ports ps

  unfoldable pub unicast_vifs : List String
  unicast_vifs =
      map
        (λ ofp. fstr (
          "table="
          ∷ show of_table_output
          ∷ ",reg1="
          ∷ show_value ofp
          ∷ ",priority=10,action="
          ∷ show_value ofp
          ∷ []))
        (vif_ofps w.vif_heap w.bridge.vifs)

  unfoldable pub unicast_flows : Deploy → Bool → List String
  unfolding unicast_external check_ports unicast_vifs
  unicast_flows deploy tnl_md =
      unicast_external deploy tnl_md
      ++ ((if tnl_md then check_ports w.bridge.tnl_ports else []) ++ unicast_vifs)

  unfoldable pub output_flows : Deploy → Bool → Result (List String)
  output_flows deploy tnl_md =
      join_flows (flood_vnis deploy tnl_md w.bridge.vnis) (ok (unicast_flows deploy tnl_md))

  unfoldable pub generate_output_flows : String → Bool → Result (List String)
  unfolding output_flows
  generate_output_flows deploy tnl_md = elim (deploy_of deploy) [
    | none ↦ err (runtime_error (fstr ("setup output flows for " ∷ deploy ∷ " is invalid" ∷ [])))
    | some d ↦ output_flows d tnl_md
  ]
