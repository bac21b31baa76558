-- ===== src/Flow/Actions.antt =====
-- The action texts of resources/libraries/python/flowutils.py: _append_as, _tnl_as and _uplink_as.
use cne_ovs_sit.Base.{
  ℕ, String, Bool, true, false, List, [], ◌∷◌, ◌++◌, map, fstr, append, append_assoc, show, str,
  value_eq, if◌then◌else◌, ◌≡◌, refl, sym, ap, ◌∙◌,
}
use cne_ovs_sit.Ssh.{Env}
use cne_ovs_sit.Switch.State.{Rip, flow, address, TunnelPort}

-- Texts joined by commas, where an empty text leaves the other one unchanged.
unfoldable pub append_as : String → String → String
unfolding append
append_as String.[] action = action
append_as (String.◌∷◌ c actions) String.[] = String.◌∷◌ c actions
append_as (String.◌∷◌ c actions) (String.◌∷◌ d action) =
    append (String.◌∷◌ c actions) (append "," (String.◌∷◌ d action))

-- The loops that append one action after the other.
unfoldable pub append_all : String → List String → String
append_all actions [] = actions
append_all actions (a ∷ more) = append_all (append_as actions a) more

-- What such a loop leaves, described from the right.
unfoldable pub join_as : List String → String
join_as [] = ""
join_as (a ∷ more) = append_as a (join_as more)

-- The test `tnl_port.rip == 'flow'`
abbrev pub rip_is_flow : Rip → Bool
rip_is_flow flow = true
rip_is_flow (address a) = false

-- `remotes` are the tunnel end points of the other hosts.
abbrev pub dst_actions : Env → List ℕ → List String
dst_actions env remotes =
    map (λ a. fstr ("set_field:" ∷ env.show_ipv4 a ∷ "-\\>tun_dst" ∷ [])) remotes

unfoldable pub tnl_as : Env → List ℕ → TunnelPort → Bool → String
tnl_as env remotes tnl_port tnl_md =
    let dst = if rip_is_flow tnl_port.rip then append_all "" (dst_actions env remotes) else "" in
    let key =
      if value_eq tnl_port.vni (str "flow")
      then append_as dst "move:reg0-\\>tun_id[0..31]"
      else dst in
    let md =
      if tnl_md
      then append_as (append_as key "move:reg0-\\>tun_metadata0[0..31]")
          "set_field:0x1234567890abcdef-\\>tun_metadata1"
      else key in
    append_as md (show tnl_port.ofp)

-- The deployment types.
pub data Deploy : Type 0 where
  tnl vlan qinq native : Deploy

-- Any type but `vlan` pushes the inner tag, then the outer one.
unfoldable pub uplink_as : Deploy → String
uplink_as vlan = "push_vlan:0x8100,move:reg0[0..11]-\\>vlan_tci[0..11],load:1-\\>vlan_tci[12]"
uplink_as other =
    "push_vlan:0x8100,move:reg0[0..11]-\\>vlan_tci[0..11],load:1-\\>vlan_tci[12],push_vlan:0x88a8,move:reg0[16..27]-\\>vlan_tci[0..11],load:1-\\>vlan_tci[12]"

pub append_as-empty : (s : String) → append_as s "" ≡ s
unfolding append_as
append_as-empty String.[] = refl
append_as-empty (String.◌∷◌ c s) = refl

-- Appending actions is associative, so it does not matter where a list of actions is cut.
pub append_as_assoc : (s t u : String) → append_as (append_as s t) u ≡ append_as s (append_as t u)
unfolding append_as append
append_as_assoc String.[] t u = refl
append_as_assoc (String.◌∷◌ c s) String.[] u = refl
append_as_assoc (String.◌∷◌ c s) (String.◌∷◌ d t) String.[] = refl
append_as_assoc (String.◌∷◌ c s) (String.◌∷◌ d t) (String.◌∷◌ e u) =
    cc (append_assoc s (append "," (String.◌∷◌ d t)) (append "," (String.◌∷◌ e u)))

pub append_all-eq-join_as :
    (s : String) (more : List String) → append_all s more ≡ append_as s (join_as more)
unfolding append_all join_as
append_all-eq-join_as s [] = sym (append_as-empty s)
append_all-eq-join_as s (a ∷ more) =
    append_all-eq-join_as (append_as s a) more ∙ append_as_assoc s a (join_as more)

pub join_as-append :
    (more others : List String)
    → join_as (more ++ others) ≡ append_as (join_as more) (join_as others)
unfolding join_as append_as
join_as-append [] others = refl
join_as-append (a ∷ more) others =
    ap (append_as a) (join_as-append more others)
    ∙ sym (append_as_assoc a (join_as more) (join_as others))

-- The header fields that are set for a tunnel port, one by one.
abbrev pub tnl_changes : Env → List ℕ → TunnelPort → Bool → List String
tnl_changes env remotes tnl_port tnl_md =
    (if rip_is_flow tnl_port.rip then dst_actions env remotes else [])
    ++ ((if value_eq tnl_port.vni (str "flow") then "move:reg0-\\>tun_id[0..31]" ∷ [] else [])
        ++ (if tnl_md
            then "move:reg0-\\>tun_metadata0[0..31]"
              ∷ "set_field:0x1234567890abcdef-\\>tun_metadata1" ∷ []
            else []))

pub empty-append_as : (s : String) → append_as "" s ≡ s
unfolding append_as
empty-append_as s = refl

ruleset joins =
    (append_all-eq-join_as, join_as-append, append_as_assoc, append_as-empty, empty-append_as)

-- The three tests of `tnl_as`, on any texts.
tnl_tests :
    (to_flow by_flow md : Bool) (dst : List String) (key meta static port : String)
    → append_as
        (if md
          then append_as
              (append_as
                (if by_flow
                  then append_as (if to_flow then append_all "" dst else "") key
                  else if to_flow
                  then append_all "" dst
                  else "")
                meta)
              static
          else if by_flow
          then append_as (if to_flow then append_all "" dst else "") key
          else if to_flow
          then append_all "" dst
          else "")
        port
      ≡ join_as (
          ((if to_flow then dst else [])
            ++ ((if by_flow then key ∷ [] else []) ++ (if md then meta ∷ static ∷ [] else [])))
          ++ port ∷ [])
unfolding join_as
tnl_tests true true true dst key meta static port = simp joins
tnl_tests true true false dst key meta static port = simp joins
tnl_tests true false true dst key meta static port = simp joins
tnl_tests true false false dst key meta static port = simp joins
tnl_tests false true true dst key meta static port = simp joins
tnl_tests false true false dst key meta static port = simp joins
tnl_tests false false true dst key meta static port = simp joins
tnl_tests false false false dst key meta static port = simp joins

-- The text for a tunnel port is its actions joined: the destinations if the remote address is set
-- by flow, the key if that is, the metadata if asked for, and the port.
pub tnl_as-eq-join_as :
    (env : Env) (remotes : List ℕ) (tnl_port : TunnelPort) (tnl_md : Bool)
    → tnl_as env remotes tnl_port tnl_md
      ≡ join_as (tnl_changes env remotes tnl_port tnl_md ++ show tnl_port.ofp ∷ [])
unfolding tnl_as
tnl_as-eq-join_as env remotes tnl_port tnl_md =
    tnl_tests (rip_is_flow tnl_port.rip) (value_eq tnl_port.vni (str "flow")) tnl_md
      (dst_actions env remotes) _ _ _ (show tnl_port.ofp)
