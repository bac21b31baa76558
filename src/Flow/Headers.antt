-- ===== src/Flow/Headers.antt =====
-- What the actions of a flood do besides sending (_tnl_as and _uplink_as in
-- resources/libraries/python/flowutils.py): they set header fields.
use cne_ovs_sit.Base.{
  ℕ, String, Bool, true, false, List, [], ◌∷◌, ◌++◌, map, fstr, All, All-append, Value, int, str,
  value_eq, if◌then◌else◌, ◌⊎◌, inl, inr, ◌≡◌, refl,
}
use cne_ovs_sit.Switch.State.{TunnelPort}
use cne_ovs_sit.Flow.Actions.{
  Deploy, tnl, vlan, qinq, native, tnl_changes, dst_actions, uplink_as, rip_is_flow,
}
use cne_ovs_sit.Flow.Output.{View, uplink_ports, relevant}
use cne_ovs_sit.Flow.Rules.{
  Act, output, output_reg1, change, outputs, tnl_acts, all_tnl_acts, external_acts,
}

-- The texts that set header fields of what leaves the bridge: the tags of an uplink, and the key, the
-- destination and the metadata of a tunnel.
abbrev pub SetsHeader : View → Deploy → String → Type 0
SetsHeader w vlan t =
    t ≡ "push_vlan:0x8100,move:reg0[0..11]-\\>vlan_tci[0..11],load:1-\\>vlan_tci[12]"
SetsHeader w qinq t =
    t
    ≡ "push_vlan:0x8100,move:reg0[0..11]-\\>vlan_tci[0..11],load:1-\\>vlan_tci[12],push_vlan:0x88a8,move:reg0[16..27]-\\>vlan_tci[0..11],load:1-\\>vlan_tci[12]"
SetsHeader w native t = ⊥
SetsHeader w tnl t =
    ((a : ℕ) × (t ≡ fstr ("set_field:" ∷ w.env.show_ipv4 a ∷ "-\\>tun_dst" ∷ [])))
    ⊎ (t ≡ "move:reg0-\\>tun_id[0..31]")
    ⊎ (t ≡ "move:reg0-\\>tun_metadata0[0..31]")
    ⊎ (t ≡ "set_field:0x1234567890abcdef-\\>tun_metadata1")

-- An action that sends to a port by its number or sets such a field, and nothing else.
abbrev pub IsPlain : View → Deploy → Act → Type 0
IsPlain w d (output p) = Unit
IsPlain w d output_reg1 = ⊥
IsPlain w d (change t) = SetsHeader w d t

pub outputs-IsPlain : (w : View) (d : Deploy) (ofps : List Value) → All (IsPlain w d) (outputs ofps)
outputs-IsPlain w d [] = tt
outputs-IsPlain w d (p ∷ ps) = (tt, outputs-IsPlain w d ps)

changes-IsPlain :
    (w : View) (d : Deploy) (texts : List String)
    → All (SetsHeader w d) texts
    → All (IsPlain w d) (map change texts)
changes-IsPlain w d [] h = tt
changes-IsPlain w d (t ∷ ts) h = (h.0, changes-IsPlain w d ts h.1)

module _ (w : View) (tnl_md : Bool) where
  dst-sets : (remotes : List ℕ) → All (SetsHeader w tnl) (dst_actions w.env remotes)
  dst-sets [] = tt
  dst-sets (a ∷ more) = (inl (a, refl), dst-sets more)

  choices-set :
      (to_flow by_flow md : Bool) (dst key meta : List String)
      → All (SetsHeader w tnl) dst
      → All (SetsHeader w tnl) key
      → All (SetsHeader w tnl) meta
      → All (SetsHeader w tnl) (
          (if to_flow then dst else [])
          ++ ((if by_flow then key else []) ++ (if md then meta else [])))
  choices-set to_flow by_flow md dst key meta h k m =
      All-append (SetsHeader w tnl) (if to_flow then dst else [])
        ((if by_flow then key else []) ++ (if md then meta else [])) (chosen to_flow dst h)
        (All-append (SetsHeader w tnl) (if by_flow then key else []) (if md then meta else [])
          (chosen by_flow key k) (chosen md meta m))
    where
      chosen :
          (b : Bool) (texts : List String)
          → All (SetsHeader w tnl) texts
          → All (SetsHeader w tnl) (if b then texts else [])
      chosen true texts h = h
      chosen false texts h = tt

  tnl-IsPlain : (ps : List TunnelPort) → All (IsPlain w tnl) (all_tnl_acts w tnl_md ps)
  tnl-IsPlain [] = tt
  tnl-IsPlain (p ∷ ps) =
      let changes = tnl_changes w.env w.remotes p tnl_md in
      All-append (IsPlain w tnl) (tnl_acts w tnl_md p) (all_tnl_acts w tnl_md ps)
        (All-append (IsPlain w tnl) (map change changes) (output (int p.ofp) ∷ [])
          (changes-IsPlain w tnl changes (
            choices-set (rip_is_flow p.rip) (value_eq p.vni (str "flow")) tnl_md
              (dst_actions w.env w.remotes) ("move:reg0-\\>tun_id[0..31]" ∷ [])
              ("move:reg0-\\>tun_metadata0[0..31]" ∷ "set_field:0x1234567890abcdef-\\>tun_metadata1"
                ∷ [])
              (dst-sets w.remotes) (inr (inl refl), tt)
              (inr (inr (inl refl)), (inr (inr (inr refl)), tt))))
          (tt, tt))
        (tnl-IsPlain ps)

  pub external-IsPlain :
      (d : Deploy) (vni : Value) → All (IsPlain w d) (external_acts w d tnl_md vni)
  unfolding external_acts uplink_as
  external-IsPlain tnl vni = tnl-IsPlain (relevant vni w.bridge.tnl_ports)
  external-IsPlain native vni = outputs-IsPlain w native (uplink_ports w)
  external-IsPlain vlan vni = (refl, outputs-IsPlain w vlan (uplink_ports w))
  external-IsPlain qinq vni = (refl, outputs-IsPlain w qinq (uplink_ports w))
