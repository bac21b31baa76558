-- ===== src/Flow/Flooding.antt =====
-- Where the flooding rules of table OUTPUT send a packet to.
use cne_ovs_sit.Base.{
  sym, String, Bool, true, false, ◌||◌, List, [], ◌∷◌, ◌++◌, map, All, All-append, ok, show_value,
  ◌⊎◌, Value, int, value_eq, value_eq_self, inl, inr, ◌≡◌, ◌≢◌, refl, ◌∙◌, arith,
}
use mathlib.Core.Path.{ap₂}
use mathlib.Core.List.{map-append}
use cne_ovs_sit.Switch.State.{TunnelPort}
use cne_ovs_sit.Flow.Actions.{Deploy, tnl, vlan, qinq, native, tnl_changes}
use cne_ovs_sit.Flow.Output.{View, uplink_ports, relevant, flood_vni}
use cne_ovs_sit.Flow.Refinement.{flood_vni-render}
use cne_ovs_sit.Flow.Headers.{IsPlain, outputs-IsPlain, external-IsPlain}
use cne_ovs_sit.Flow.Rules.{
  Match, in_port, Rule, render, Act, output, output_reg1, change, others, outputs, tnl_acts,
  all_tnl_acts, external_acts, local_flood_rule, external_flood_rule, external_ports, flood_rules,
}

-- The ports that actions send a packet to, in order.
abbrev pub ports_of : List Act → List Value
ports_of [] = []
ports_of (output p ∷ acts) = p ∷ ports_of acts
ports_of (output_reg1 ∷ acts) = ports_of acts
ports_of (change text ∷ acts) = ports_of acts

ports_of-append : (xs ys : List Act) → ports_of (xs ++ ys) ≡ ports_of xs ++ ports_of ys
ports_of-append [] ys = refl
ports_of-append (output p ∷ xs) ys = cc (ports_of-append xs ys)
ports_of-append (output_reg1 ∷ xs) ys = ports_of-append xs ys
ports_of-append (change text ∷ xs) ys = ports_of-append xs ys

ports_of-outputs : (ofps : List Value) → ports_of (outputs ofps) ≡ ofps
ports_of-outputs [] = refl
ports_of-outputs (p ∷ ps) = cc (ports_of-outputs ps)

ports_of-changes :
    (texts : List String) (acts : List Act) → ports_of (map change texts ++ acts) ≡ ports_of acts
ports_of-changes [] acts = refl
ports_of-changes (t ∷ ts) acts = ports_of-changes ts acts

-- The ports of a VNI that lead out of the bridge.
abbrev pub leaving : View → Deploy → Value → List Value
leaving w tnl vni = map (λ p. int p.ofp) (relevant vni w.bridge.tnl_ports)
leaving w deploy vni = uplink_ports w

module _ (w : View) where
  ports_of-tunnels :
      (tnl_md : Bool) (ps : List TunnelPort)
      → ports_of (all_tnl_acts w tnl_md ps) ≡ map (λ p. int p.ofp) ps
  ports_of-tunnels tnl_md [] = refl
  ports_of-tunnels tnl_md (p ∷ ps) =
      ports_of-append (tnl_acts w tnl_md p) (all_tnl_acts w tnl_md ps)
      ∙ rw
          (
            ports_of-changes (tnl_changes w.env w.remotes p tnl_md) (output (int p.ofp) ∷ []),
            ports_of-tunnels tnl_md ps,
          )
          refl

  ports_of-external :
      (d : Deploy) (tnl_md : Bool) (vni : Value)
      → ports_of (external_acts w d tnl_md vni) ≡ leaving w d vni
  unfolding external_acts
  ports_of-external tnl tnl_md vni = ports_of-tunnels tnl_md (relevant vni w.bridge.tnl_ports)
  ports_of-external native tnl_md vni = ports_of-outputs (uplink_ports w)
  ports_of-external vlan tnl_md vni = ports_of-outputs (uplink_ports w)
  ports_of-external qinq tnl_md vni = ports_of-outputs (uplink_ports w)

  local-ports_of :
      (d : Deploy) (tnl_md : Bool) (vni : Value) (ofps : List Value) (p : Value)
      → ports_of (local_flood_rule w d tnl_md vni ofps p).actions ≡ others p ofps ++ leaving w d vni
  unfolding local_flood_rule
  local-ports_of d tnl_md vni ofps p =
      ports_of-append (outputs (others p ofps)) (external_acts w d tnl_md vni)
      ∙ rw (ports_of-outputs (others p ofps), ports_of-external d tnl_md vni) refl

abbrev pub occurs : Value → List Value → Bool
occurs q [] = false
occurs q (p ∷ ps) = value_eq q p || occurs q ps

-- The port by which a rule's packets come in, which is its first condition.
abbrev pub ComesIn : Value → Rule → Type 0
ComesIn p r = (more : List Match) × (r.matches ≡ in_port p ∷ more)

-- Split horizon: what comes in by a local port goes to the others and out of the bridge, with header
-- fields set on the way, and what comes in from outside is output to the local ports, unchanged.
abbrev pub IsSplitHorizon : View → Deploy → Value → List Value → Rule → Type 0
IsSplitHorizon w d vni ofps r =
    ((p : Value) × ComesIn p r
      × (occurs p ofps ≡ true)
      × (ports_of r.actions ≡ others p ofps ++ leaving w d vni)
      × All (IsPlain w d) r.actions)
    ⊎ ((p : Value) × ComesIn p r
        × (occurs p (external_ports w d) ≡ true)
        × (r.actions ≡ outputs ofps))

-- The first condition of a rule.
abbrev pub entry : Rule → List Match
entry r = first_of r.matches
  where
    first_of : List Match → List Match
    first_of [] = []
    first_of (m ∷ ms) = m ∷ []

All-map-occurs {κ} :
    (P : Rule → Type κ) (r : Value → Rule) (ps qs : List Value)
    → ((p : Value) → occurs p qs ≡ true → P (r p))
    → ((p : Value) → occurs p ps ≡ true → occurs p qs ≡ true)
    → All P (map r ps)
All-map-occurs P r [] qs h k = tt
All-map-occurs P r (p ∷ ps) qs h k = (
  h p (k p (ground (arith, value_eq_self p))),
  All-map-occurs P r ps qs h (λ q e. k q (ground (arith, e))),
)

entries_map :
    (r : Value → Rule) (ps : List Value)
    → ((p : Value) → ComesIn p (r p))
    → map entry (map r ps) ≡ map (λ p. in_port p ∷ []) ps
entries_map r [] h = refl
entries_map r (p ∷ ps) h = ap₂ ◌∷◌ (rw (h p).1 refl) (entries_map r ps h)

module _ (w : View) (d : Deploy) (tnl_md : Bool) (vni : Value) (ofps : List Value) where
  external-ComesIn :
      (d : Deploy) (tnl_md : Bool) (p : Value)
      → ComesIn p (external_flood_rule w d tnl_md vni ofps p)
  unfolding external_flood_rule
  external-ComesIn tnl true p = (_, refl)
  external-ComesIn tnl false p = (_, refl)
  external-ComesIn vlan tnl_md p = (_, refl)
  external-ComesIn qinq tnl_md p = (_, refl)
  external-ComesIn native tnl_md p = (_, refl)

  local-ComesIn : (p : Value) → ComesIn p (local_flood_rule w d tnl_md vni ofps p)
  unfolding local_flood_rule
  local-ComesIn p = (_, refl)

  local-IsPlain : (p : Value) → All (IsPlain w d) (local_flood_rule w d tnl_md vni ofps p).actions
  unfolding local_flood_rule
  local-IsPlain p =
      All-append (IsPlain w d) _ _ (outputs-IsPlain w d (others p ofps))
        (external-IsPlain w tnl_md d vni)

  flood_rules-entries :
      map entry (flood_rules w d tnl_md vni ofps)
      ≡ map (λ p. in_port p ∷ []) (ofps ++ external_ports w d)
  unfolding flood_rules
  flood_rules-entries =
      map-append entry _ _
      ∙ ap₂ ◌++◌ (entries_map (local_flood_rule w d tnl_md vni ofps) ofps local-ComesIn) (
          entries_map (external_flood_rule w d tnl_md vni ofps) (external_ports w d)
            (external-ComesIn d tnl_md))
      ∙ sym (map-append (λ p. in_port p ∷ []) ofps (external_ports w d))

  flood_rules-IsSplitHorizon : All (IsSplitHorizon w d vni ofps) (flood_rules w d tnl_md vni ofps)
  unfolding flood_rules external_flood_rule
  flood_rules-IsSplitHorizon =
      All-append (IsSplitHorizon w d vni ofps) _ _
        (All-map-occurs (IsSplitHorizon w d vni ofps) (local_flood_rule w d tnl_md vni ofps) ofps
          ofps
          (λ p h.
            inl (p, local-ComesIn p, h, local-ports_of w d tnl_md vni ofps p, local-IsPlain p))
          (λ p h. h))
        (All-map-occurs (IsSplitHorizon w d vni ofps) (external_flood_rule w d tnl_md vni ofps)
          (external_ports w d) (external_ports w d)
          (λ p h. inr (p, external-ComesIn d tnl_md p, h, refl)) (λ p h. h))

-- The flooding flows of a VNI with a local port keep the split horizon. They are the texts of rules,
-- one for each local port of the VNI and then one for each port that leads out of the bridge, with
-- that port as the first condition. A rule for a local port outputs to the VNI's other ports and out of
-- the bridge and has no actions but these and the ones that set header fields; a rule for a port from
-- outside only outputs to the VNI's ports. The first port has a non-empty number.
pub flood_vni-IsSplitHorizon :
    (w : View) (d : Deploy) (tnl_md : Bool) (vni p : Value) (ps : List Value)
    → show_value p ≢ ""
    → (rules : List Rule) × All (IsSplitHorizon w d vni (p ∷ ps)) rules
      × (map entry rules ≡ map (λ q. in_port q ∷ []) ((p ∷ ps) ++ external_ports w d))
      × (flood_vni w d tnl_md vni (p ∷ ps) ≡ ok (map render rules))
flood_vni-IsSplitHorizon w d tnl_md vni p ps h = (
  flood_rules w d tnl_md vni (p ∷ ps),
  flood_rules-IsSplitHorizon w d tnl_md vni (p ∷ ps),
  flood_rules-entries w d tnl_md vni (p ∷ ps),
  flood_vni-render w d tnl_md vni p ps h,
)
