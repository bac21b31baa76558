-- ===== src/Conntrack/Coverage.antt =====
-- The ports that acl_setup_allow_proto_on_all_suts (resources/libraries/python/conntrack.py) sets
-- tracking flows up for.
use cne_ovs_sit.Base.{
  ℕ, zero, suc, String, List, [], ◌∷◌, ◌++◌, get_elem?, Value, Option, some, ◌≡◌, ap, ◌∙◌, sym, ◌⊎◌,
  inl, inr,
}
use mathlib.Core.List.{append_assoc}
use cne_ovs_sit.Vif.{VirtualInterface}
use cne_ovs_sit.Flow.Output.{View, vif_ofps, uplink_ports}
use cne_ovs_sit.Conntrack.{
  generate_flow_track_proto, track_ports, track_vifs, track_trunks, tnl_ofps, default_flows,
  acl_flows,
}

-- The flows stand one behind the other in a list.
abbrev pub Block : List String → List String → Type 0
Block flows all =
    (before : List String) × (after : List String) × (all ≡ before ++ (flows ++ after))

Block-left : (flows xs ys : List String) → Block flows xs → Block flows (xs ++ ys)
Block-left flows xs ys (before, after, e) = (
  before,
  after ++ ys,
  ap (◌++ ys) e
      ∙ append_assoc before (flows ++ after) ys
      ∙ ap (before ++◌) (append_assoc flows after ys),
)

Block-right : (flows xs ys : List String) → Block flows ys → Block flows (xs ++ ys)
Block-right flows xs ys (before, after, e) =
    (xs ++ before, after, ap (xs ++◌) e ∙ sym (append_assoc xs before (flows ++ after)))

-- The port is one of a list.
abbrev pub IsIn : Value → List Value → Type 0
IsIn ofp [] = ⊥
IsIn ofp (p ∷ ps) = (ofp ≡ p) ⊎ IsIn ofp ps

track_ports-Block :
    (vni : Value) (proto : String) (ofp : Value) (ofps : List Value)
    → IsIn ofp ofps
    → Block (generate_flow_track_proto vni ofp proto) (track_ports vni proto ofps)
unfolding track_ports
track_ports-Block vni proto ofp [] h = absurd h
track_ports-Block vni proto ofp (p ∷ ps) (inl e) = (
  [],
  track_ports vni proto ps,
  ap (λ q. generate_flow_track_proto vni q proto ++ track_ports vni proto ps) (sym e),
)
track_ports-Block vni proto ofp (p ∷ ps) (inr h) =
    Block-right (generate_flow_track_proto vni ofp proto) (generate_flow_track_proto vni p proto) _
      (track_ports-Block vni proto ofp ps h)

same_key :
    {k vni : Value} {members vifs : List ℕ}
    → ◌≡◌ {A = Option (Value × List ℕ)} (some (k, members)) (some (vni, vifs))
    → k ≡ vni
same_key h = cc

same_members :
    {k vni : Value} {members vifs : List ℕ}
    → ◌≡◌ {A = Option (Value × List ℕ)} (some (k, members)) (some (vni, vifs))
    → members ≡ vifs
same_members h = cc

module _ (proto : String) (flows : List String) (vni : Value) (vifs : List ℕ) where
  track_vifs-Block :
      (heap : List VirtualInterface) (vnis : List (Value × List ℕ)) (i : ℕ)
      → get_elem? vnis i ≡ some (vni, vifs)
      → Block flows (track_ports vni proto (vif_ofps heap vifs))
      → Block flows (track_vifs proto heap vnis)
  unfolding track_vifs
  track_vifs-Block heap [] i at h = cc
  track_vifs-Block heap ((k, members) ∷ vnis) zero at h =
      Block-left flows (track_ports k proto (vif_ofps heap members)) _
        (rw (same_key at, same_members at) h)
  track_vifs-Block heap ((k, members) ∷ vnis) (suc i) at h =
      Block-right flows (track_ports k proto (vif_ofps heap members)) _
        (track_vifs-Block heap vnis i at h)

  track_trunks-Block :
      (trunks : List Value) (vnis : List (Value × List ℕ)) (i : ℕ)
      → get_elem? vnis i ≡ some (vni, vifs)
      → Block flows (track_ports vni proto trunks)
      → Block flows (track_trunks proto trunks vnis)
  unfolding track_trunks
  track_trunks-Block trunks [] i at h = cc
  track_trunks-Block trunks ((k, members) ∷ vnis) zero at h =
      Block-left flows (track_ports k proto trunks) _ (rw (same_key at) h)
  track_trunks-Block trunks ((k, members) ∷ vnis) (suc i) at h =
      Block-right flows (track_ports k proto trunks) _ (track_trunks-Block trunks vnis i at h)

-- For each VNI of the bridge and each port of that VNI's interfaces, of the tunnels or of the
-- uplinks, the ACL flows have in one block all the flows that track the protocol there.
pub acl_flows-Block :
    (w : View) (proto : String) (i : ℕ) (vni : Value) (vifs : List ℕ) (ofp : Value)
    → get_elem? w.bridge.vnis i ≡ some (vni, vifs)
    → (IsIn ofp (vif_ofps w.vif_heap vifs)
        ⊎ IsIn ofp (tnl_ofps w.bridge.tnl_ports ++ uplink_ports w))
    → Block (generate_flow_track_proto vni ofp proto) (acl_flows w proto)
unfolding acl_flows
acl_flows-Block w proto i vni vifs ofp at (inl inside) =
    let flows = generate_flow_track_proto vni ofp proto in
    Block-right flows default_flows _ (
      Block-left flows (track_vifs proto w.vif_heap w.bridge.vnis) _ (
        track_vifs-Block proto flows vni vifs w.vif_heap w.bridge.vnis i at
          (track_ports-Block vni proto ofp _ inside)))
acl_flows-Block w proto i vni vifs ofp at (inr outside) =
    let flows = generate_flow_track_proto vni ofp proto in
    Block-right flows default_flows _ (
      Block-right flows (track_vifs proto w.vif_heap w.bridge.vnis) _ (
        track_trunks-Block proto flows vni vifs _ w.bridge.vnis i at
          (track_ports-Block vni proto ofp _ outside)))
