-- ===== src/Flow/Refinement.antt =====
-- The texts that generate_output_flows builds (resources/libraries/python/flowutils.py) are those of
-- the rules.
use cne_ovs_sit.Base.{
  String, Bool, true, false, List, [], ◌∷◌, ◌++◌, map, fstr, append, show, show_value, Value, int,
  value_eq, Bool-cases, inl, inr, ok, ◌≡◌, ◌≢◌, refl, sym, ap, ◌∙◌,
}
use mathlib.Core.Path.{ap₂}
use cne_ovs_sit.Constants.{of_table_output}
use mathlib.Core.List.{map-append}
use cne_ovs_sit.Switch.State.{TunnelPort}
use cne_ovs_sit.Flow.Actions.{
  Deploy, tnl, vlan, qinq, native, append_as, append_all, join_as, tnl_as, tnl_changes, uplink_as,
  append_as_assoc, join_as-append, append_as-empty, empty-append_as, tnl_as-eq-join_as,
}
use cne_ovs_sit.Flow.Output.{
  View, uplink_ports, flood_local, flood_all, flood_with, flood_vni, flood_external, local_floods,
  external_flood, relevant,
}
use cne_ovs_sit.Flow.Rules.{
  Rule, Act, output, change, act_text, render, others, outputs, tnl_acts, all_tnl_acts,
  external_acts, local_flood_rule, external_flood_rule, external_ports, flood_rules,
}

abbrev texts : List Act → List String
texts acts = map act_text acts

texts-outputs : (ofps : List Value) → texts (outputs ofps) ≡ map show_value ofps
unfolding act_text
texts-outputs [] = refl
texts-outputs (p ∷ ps) = cc (texts-outputs ps)

flood_local-eq :
    (p : Value) (ofps : List Value) (s : String)
    → flood_local p ofps s ≡ append_as s (join_as (texts (outputs (others p ofps))))
unfolding flood_local act_text join_as
flood_local-eq p [] s = sym (append_as-empty s)
flood_local-eq p (q ∷ qs) s = elim (Bool-cases (value_eq q p)) [
  | inl e ↦ rw e (flood_local-eq p qs s)
  | inr e ↦
      rw e (flood_local-eq p qs (append_as s (show_value q)) ∙ append_as_assoc s (show_value q) _)
]

flood_all-eq :
    (ofps : List Value) (s : String)
    → flood_all ofps s ≡ append_as s (join_as (texts (outputs ofps)))
unfolding flood_all act_text join_as
flood_all-eq [] s = sym (append_as-empty s)
flood_all-eq (q ∷ qs) s =
    flood_all-eq qs (append_as s (show_value q)) ∙ append_as_assoc s (show_value q) _

pub map_texts {ℓ} :
    {A : Type ℓ} (f : A → String) (r : A → Rule)
    → ((x : A) → f x ≡ render (r x))
    → (xs : List A) → map f xs ≡ map render (map r xs)
map_texts f r h [] = refl
map_texts f r h (x ∷ xs) = ap₂ ◌∷◌ (h x) (map_texts f r h xs)

pub map_numbers {ℓ} :
    {A : Type ℓ} (f : A → String) (g : A → Value) (r : Value → Rule)
    → ((x : A) → f x ≡ render (r (g x)))
    → (xs : List A) → map f xs ≡ map render (map r (map g xs))
map_numbers f g r h [] = refl
map_numbers f g r h (x ∷ xs) = ap₂ ◌∷◌ (h x) (map_numbers f g r h xs)

pub append_as-nonempty : (s t : String) → s ≢ "" → append_as s t ≢ ""
unfolding append_as append
append_as-nonempty String.[] t h e = h refl
append_as-nonempty (String.◌∷◌ c s) String.[] h e = h e
append_as-nonempty (String.◌∷◌ c s) (String.◌∷◌ d t) h e = cc

module _ (w : View) where
  texts-changes :
      (more : List String) (a : Act) → texts (map change more ++ a ∷ []) ≡ more ++ act_text a ∷ []
  unfolding act_text
  texts-changes [] a = refl
  texts-changes (m ∷ more) a = cc (texts-changes more a)

  pub tnl_as-eq :
      (tnl_md : Bool) (p : TunnelPort)
      → tnl_as w.env w.remotes p tnl_md ≡ join_as (texts (tnl_acts w tnl_md p))
  unfolding act_text show_value
  tnl_as-eq tnl_md p =
      tnl_as-eq-join_as w.env w.remotes p tnl_md
      ∙ ap join_as (sym (texts-changes (tnl_changes w.env w.remotes p tnl_md) (output (int p.ofp))))

  texts-append : (xs ys : List Act) → texts (xs ++ ys) ≡ texts xs ++ texts ys
  texts-append [] ys = refl
  texts-append (x ∷ xs) ys = cc (texts-append xs ys)

  tunnels-eq :
      (tnl_md : Bool) (ps : List TunnelPort) (s : String)
      → append_all s (map (λ p. tnl_as w.env w.remotes p tnl_md) ps)
        ≡ append_as s (join_as (texts (all_tnl_acts w tnl_md ps)))
  unfolding append_all join_as
  tunnels-eq tnl_md [] s = sym (append_as-empty s)
  tunnels-eq tnl_md (p ∷ ps) s =
      rw
        (
          tunnels-eq tnl_md ps (append_as s (tnl_as w.env w.remotes p tnl_md)),
          texts-append (tnl_acts w tnl_md p) (all_tnl_acts w tnl_md ps),
          join_as-append (texts (tnl_acts w tnl_md p)) (texts (all_tnl_acts w tnl_md ps)),
          tnl_as-eq tnl_md p,
        )
        (append_as_assoc s _ _)

  tagged :
      (d : Deploy) (s : String)
      → append_as (append_as s (uplink_as d)) (join_as (texts (outputs (uplink_ports w))))
        ≡ append_as s (join_as (texts (change (uplink_as d) ∷ outputs (uplink_ports w))))
  unfolding join_as act_text
  tagged d s = append_as_assoc s (uplink_as d) _

  flood_external-eq :
      (d : Deploy) (tnl_md : Bool) (vni : Value) (s : String)
      → flood_external w d tnl_md vni s
        ≡ append_as s (join_as (texts (external_acts w d tnl_md vni)))
  unfolding flood_external external_acts
  flood_external-eq tnl tnl_md vni s = tunnels-eq tnl_md (relevant vni w.bridge.tnl_ports) s
  flood_external-eq native tnl_md vni s = flood_all-eq (uplink_ports w) s
  flood_external-eq vlan tnl_md vni s =
      flood_all-eq (uplink_ports w) (append_as s (uplink_as vlan)) ∙ tagged vlan s
  flood_external-eq qinq tnl_md vni s =
      flood_all-eq (uplink_ports w) (append_as s (uplink_as qinq)) ∙ tagged qinq s

  -- The actions of a flood that begins at port `p`.
  flood_actions-eq :
      (d : Deploy) (tnl_md : Bool) (vni p : Value) (ofps : List Value)
      → flood_external w d tnl_md vni (flood_local p ofps "")
        ≡ join_as (texts (outputs (others p ofps) ++ external_acts w d tnl_md vni))
  flood_actions-eq d tnl_md vni p ofps = rw (
    flood_external-eq d tnl_md vni (flood_local p ofps ""),
    flood_local-eq p ofps "",
    texts-append (outputs (others p ofps)) (external_acts w d tnl_md vni),
    join_as-append (texts (outputs (others p ofps))) (texts (external_acts w d tnl_md vni)),
    empty-append_as,
  )

  flood_text :
      (d : Deploy) (tnl_md : Bool) (vni : Value) (ofps : List Value) (p : Value)
      → fstr (
          "table="
          ∷ show of_table_output
          ∷ ",in_port="
          ∷ show_value p
          ∷ ",reg1=0,priority=100,action="
          ∷ flood_external w d tnl_md vni (flood_local p ofps "")
          ∷ [])
        ≡ render (local_flood_rule w d tnl_md vni ofps p)
  unfolding render local_flood_rule fstr show show_value
  flood_text d tnl_md vni ofps p = rw (flood_actions-eq d tnl_md vni p ofps)

  local_floods-render :
      (d : Deploy) (tnl_md : Bool) (vni : Value) (ofps ps : List Value)
      → local_floods w d tnl_md vni ofps ps
        ≡ map render (map (local_flood_rule w d tnl_md vni ofps) ps)
  unfolding local_floods
  local_floods-render d tnl_md vni ofps [] = refl
  local_floods-render d tnl_md vni ofps (p ∷ ps) =
      ap₂ ◌∷◌ (flood_text d tnl_md vni ofps p) (local_floods-render d tnl_md vni ofps ps)

  external_flood-render :
      (d : Deploy) (tnl_md : Bool) (vni : Value) (ofps : List Value)
      → external_flood w d tnl_md vni (join_as (texts (outputs ofps)))
        ≡ map render (map (external_flood_rule w d tnl_md vni ofps) (external_ports w d))
  unfolding external_flood external_ports render external_flood_rule fstr show show_value
  external_flood-render tnl true vni ofps =
      map_numbers _ (λ p. int p.ofp) (external_flood_rule w tnl true vni ofps) (λ p. refl)
        w.bridge.tnl_ports
  external_flood-render tnl false vni ofps =
      map_numbers _ (λ p. int p.ofp) (external_flood_rule w tnl false vni ofps) (λ p. refl)
        w.bridge.tnl_ports
  external_flood-render native tnl_md vni ofps =
      map_texts _ (external_flood_rule w native tnl_md vni ofps) (λ p. refl) (uplink_ports w)
  external_flood-render vlan tnl_md vni ofps =
      map_texts _ (external_flood_rule w vlan tnl_md vni ofps) (λ p. refl) (uplink_ports w)
  external_flood-render qinq tnl_md vni ofps =
      map_texts _ (external_flood_rule w qinq tnl_md vni ofps) (λ p. refl) (uplink_ports w)

  flood_with-render :
      (d : Deploy) (tnl_md : Bool) (vni : Value) (ofps : List Value) (s : String)
      → s ≡ join_as (texts (outputs ofps))
      → s ≢ ""
      → flood_with w d tnl_md vni ofps s ≡ ok (map render (flood_rules w d tnl_md vni ofps))
  unfolding flood_rules
  flood_with-render d tnl_md vni ofps String.[] e h = absurd (h refl)
  flood_with-render d tnl_md vni ofps (String.◌∷◌ c s) e h = ap ok (
      ap₂ ◌++◌ (local_floods-render d tnl_md vni ofps ofps)
        (ap (external_flood w d tnl_md vni) e ∙ external_flood-render d tnl_md vni ofps)
      ∙ sym (map-append render _ _))

pub flood_vni-render :
    (w : View) (d : Deploy) (tnl_md : Bool) (vni p : Value) (ps : List Value)
    → show_value p ≢ ""
    → flood_vni w d tnl_md vni (p ∷ ps) ≡ ok (map render (flood_rules w d tnl_md vni (p ∷ ps)))
unfolding flood_vni append_as join_as act_text
flood_vni-render w d tnl_md vni p ps h =
    let e = flood_all-eq (p ∷ ps) "" ∙ empty-append_as (join_as (texts (outputs (p ∷ ps)))) in
    flood_with-render w d tnl_md vni (p ∷ ps) (flood_all (p ∷ ps) "") e
      (λ z. append_as-nonempty (show_value p) _ h (sym e ∙ z))
