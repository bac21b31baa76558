-- ===== src/Flow/Tags.antt =====
-- The inner and outer tags of the INPUT flows (generate_input_flows in
-- resources/libraries/python/flowutils.py) for a deployment as qinq.
use cne_ovs_sit.Base.{
  ℕ, ◌+◌, map, fstr, show, show_value, List, [], ◌∷◌, ◌++◌, String, get_elem?, some, Option-cases,
  inl, inr, Value, int, str, ◌⊎◌, PyError, type_error, Result, ok, err, ◌≡◌, refl,
}
use cne_ovs_sit.Constants.{of_table_input, of_table_acl}
use cne_ovs_sit.Vif.{VirtualInterface}
use cne_ovs_sit.Flow.Actions.{qinq}
use cne_ovs_sit.Flow.Output.{View, join_flows, deploy_of}
use cne_ovs_sit.Flow.Input.{
  outer_vni, qinq_text, vif_input, vif_inputs, external_inputs, input_flows, generate_input_flows,
}

-- The port numbers and the VNIs of interfaces that all have a number as their VNI.
abbrev pub Numbered : List VirtualInterface → List ℕ → List (Value × ℕ) → Type 0
Numbered heap [] faces = faces ≡ []
Numbered heap (r ∷ rs) faces =
    (v : VirtualInterface) × (n : ℕ) × (more : List (Value × ℕ)) × (get_elem? heap r ≡ some v)
    × (v.vni ≡ int n)
    × (faces ≡ (v.ofp, n) ∷ more)
    × Numbered heap rs more

-- A number loaded into some bits of reg0.
abbrev load : ℕ → ℕ → ℕ → List String → List String
load n low high rest = "load:" ∷ show n ∷ "-\\>reg0[" ∷ show low ∷ ".." ∷ show high ∷ "]" ∷ rest

-- What comes in by a port gets its VNI as the inner tag and 100 more as the outer one, and goes on to
-- table ACL.
abbrev pub tagged : Value × ℕ → String
tagged (ofp, n) = fstr (
    "table="
    ∷ show of_table_input
    ∷ ",in_port="
    ∷ show_value ofp
    ∷ ",priority=100,action="
    ∷ load n 0 11 ("," ∷ load (n + 100) 16 27 (",goto_table:" ∷ show of_table_acl ∷ [])))

-- The interface that a reference names has a text as its VNI.
abbrev pub HasText : List VirtualInterface → ℕ → Type 0
HasText heap r =
    (v : VirtualInterface) × (s : String) × (get_elem? heap r ≡ some v) × (v.vni ≡ str s)

join_flows-err :
    (r : Result (List String)) (e : PyError) (more : Result (List String))
    → r ≡ err e
    → join_flows r more ≡ err e
join_flows-err r e more h = rw h refl

qinq_text-number :
    (v : VirtualInterface) (r : Result ℕ) (outer : ℕ)
    → r ≡ ok outer
    → (flows : List String) × (qinq_text v r ≡ ok flows)
qinq_text-number v (ok outer) n h = (_, refl)
qinq_text-number v (err e) n h = cc

vif_input-number :
    (v : VirtualInterface) (n : ℕ)
    → v.vni ≡ int n
    → (flows : List String) × (vif_input (some qinq) v ≡ ok flows)
unfolding vif_input
vif_input-number v n h = qinq_text-number v (outer_vni v.vni) (n + 100) (rw h refl)

vif_input-tagged :
    (v : VirtualInterface) (n : ℕ)
    → v.vni ≡ int n
    → vif_input (some qinq) v ≡ ok (tagged (v.ofp, n) ∷ [])
unfolding vif_input fstr show show_value
vif_input-tagged v n h = rw h refl

vif_input-text :
    (v : VirtualInterface) (s : String) → v.vni ≡ str s → vif_input (some qinq) v ≡ err type_error
unfolding vif_input
vif_input-text v s h = rw h refl

vif_input-total :
    (v : VirtualInterface)
    → ((flows : List String) × (vif_input (some qinq) v ≡ ok flows))
      ⊎ (vif_input (some qinq) v ≡ err type_error)
unfolding vif_input
vif_input-total v = elim (vni_cases v.vni) [
  | inl (n, e) ↦ inl (vif_input-number v n e)
  | inr (s, e) ↦ inr (vif_input-text v s e)
]
  where
    vni_cases : (vni : Value) → ((n : ℕ) × (vni ≡ int n)) ⊎ ((s : String) × (vni ≡ str s))
    vni_cases (int n) = inl (n, refl)
    vni_cases (str s) = inr (s, refl)

module _ (heap : List VirtualInterface) where
  vif_inputs-tagged :
      (rs : List ℕ) (faces : List (Value × ℕ))
      → Numbered heap rs faces
      → vif_inputs (some qinq) heap rs ≡ ok (map tagged faces)
  unfolding vif_inputs
  vif_inputs-tagged [] faces h = rw h refl
  vif_inputs-tagged (r ∷ rs) faces (v, n, more, found, number, e, rest) =
      rw (found, vif_inputs, vif_input-tagged v n number, vif_inputs-tagged rs more rest, e) refl

  -- One interface with a text before all others that have a number.
  vif_inputs-text :
      (before : List ℕ) (r : ℕ) (after : List ℕ)
      → HasText heap r
      → vif_inputs (some qinq) heap (before ++ r ∷ after) ≡ err type_error
  unfolding vif_inputs
  vif_inputs-text [] r after (v, s, found, text) =
      rw (found, vif_inputs, vif_input-text v s text) refl
  vif_inputs-text (q ∷ before) r after h =
      let rest = vif_inputs-text before r after h in
      elim (Option-cases (get_elem? heap q)) [
        | inl dangling ↦ rw (dangling, vif_inputs) rest
        | inr (v, found) ↦ elim (vif_input-total v) [
          | inl (flows, made) ↦ rw (found, vif_inputs, made, rest) refl
          | inr failed ↦ rw (found, vif_inputs, failed) refl
        ]
      ]

-- Where every interface of the bridge has a number as its VNI, generate_input_flows of a qinq
-- deployment returns one flow for each of them in order, which loads the VNI as the inner tag and the
-- VNI plus 100 as the outer one and goes to table ACL, and behind them the flows of the uplinks.
pub generate_input_flows-tagged :
    (w : View) (faces : List (Value × ℕ))
    → Numbered w.vif_heap w.bridge.vifs faces
    → generate_input_flows w "qinq" ≡ ok (map tagged faces ++ external_inputs w (some qinq))
unfolding generate_input_flows input_flows deploy_of
generate_input_flows-tagged w faces h = rw (vif_inputs-tagged w.vif_heap w.bridge.vifs faces h) refl

-- As soon as one interface of the bridge has a text as its VNI, which is what the overlay's
-- assignment stores, generate_input_flows raises TypeError for a qinq deployment.
pub generate_input_flows-text :
    (w : View) (before : List ℕ) (r : ℕ) (after : List ℕ)
    → w.bridge.vifs ≡ before ++ r ∷ after
    → HasText w.vif_heap r
    → generate_input_flows w "qinq" ≡ err type_error
unfolding generate_input_flows input_flows deploy_of
generate_input_flows-text w before r after e h =
    rw (e, vif_inputs-text w.vif_heap before r after h) refl
