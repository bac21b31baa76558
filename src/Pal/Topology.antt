-- ===== src/Pal/Topology.antt =====
-- Verify topologies (resources/libraries/python/pal.py): which end points are to reach which.
use cne_ovs_sit.Base.{ℕ, String, List, [], ◌∷◌, ◌++◌, runtime_error, Result, ok, err, if◌then◌else◌}
use text.Mathlib.Text.{◌==◌ as text_eq}

-- An object of class EndPoint: the node, the machine among the node's and the interface.
pub record EndPoint : Type 0 where
  pub host : ℕ
  pub guest : ℕ
  pub vif : ℕ

pub record VerifyTopologyEntry : Type 0 where
  pub sep : EndPoint
  pub dep_numa : List EndPoint
  pub dep_xnuma : List EndPoint
  pub dep_xhost : List EndPoint

unfoldable pub new_entry : EndPoint → VerifyTopologyEntry
new_entry sep = record { sep = sep; dep_numa = []; dep_xnuma = []; dep_xhost = [] }

-- The first of a list, if there is one.
abbrev pub first : List EndPoint → List EndPoint
first [] = []
first (d ∷ ds) = d ∷ []

unfoldable pub get_deps : VerifyTopologyEntry → List EndPoint
get_deps vte = first vte.dep_numa ++ (first vte.dep_xnuma ++ first vte.dep_xhost)

unfoldable pub get_full_deps : VerifyTopologyEntry → List EndPoint
get_full_deps vte = vte.dep_numa ++ (vte.dep_xnuma ++ vte.dep_xhost)

pub record VerifyTopology : Type 0 where
  pub allow : List VerifyTopologyEntry
  pub deny : List VerifyTopologyEntry

abbrev pub empty_topology : VerifyTopology
empty_topology = record { allow = []; deny = [] }

-- Entries that deny each `dep` the way back to `sep`, with the same locality.
unfoldable pub deny_numa : EndPoint → List EndPoint → List VerifyTopologyEntry
unfolding new_entry
deny_numa sep [] = []
deny_numa sep (dep ∷ deps) = record (new_entry dep) { dep_numa = sep ∷ [] } ∷ deny_numa sep deps

unfoldable pub deny_xnuma : EndPoint → List EndPoint → List VerifyTopologyEntry
unfolding new_entry
deny_xnuma sep [] = []
deny_xnuma sep (dep ∷ deps) = record (new_entry dep) { dep_xnuma = sep ∷ [] } ∷ deny_xnuma sep deps

unfoldable pub deny_xhost : EndPoint → List EndPoint → List VerifyTopologyEntry
unfolding new_entry
deny_xhost sep [] = []
deny_xhost sep (dep ∷ deps) = record (new_entry dep) { dep_xhost = sep ∷ [] } ∷ deny_xhost sep deps

abbrev originate_from : VerifyTopologyEntry → EndPoint × VerifyTopology
originate_from vte = (
  vte.sep,
  record {
    allow = vte ∷ [];
    deny =
        deny_numa vte.sep vte.dep_numa
        ++ (deny_xnuma vte.sep vte.dep_xnuma ++ deny_xhost vte.sep vte.dep_xhost);
  },
)

unfoldable pub verify_topology_allow_originate : VerifyTopology → Result (EndPoint × VerifyTopology)
unfolding deny_numa deny_xnuma deny_xhost
verify_topology_allow_originate vt = elim vt.allow [
  | [] ↦ err (runtime_error "No allowed entry is found.")
  | vte ∷ rest ↦ ok (originate_from vte)
]

-- The pair's entry in a new topology, where the list has an end point.
abbrev pub pair_of : List EndPoint → (EndPoint → VerifyTopologyEntry) → Result VerifyTopology
pair_of [] entry = err (runtime_error "No {loc} pair is found.")
pair_of (dep ∷ deps) entry = ok (record { allow = entry dep ∷ []; deny = [] })

unfoldable pub select_from : VerifyTopologyEntry → String → Result VerifyTopology
unfolding new_entry
select_from vte loc =
    if text_eq loc "NUMA"
    then pair_of vte.dep_numa (λ dep. record (new_entry vte.sep) { dep_numa = dep ∷ [] })
    else if text_eq loc "XNUMA"
    then pair_of vte.dep_xnuma (λ dep. record (new_entry vte.sep) { dep_xnuma = dep ∷ [] })
    else if text_eq loc "XHOST"
    then pair_of vte.dep_xhost (λ dep. record (new_entry vte.sep) { dep_xhost = dep ∷ [] })
    else err (runtime_error "{loc} pair is not supported.")

unfoldable pub verify_topology_select_pair : VerifyTopology → String → Result VerifyTopology
unfolding select_from
verify_topology_select_pair vt loc = elim vt.allow [
  | [] ↦ err (runtime_error "No allowed entry is found.")
  | vte ∷ rest ↦ select_from vte loc
]

-- The result is the topology as the call leaves it; an error leaves it as it was.
unfoldable pub verify_topology_change_allow_to_deny : VerifyTopology → Result VerifyTopology
verify_topology_change_allow_to_deny vt = elim vt.allow [
  | [] ↦ err (runtime_error "No allowed entry is found.")
  | vte ∷ rest ↦ ok (record { allow = []; deny = vte ∷ rest })
]

unfoldable pub verify_topology_change_deny_to_allow : VerifyTopology → Result VerifyTopology
verify_topology_change_deny_to_allow vt = elim vt.deny [
  | [] ↦ err (runtime_error "No denied entry is found.")
  | vte ∷ rest ↦ ok (record { allow = vte ∷ rest; deny = [] })
]
