-- ===== src/Pal/Reversal.antt =====
-- What verify_topology_allow_originate (resources/libraries/python/pal.py) makes of a topology.
use cne_ovs_sit.Base.{List, [], ◌∷◌, ◌++◌, map, ok, ◌≡◌, refl, ap}
use mathlib.Core.List.{map-append}
use cne_ovs_sit.Pal.Topology.{
  EndPoint, VerifyTopologyEntry, VerifyTopology, new_entry, get_full_deps, deny_numa, deny_xnuma,
  deny_xhost, verify_topology_allow_originate,
}

-- Whom an entry names: the source and its destinations.
abbrev pub directions : VerifyTopologyEntry → EndPoint × List EndPoint
directions vte = (vte.sep, get_full_deps vte)

numa-directions :
    (sep : EndPoint) (deps : List EndPoint)
    → map directions (deny_numa sep deps) ≡ map (λ dep. (dep, sep ∷ [])) deps
unfolding deny_numa new_entry get_full_deps
numa-directions sep [] = refl
numa-directions sep (d ∷ ds) = ap ((d, sep ∷ []) ∷◌) (numa-directions sep ds)

xnuma-directions :
    (sep : EndPoint) (deps : List EndPoint)
    → map directions (deny_xnuma sep deps) ≡ map (λ dep. (dep, sep ∷ [])) deps
unfolding deny_xnuma new_entry get_full_deps
xnuma-directions sep [] = refl
xnuma-directions sep (d ∷ ds) = ap ((d, sep ∷ []) ∷◌) (xnuma-directions sep ds)

xhost-directions :
    (sep : EndPoint) (deps : List EndPoint)
    → map directions (deny_xhost sep deps) ≡ map (λ dep. (dep, sep ∷ [])) deps
unfolding deny_xhost new_entry get_full_deps
xhost-directions sep [] = refl
xhost-directions sep (d ∷ ds) = ap ((d, sep ∷ []) ∷◌) (xhost-directions sep ds)

denied-directions :
    (sep : EndPoint) (xs ys zs : List EndPoint)
    → map directions (deny_numa sep xs ++ (deny_xnuma sep ys ++ deny_xhost sep zs))
      ≡ map (λ dep. (dep, sep ∷ [])) (xs ++ (ys ++ zs))
denied-directions sep xs ys zs =
    simp (map-append, numa-directions, xnuma-directions, xhost-directions)

-- Of a topology with an allowed entry, verify_topology_allow_originate returns the first entry's source
-- and a topology that allows that entry alone and denies, for each of its destinations in order,
-- exactly the way from there back to the source.
pub verify_topology_allow_originate-directions :
    (vt : VerifyTopology) (vte : VerifyTopologyEntry) (rest : List VerifyTopologyEntry)
    → vt.allow ≡ vte ∷ rest
    → (new_vt : VerifyTopology) × (verify_topology_allow_originate vt ≡ ok (vte.sep, new_vt))
      × (new_vt.allow ≡ vte ∷ [])
      × (map directions new_vt.deny ≡ map (λ dep. (dep, vte.sep ∷ [])) (get_full_deps vte))
unfolding verify_topology_allow_originate get_full_deps
verify_topology_allow_originate-directions vt vte rest e =
    (_, rw e refl, refl, denied-directions vte.sep vte.dep_numa vte.dep_xnuma vte.dep_xhost)
