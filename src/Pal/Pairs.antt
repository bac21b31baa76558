-- ===== src/Pal/Pairs.antt =====
-- verify_topology_select_pair of what verify_topology_get returns (resources/libraries/python/pal.py).
use cne_ovs_sit.Base.{String, true, List, [], ◌∷◌, All, Result, ok, err, ◌≡◌}
use cne_ovs_sit.World.{World}
use cne_ovs_sit.Pal.Topology.{EndPoint, VerifyTopologyEntry, VerifyTopology, get_full_deps}
use cne_ovs_sit.Pal.Select.{Locality, undef, numa, xnuma, xhost, Source}
use cne_ovs_sit.Pal.Placed.{IsPlaced}

-- The text that asks for a nearness; none asks for `undef`.
abbrev pub name_of : Locality → String
name_of numa = "NUMA"
name_of xnuma = "XNUMA"
name_of xhost = "XHOST"
name_of undef = ""

-- The destinations of an entry that have a nearness.
abbrev pub deps_at : Locality → VerifyTopologyEntry → List EndPoint
deps_at numa vte = vte.dep_numa
deps_at xnuma vte = vte.dep_xnuma
deps_at xhost vte = vte.dep_xhost
deps_at undef vte = []

-- A topology that only allows the source to reach one destination, which has the nearness and stands
-- in the list for it.
abbrev pub IsPair : World → Source → Locality → VerifyTopology → Type 0
IsPair suts src loc pair =
    (vte : VerifyTopologyEntry) × (dep : EndPoint) × (pair.allow ≡ vte ∷ [])
    × (pair.deny ≡ [])
    × (vte.sep ≡ src.point)
    × (get_full_deps vte ≡ dep ∷ [])
    × (deps_at loc vte ≡ dep ∷ [])
    × IsPlaced suts src true loc dep

-- What a selection by nearness gives: a pair, or an exception where no allowed entry has a
-- destination of that nearness.
abbrev pub Selects :
    World → Source → Locality → List VerifyTopologyEntry → Result VerifyTopology → Type 0
Selects suts src loc allow (ok pair) = IsPair suts src loc pair
Selects suts src loc allow (err e) = All (λ vte. deps_at loc vte ≡ []) allow
