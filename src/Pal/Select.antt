-- ===== src/Pal/Select.antt =====
-- verify_topology_get and _get_vte (resources/libraries/python/pal.py).
use cne_ovs_sit.Base.{
  ℕ, ◌+◌, Bool, true, false, not, ◌&&◌, List, [], ◌∷◌, ◌++◌, get_elem?, Option, none, some,
  value_eq, runtime_error, attribute_error, index_error, Result, ok, err, ◌==◌, if◌then◌else◌,
}
use cne_ovs_sit.Vif.{VirtualInterface, has_same_subnet}
use cne_ovs_sit.World.{VirtualMachine, Sut, World, get_vms}
use cne_ovs_sit.Pal.Topology.{
  EndPoint, VerifyTopologyEntry, new_entry, VerifyTopology, empty_topology,
}

pub data Locality : Type 0 where
  undef numa xnuma xhost : Locality

pub record TopologyCriteria : Type 0 where
  pub sepc_pnic_loc : Locality
  pub depc_pnic_loc : Locality
  pub locc : Locality

-- Every end point that the loops make is a fresh object, and the source is the only one that is
-- compared, so comparing positions is comparing objects.
abbrev pub same_end_point : EndPoint → EndPoint → Bool
same_end_point a b = a.host == b.host && a.guest == b.guest && a.vif == b.vif

-- `_get_vte` and the change that is made to the entry it returns: the first entry with the source,
-- or a new one at the end.
unfoldable pub update_vte :
    List VerifyTopologyEntry
    → EndPoint
    → (VerifyTopologyEntry → VerifyTopologyEntry)
    → List VerifyTopologyEntry
unfolding new_entry
update_vte [] sep f = f (new_entry sep) ∷ []
update_vte (vte ∷ vtes) sep f =
    if same_end_point sep vte.sep then f vte ∷ vtes else vte ∷ update_vte vtes sep f

-- The test on `sut.pnic.numa_id`: a node has no attribute `pnic`.
abbrev pub pnic_excludes : Locality → Result Bool
pnic_excludes numa = err attribute_error
pnic_excludes xnuma = err attribute_error
pnic_excludes loc = ok false

-- The end point that traffic starts from, with its machine and its interface.
pub record Source : Type 0 where
  pub point : EndPoint
  pub machine : VirtualMachine
  pub face : VirtualInterface

-- The first interface of a machine, `vm.vifs[0]`.
abbrev source_on : Sut → ℕ → VirtualMachine → Option ℕ → Result Source
source_on sut g vm none = err index_error
source_on sut g vm (some r) = elim (get_elem? sut.vswitch.vif_heap r) [
  | none ↦ err index_error
  | some face ↦
      ok (record { point = record { host = 0; guest = g; vif = r }; machine = vm; face = face })
]

unfoldable pub first_source : TopologyCriteria → Sut → List VirtualMachine → ℕ → Result Source
first_source tc sut [] g = err (runtime_error "No valid source endpoint is found.")
first_source tc sut (vm ∷ vms) g =
    let rest = first_source tc sut vms (g + 1) in
    elim (pnic_excludes tc.sepc_pnic_loc) [
      | err e ↦ err e
      | ok true ↦ rest
      | ok false ↦ source_on sut g vm (get_elem? vm.vifs 0)
    ]

unfoldable pub select_source : TopologyCriteria → World → Result Source
unfolding first_source get_vms
select_source tc [] = err index_error
select_source tc (sut ∷ suts) = first_source tc sut (get_vms sut) 0

-- One more destination of the source. The entry's lists follow the locality.
unfoldable pub classify : Source → EndPoint → ℕ → VerifyTopologyEntry → VerifyTopologyEntry
classify src dep numa_id vte =
    if not (src.point.host == dep.host)
    then record vte { dep_xhost = vte.dep_xhost ++ dep ∷ [] }
    else if not (src.machine.numa_id == numa_id)
    then record vte { dep_xnuma = vte.dep_xnuma ++ dep ∷ [] }
    else record vte { dep_numa = vte.dep_numa ++ dep ∷ [] }

-- Interfaces of the same VNI are to reach each other, and others are not.
unfoldable pub add_dep : Source → EndPoint → ℕ → VirtualInterface → VerifyTopology → VerifyTopology
unfolding update_vte classify
add_dep src dep numa_id face vt =
    if value_eq face.vni src.face.vni
    then record vt { allow = update_vte vt.allow src.point (classify src dep numa_id) }
    else record vt { deny = update_vte vt.deny src.point (classify src dep numa_id) }

abbrev add_if :
    Source → EndPoint → ℕ → VirtualInterface → VerifyTopology → Result Bool → Result VerifyTopology
add_if src dep numa_id face vt (err e) = err e
add_if src dep numa_id face vt (ok false) = ok vt
add_if src dep numa_id face vt (ok true) = ok (add_dep src dep numa_id face vt)

-- The body of the innermost loop: the source itself and other subnets are skipped.
unfoldable pub visit_vif :
    Source → EndPoint → ℕ → VirtualInterface → VerifyTopology → Result VerifyTopology
unfolding add_dep
visit_vif src dep numa_id face vt =
    if same_end_point dep src.point
    then ok vt
    else add_if src dep numa_id face vt (has_same_subnet face src.face)

unfoldable pub visit_vifs :
    Source
    → ℕ
    → ℕ
    → VirtualMachine
    → List VirtualInterface
    → List ℕ
    → VerifyTopology
    → Result VerifyTopology
visit_vifs src i g vm heap [] vt = ok vt
visit_vifs src i g vm heap (r ∷ rs) vt = elim (get_elem? heap r) [
  | none ↦ err index_error
  | some face ↦ elim (visit_vif src (record { host = i; guest = g; vif = r }) vm.numa_id face vt) [
    | err e ↦ err e
    | ok vt' ↦ visit_vifs src i g vm heap rs vt'
  ]
]

abbrev pub locality_excludes_host : Locality → Bool → Bool
locality_excludes_host xhost same = same
locality_excludes_host numa same = not same
locality_excludes_host xnuma same = not same
locality_excludes_host undef same = false

abbrev pub locality_excludes_machine : Locality → Bool → Bool
locality_excludes_machine numa same = not same
locality_excludes_machine xnuma same = same
locality_excludes_machine loc same = false

unfoldable pub visit_vms :
    TopologyCriteria
    → Source
    → ℕ
    → ℕ
    → List VirtualInterface
    → List VirtualMachine
    → VerifyTopology
    → Result VerifyTopology
visit_vms tc src i g heap [] vt = ok vt
visit_vms tc src i g heap (vm ∷ vms) vt =
    let skipped = visit_vms tc src i (g + 1) heap vms vt in
    if locality_excludes_machine tc.locc (vm.numa_id == src.machine.numa_id)
    then skipped
    else elim (pnic_excludes tc.depc_pnic_loc) [
      | err e ↦ err e
      | ok true ↦ skipped
      | ok false ↦ elim (visit_vifs src i g vm heap vm.vifs vt) [
        | err e ↦ err e
        | ok vt' ↦ visit_vms tc src i (g + 1) heap vms vt'
      ]
    ]

unfoldable pub visit_suts :
    TopologyCriteria → Source → ℕ → World → VerifyTopology → Result VerifyTopology
unfolding get_vms
visit_suts tc src i [] vt = ok vt
visit_suts tc src i (sut ∷ suts) vt =
    let skipped = visit_suts tc src (i + 1) suts vt in
    if locality_excludes_host tc.locc (i == src.point.host)
    then skipped
    else elim (visit_vms tc src i 0 sut.vswitch.vif_heap (get_vms sut) vt) [
      | err e ↦ err e
      | ok vt' ↦ visit_suts tc src (i + 1) suts vt'
    ]

unfoldable pub verify_topology_get : TopologyCriteria → World → Result VerifyTopology
unfolding select_source visit_suts
verify_topology_get tc suts = elim (select_source tc suts) [
  | err e ↦ err e
  | ok src ↦ visit_suts tc src 0 suts empty_topology
]
