-- ===== src/Topology/Conservation/Sharing.antt =====
-- The hand-out of processors by SUT.__init__ as a whole (resources/libraries/python/topology.py).
use cne_ovs_sit.Base.{
  ℕ, ◌+◌, Bool, String, List, [], ◌∷◌, count, Pairwise, Option, none, some, path_join, hex, ok,
  chain-ok, ok-injective, bind-ok, lift, Action, ◌≡◌, refl, sym, ap, ◌∙◌, arith, ◌>>◌,
}
use mathlib.Core.Path.{subst}
use cne_ovs_sit.Ssh.{Env, Call}
use cne_ovs_sit.Vif.{InterfaceAddress}
use cne_ovs_sit.World.{Numa, Sut}
use cne_ovs_sit.Switch.State.{Datapath, ovs_dpdk, ovs_native, AuxParams, VirtualSwitch, Method}
use cne_ovs_sit.Switch.Bridges.{stop_vswitch}
use cne_ovs_sit.Switch.Startup.{new_switch, start_vswitch}
use cne_ovs_sit.Switch.Keeping.{Keeps, restart-Keeps}
use cne_ovs_sit.Topology.Spec.{NodeSpec, or_default, huge_mnt_default, max_vm_per_numa}
use cne_ovs_sit.Topology.Probe.{collect}
use cne_ovs_sit.Topology.Nics.{locate_pnics}
use cne_ovs_sit.Topology.Reserve.{mask_of, reserve_mem, reserve_mems, reserve_all_cpus}
use cne_ovs_sit.Topology.Addresses.{tep_addr_of}
use cne_ovs_sit.Topology.Machines.{MachineSpec, Building, create_machines}
use cne_ovs_sit.Topology.Construct.{
  page_of, datapath_named, machine_spec, test_root_dir, make_tmp_dir, reserve, run_switch,
  run_building, initial_switch, start_sut, set_up_sut, new_sut,
}
use cne_ovs_sit.Topology.Conservation.{all_hold, Fills}
use cne_ovs_sit.Topology.Conservation.Filling.{create_machines-Fills}
use cne_ovs_sit.Topology.Conservation.Reserving.{reserve_all_cpus-all_hold}

-- `taken` and what the second nodes hold are what the first held.
abbrev pub Shares : List ℕ → List Numa → List Numa → Type 0
Shares taken before after = (c : ℕ) → count c taken + all_hold c after ≡ all_hold c before

Fills-all_hold :
    (spec : MachineSpec) (ns ms : List Numa)
    → Pairwise (Fills spec max_vm_per_numa) ns ms
    → (c : ℕ) → all_hold c ms ≡ all_hold c ns
Fills-all_hold spec [] [] h c = refl
Fills-all_hold spec [] (m ∷ ms) h c = elim h [ ]
Fills-all_hold spec (n ∷ ns) [] h c = elim h [ ]
Fills-all_hold spec (n ∷ ns) (m ∷ ms) h c =
    let (first, rest) = h in omega (arith, first.cpus_kept c, Fills-all_hold spec ns ms rest c)

reserve_mems-all_hold :
    (page : ℕ) (ns : List Numa) (c : ℕ) → all_hold c (reserve_mems page ns).1 ≡ all_hold c ns
unfolding reserve_mems reserve_mem
reserve_mems-all_hold page [] c = refl
reserve_mems-all_hold page (n ∷ ns) c = ground (arith, reserve_mems-all_hold page ns c)

-- The processors behind the mask that OVS-DPDK gets; the kernel's datapath gets none.
abbrev pub Masks : List ℕ → Option AuxParams → Type 0
Masks taken none = taken ≡ []
Masks taken (some aux) = aux.cpu_mask ≡ hex (mask_of 0 taken)

reserve-Shares :
    (datapath : Datapath) (spec : NodeSpec) (pnic : Option ℕ) (ns : List Numa)
    (p : Option AuxParams × List Numa)
    → reserve datapath spec pnic ns ≡ ok p
    → (taken : List ℕ) × Masks taken p.0 × Shares taken ns p.1
unfolding reserve
reserve-Shares ovs_native spec pnic ns p h = (
  [],
  subst (λ p. Masks [] p.0) (ok-injective h) refl,
  subst (λ p. Shares [] ns p.1) (ok-injective h) (λ c. omega arith),
)
reserve-Shares ovs_dpdk spec pnic ns p h =
    let left = (reserve_mems (page_of spec) ns).1 in
    let (taken, got, same) = chain-ok (reserve_all_cpus pnic _ _ left) _ h in
    let shares : Shares taken.0 ns taken.1 = λ c.
      reserve_all_cpus-all_hold pnic _ _ left taken got c
      ∙ reserve_mems-all_hold (page_of spec) ns c in
    (
      taken.0,
      subst (λ p. Masks taken.0 p.0) (ok-injective same) refl,
      subst (λ p. Shares taken.0 ns p.1) (ok-injective same) shares,
    )

run_building-ok :
    {A : Type 0} (m : Action Building A) (s : VirtualSwitch) (calls : List Call)
    {p : A × VirtualSwitch}
    → (run_building m s calls).0 ≡ ok p
    → (b : Building) × ((m b).0 ≡ ok p.0) × (p.1.aux_params ≡ s.aux_params)
run_building-ok m s calls h =
    let (a, got, same) = chain-ok (m _).0 _ h in
    (
      _,
      got ∙ ap (λ p. ok p.0) (ok-injective same),
      ap (λ p. p.1.aux_params) (sym (ok-injective same)),
    )

run_switch-aux_params :
    {A : Type 0} (m : Method A)
    → Keeps m
    → (s : VirtualSwitch) (calls : List Call) (s' : VirtualSwitch)
    → (run_switch m s calls).0 ≡ ok s'
    → s'.aux_params ≡ s.aux_params
run_switch-aux_params m keeps s calls s' h =
    let (a, got, same) = chain-ok (m (record s { calls = calls })).0 _ h in
    ap (λ s. s.aux_params) (sym (ok-injective same)) ∙ keeps.kept (record s { calls = calls })

module _ (env : Env) (attach_gdb : Bool) (name : String) (spec : NodeSpec) where
  start_sut-Built :
      (datapath : Datapath) (root : String) (tep_addr : InterfaceAddress)
      (p : Option AuxParams × List Numa) (calls : List Call) (sut : Sut)
      → (start_sut env attach_gdb name spec datapath root tep_addr p calls).0 ≡ ok sut
      → ((c : ℕ) → all_hold c sut.numas ≡ all_hold c p.1)
        × (sut.vswitch.aux_params ≡ p.0)
        × (sut.vms ≡ [])
  unfolding start_sut new_switch
  start_sut-Built datapath root tep_addr p calls sut h =
      let machines = machine_spec spec datapath root (path_join root "temp") in
      let switch = initial_switch spec datapath root tep_addr p.0 in
      let restart = stop_vswitch env >> start_vswitch env attach_gdb in
      let (started, ran, later) = bind-ok (run_switch restart switch) _ calls h in
      let (q, built, same) =
        bind-ok (run_building (create_machines env machines p.1) started) _ _ later in
      let (b, created, kept) = run_building-ok (create_machines env machines p.1) started _ built in
      (
        (λ c.
            ap (λ sut. all_hold c sut.numas) (sym (ok-injective same))
            ∙ Fills-all_hold machines p.1 q.0 (create_machines-Fills env machines p.1 b q.0 created)
                c),
        ap (λ sut. sut.vswitch.aux_params) (sym (ok-injective same))
            ∙ kept
            ∙ run_switch-aux_params restart (restart-Keeps env attach_gdb) switch calls started ran,
        ap (λ sut. sut.vms) (sym (ok-injective same)),
      )

  -- A node whose processors are shared out, with the mask that its switch has.
  abbrev SharedOut : List Numa → Sut → Type 0
  SharedOut numas sut =
      (taken : List ℕ) × Masks taken sut.vswitch.aux_params
      × Shares taken numas sut.numas
      × (sut.vms ≡ [])

  set_up_sut-SharedOut :
      (numas : List Numa) (pnic : Option ℕ) (calls : List Call) (sut : Sut)
      → (set_up_sut env attach_gdb name spec numas pnic calls).0 ≡ ok sut
      → SharedOut numas sut
  unfolding set_up_sut
  set_up_sut-SharedOut numas pnic calls sut h =
      let (root, _, h1) = bind-ok (test_root_dir env spec) _ calls h in
      let (_, _, h2) = bind-ok (make_tmp_dir env spec (path_join root "temp")) _ _ h1 in
      let (tep_addr, _, h3) = bind-ok (lift (tep_addr_of spec.id)) _ _ h2 in
      let (datapath, _, h4) =
        bind-ok (lift (datapath_named (or_default spec.dp_type "ovs-dpdk"))) _ _ h3 in
      let (p, reserved, h5) = bind-ok (lift (reserve datapath spec pnic numas)) _ _ h4 in
      let (taken, masks, shares) = reserve-Shares datapath spec pnic numas p reserved in
      let (held, aux, no_vms) = start_sut-Built datapath root tep_addr p _ sut h5 in
      (taken, subst (Masks taken) (sym aux) masks, (λ c. omega (arith, shares c, held c)), no_vms)

  new_sut-SharedOut :
      (calls : List Call) (sut : Sut)
      → (new_sut env attach_gdb name spec calls).0 ≡ ok sut
      → (numas : List Numa) × ((collect env spec.ssh_info
            (or_default spec.huge_mnt huge_mnt_default)
            (page_of spec)
            calls).0
          ≡ ok numas)
        × SharedOut numas sut
  unfolding new_sut
  new_sut-SharedOut calls sut h =
      let (numas, collected, h1) =
        bind-ok
          (collect env spec.ssh_info (or_default spec.huge_mnt huge_mnt_default) (page_of spec)) _
          calls h in
      let (pnic, _, h2) = bind-ok (locate_pnics env spec.ssh_info none spec.interfaces) _ _ h1 in
      (numas, collected, set_up_sut-SharedOut numas pnic _ sut h2)

-- Where the constructor returns a node, each processor that it collected is on the node's list of free
-- ones, with one of its machines, or in the mask that the node's switch has, as often as it was
-- collected; a switch of the kernel's datapath has no mask and takes none.
pub new_sut-Shares :
    (env : Env) (attach_gdb : Bool) (name : String) (spec : NodeSpec) (calls : List Call)
    (sut : Sut)
    → (new_sut env attach_gdb name spec calls).0 ≡ ok sut
    → (numas : List Numa) × ((collect env spec.ssh_info
          (or_default spec.huge_mnt huge_mnt_default)
          (page_of spec)
          calls).0
        ≡ ok numas)
      × (taken : List ℕ) × Masks taken sut.vswitch.aux_params
      × Shares taken numas sut.numas
new_sut-Shares env attach_gdb name spec calls sut h =
    let (numas, collected, shared) = new_sut-SharedOut env attach_gdb name spec calls sut h in
    let (taken, masks, shares, no_vms) = shared in (numas, collected, taken, masks, shares)

-- The constructor lists no machine on the node itself.
pub new_sut-vms :
    (env : Env) (attach_gdb : Bool) (name : String) (spec : NodeSpec) (calls : List Call)
    (sut : Sut)
    → (new_sut env attach_gdb name spec calls).0 ≡ ok sut
    → sut.vms ≡ []
new_sut-vms env attach_gdb name spec calls sut h =
    let (numas, collected, shared) = new_sut-SharedOut env attach_gdb name spec calls sut h in
    let (taken, masks, shares, no_vms) = shared in no_vms
