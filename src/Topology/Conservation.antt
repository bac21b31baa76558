-- ===== src/Topology/Conservation.antt =====
-- What SUT.__init__ (resources/libraries/python/topology.py) hands out to OVS-DPDK and to the machines
-- is what a NUMA node had, each processor once.
pub mod Filling
pub mod Reserving
pub mod Sharing
use cne_ovs_sit.Base.{
  ℕ, zero, suc, ◌+◌, ◌-◌, ◌≤◌, Bool, true, false, List, [], ◌∷◌, ◌++◌, length, length-append, count,
  count-append, All, All-append, range, Option, none, some, String, PyError, pure, raise, lift,
  Result, ok, err, chain-ok, ok-injective, some-injective, Action, bind-ok, ◌≡◌, refl, sym, ap, ◌∙◌,
  ◌⊎◌, inl, inr, Bool-cases, Option-cases, arith, if◌then◌else◌, ltb, leb, ◌==◌, ==_iff,
}
use mathlib.Core.Path.{subst}
use cne_ovs_sit.Ssh.{Env, Reply}
use cne_ovs_sit.World.{Numa}
use cne_ovs_sit.Machine.State.{VirtualMachine, new_machine, add_vif, add_vhost_user_if}
use cne_ovs_sit.Switch.Exec.{succeeded}
use cne_ovs_sit.Topology.Addresses.{if_addr_of}
use cne_ovs_sit.Topology.Spec.{max_vm_per_numa, vm_vifs_num}
use cne_ovs_sit.Topology.Reserve.{pop_cpus, reserve_cpus, reserve_all_cpus}
use cne_ovs_sit.Topology.Machines.{
  MachineSpec, Building, unless_failed, virtual_machine, put_interface, add_interface,
  add_interfaces, create_machine, lacks, place_machine, fill_numa, create_machines,
}

-- What is popped and what is left are the list.
pub pop_cpus-append :
    (n : ℕ) (cpus : List ℕ) (p : List ℕ × List ℕ)
    → pop_cpus n cpus ≡ some p
    → (p.0 ++ p.1 ≡ cpus) × (length p.0 ≡ n)
unfolding pop_cpus
pop_cpus-append zero cpus p h =
    (ap (λ p. p.0 ++ p.1) (some-injective (sym h)), ap (λ p. length p.0) (some-injective (sym h)))
pop_cpus-append (suc n) [] p h = cc
pop_cpus-append (suc n) (cpu ∷ cpus) p h = elim (Option-cases (pop_cpus n cpus)) [
  | inl missing ↦ cc
  | inr (q, got) ↦
      let (append, size) = pop_cpus-append n cpus q got in
      let eq : (cpu ∷ q.0, q.1) ≡ p = some-injective (
        sym (ap (λ o. elim o [ none ↦ none | some (taken, left) ↦ some (cpu ∷ taken, left) ]) got)
        ∙ h) in
      (
        ap (λ p. p.0 ++ p.1) (sym eq) ∙ ap (λ l. cpu ∷ l) append,
        ap (λ p. length p.0) (sym eq) ∙ ap suc size,
      )
]

unless_failed-ok :
    {A : Type 0} (r : Result (Option Reply)) (a : A) (e : PyError) {x : A}
    → unless_failed a e r ≡ ok x
    → a ≡ x
unless_failed-ok (err raised) a e h = cc
unless_failed-ok (ok reply) a e h = elim (Bool-cases (succeeded reply)) [
  | inl c ↦ ok-injective (sym (ap (λ c. if c then ok a else err e) c) ∙ h)
  | inr c ↦ cc
]

module _ (env : Env) (spec : MachineSpec) where
  virtual_machine-host_cpus :
      (name : String) (idx : ℕ) (cpus : List ℕ) (b : Building) {vm : VirtualMachine}
      → (virtual_machine env name idx spec cpus b).0 ≡ ok vm
      → vm.host_cpus ≡ cpus
  unfolding virtual_machine new_machine
  virtual_machine-host_cpus name idx cpus b h =
      ap (λ vm. vm.host_cpus) (sym (unless_failed-ok _ _ _ h))

  add_interface-host_cpus :
      (i : ℕ) (vm : VirtualMachine) (b : Building) {vm' : VirtualMachine}
      → (add_interface spec i vm b).0 ≡ ok vm'
      → vm'.host_cpus ≡ vm.host_cpus
  unfolding add_interface add_vhost_user_if add_vif
  add_interface-host_cpus i vm b h =
      let (addr, valid, put) =
        bind-ok (lift (if_addr_of spec.node_idx b.guest_idx i)) (put_interface spec i vm) b h in
      ap (λ vm. vm.host_cpus) (sym (ok-injective put))

  add_interfaces-host_cpus :
      (is : List ℕ) (vm : VirtualMachine) (b : Building) {vm' : VirtualMachine}
      → (add_interfaces spec is vm b).0 ≡ ok vm'
      → vm'.host_cpus ≡ vm.host_cpus
  unfolding add_interfaces
  add_interfaces-host_cpus [] vm b h = ap (λ vm. vm.host_cpus) (sym (ok-injective h))
  add_interfaces-host_cpus (i ∷ is) vm b h =
      let (mid, first, rest) = bind-ok (add_interface spec i vm) (add_interfaces spec is) b h in
      add_interfaces-host_cpus is mid _ rest ∙ add_interface-host_cpus i vm b first

  pub create_machine-host_cpus :
      (cpus : List ℕ) (b : Building) {vm : VirtualMachine}
      → (create_machine env spec cpus b).0 ≡ ok vm
      → vm.host_cpus ≡ cpus
  unfolding create_machine
  create_machine-host_cpus cpus b h =
      let (vm, made, rest) =
        bind-ok (virtual_machine env _ b.guest_idx spec cpus)
          (add_interfaces spec (range 0 vm_vifs_num)) b h in
      add_interfaces-host_cpus (range 0 vm_vifs_num) vm _ rest
      ∙ virtual_machine-host_cpus _ _ cpus b made

-- The processors that machines hold, and the memory they take.
abbrev pub machine_cpus : List VirtualMachine → List ℕ
machine_cpus [] = []
machine_cpus (vm ∷ vms) = vm.host_cpus ++ machine_cpus vms

abbrev pub machine_mem : ℕ → List VirtualMachine → ℕ
machine_mem size [] = 0
machine_mem size (vm ∷ vms) = size + machine_mem size vms

-- How often a processor is free or held on a NUMA node, and on several.
abbrev pub holds : ℕ → Numa → ℕ
holds c n = count c n.avail_cpus + count c (machine_cpus n.vms)

abbrev pub all_hold : ℕ → List Numa → ℕ
all_hold c [] = 0
all_hold c (n ∷ ns) = holds c n + all_hold c ns

pub machine_cpus-append :
    (c : ℕ) (vms : List VirtualMachine) (vm : VirtualMachine)
    → count c (machine_cpus (vms ++ vm ∷ [])) ≡ count c (machine_cpus vms) + count c vm.host_cpus
machine_cpus-append c [] vm = omega (arith, count-append c vm.host_cpus [])
machine_cpus-append c (v ∷ vms) vm = omega (
  arith,
  machine_cpus-append c vms vm,
  count-append c v.host_cpus (machine_cpus vms),
  count-append c v.host_cpus (machine_cpus (vms ++ vm ∷ [])),
)

pub machine_mem-append :
    (size : ℕ) (vms : List VirtualMachine) (vm : VirtualMachine)
    → machine_mem size (vms ++ vm ∷ []) ≡ machine_mem size vms + size
machine_mem-append size [] vm = omega arith
machine_mem-append size (v ∷ vms) vm = omega (arith, machine_mem-append size vms vm)

-- A NUMA node before and after `more` machines at most are created on it.
pub record Fills (spec : MachineSpec) (more : ℕ) (n m : Numa) : Type 0 where
  pub same_numa : m.numa_id ≡ n.numa_id
  pub cpus_kept : (c : ℕ) → holds c m ≡ holds c n
  pub mem_kept :
      m.avail_mem + machine_mem spec.vm_mem_size m.vms
      ≡ n.avail_mem + machine_mem spec.vm_mem_size n.vms
  pub bounded : length m.vms ≤ length n.vms + more
  pub sized :
      All (λ vm. length vm.host_cpus ≡ spec.vm_cpu_num) n.vms
      → All (λ vm. length vm.host_cpus ≡ spec.vm_cpu_num) m.vms
