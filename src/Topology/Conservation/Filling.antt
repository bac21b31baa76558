-- ===== src/Topology/Conservation/Filling.antt =====
-- The loops of SUT.__init__ (resources/libraries/python/topology.py) that create machines.
use cne_ovs_sit.Base.{
  ℕ, zero, suc, ◌≤◌, false, List, [], ◌∷◌, length, length-append, count, count-append, All-append,
  some, ok, ok-injective, bind-ok, or_raise-ok, if-ok, Pairwise, pure, index_error, ◌≡◌, refl, ap,
  ◌∙◌, inl, inr, Bool-cases, arith, ◌==◌, ltb,
}
use mathlib.Core.Path.{subst}
use cne_ovs_sit.Ssh.{Env}
use cne_ovs_sit.World.{Numa}
use cne_ovs_sit.Machine.State.{VirtualMachine}
use cne_ovs_sit.Topology.Spec.{max_vm_per_numa}
use cne_ovs_sit.Topology.Reserve.{pop_cpus}
use cne_ovs_sit.Topology.Machines.{
  MachineSpec, Building, with_machine, lacks, create_machine, place_machine, fill_if_memory,
  fill_numa, create_machines,
}
use cne_ovs_sit.Topology.Conservation.{
  pop_cpus-append, create_machine-host_cpus, machine_cpus-append, machine_mem-append, Fills,
}

lacks-mem : (spec : MachineSpec) (n : Numa) → lacks spec n ≡ false → spec.vm_mem_size ≤ n.avail_mem
lacks-mem spec n h = elim (Bool-cases (ltb n.avail_mem spec.vm_mem_size)) [
  | inl less ↦ cc
  | inr enough ↦ ground arith
]

module _ (spec : MachineSpec) where
  Fills-self : (more : ℕ) (n : Numa) → Fills spec more n n
  Fills-self more n = record {
    same_numa = refl;
    cpus_kept = λ c. refl;
    mem_kept = refl;
    bounded = omega arith;
    sized = λ h. h;
  }

  Fills-then :
      (more : ℕ) (n m k : Numa) → Fills spec 1 n m → Fills spec more m k → Fills spec (suc more) n k
  Fills-then more n m k f g = record {
    same_numa = g.same_numa ∙ f.same_numa;
    cpus_kept = λ c. g.cpus_kept c ∙ f.cpus_kept c;
    mem_kept = g.mem_kept ∙ f.mem_kept;
    bounded = omega (arith, f.bounded, g.bounded);
    sized = λ h. g.sized (f.sized h);
  }

  with_machine-Fills :
      (n : Numa) (p : List ℕ × List ℕ) (vm : VirtualMachine)
      → lacks spec n ≡ false
      → pop_cpus spec.vm_cpu_num n.avail_cpus ≡ some p
      → vm.host_cpus ≡ p.0
      → Fills spec 1 n (with_machine spec.vm_mem_size p.1 vm n)
  with_machine-Fills n p vm enough popped held =
      let (parts, size) = pop_cpus-append spec.vm_cpu_num n.avail_cpus p popped in
      record {
        same_numa = refl;
        cpus_kept = λ c. omega (
          arith,
          machine_cpus-append c n.vms vm,
          count-append c p.0 p.1,
          ap (count c) parts,
          ap (count c) held,
        );
        mem_kept =
            omega (arith, lacks-mem spec n enough, machine_mem-append spec.vm_mem_size n.vms vm);
        bounded = omega (arith, length-append n.vms (vm ∷ []));
        sized = λ h. All-append _ n.vms (vm ∷ []) h (ap length held ∙ size, tt);
      }

module _ (env : Env) (spec : MachineSpec) where
  fill_numa-Fills :
      (more : ℕ) (n : Numa) (b : Building) {m : Numa}
      → (fill_numa env spec more n b).0 ≡ ok m
      → Fills spec more n m
  unfolding fill_numa
  fill_numa-Fills zero n b h = subst (Fills spec zero n) (ok-injective h) (Fills-self spec zero n)
  fill_numa-Fills (suc more) n b h = elim (if-ok (lacks spec n) (pure n) _ b h) [
    | inl (out, same) ↦
        subst (Fills spec (suc more) n) (ok-injective same) (Fills-self spec (suc more) n)
    | inr (enough, goes) ↦
        let (p, popped, placed) =
          or_raise-ok (pop_cpus spec.vm_cpu_num n.avail_cpus) index_error _ b goes in
        let (mid, first, rest) =
          bind-ok (place_machine env spec n p) (fill_numa env spec more) b placed in
        let (vm, made, added) = bind-ok (create_machine env spec p.0) _ b first in
        Fills-then spec more n mid _
          (subst (Fills spec 1 n) (ok-injective added) (
            with_machine-Fills spec n p vm enough popped
              (create_machine-host_cpus env spec p.0 b made)))
          (fill_numa-Fills more mid _ rest)
  ]

  fill_one :
      (n : Numa) (b : Building) {m : Numa}
      → (fill_if_memory env spec n b).0 ≡ ok m
      → Fills spec max_vm_per_numa n m
  fill_one n b h = elim (if-ok (n.avail_mem == 0) (pure n) _ b h) [
    | inl (out, same) ↦
        subst (Fills spec max_vm_per_numa n) (ok-injective same) (Fills-self spec max_vm_per_numa n)
    | inr (memory, goes) ↦ fill_numa-Fills max_vm_per_numa n b goes
  ]

  -- Each NUMA node keeps its processors and its memory, split between its machines and what is free: no
  -- processor is lost or handed out twice, at most two machines are created, and each has as many
  -- processors as asked for.
  pub create_machines-Fills :
      (ns : List Numa) (b : Building) (ms : List Numa)
      → (create_machines env spec ns b).0 ≡ ok ms
      → Pairwise (Fills spec max_vm_per_numa) ns ms
  unfolding create_machines
  create_machines-Fills [] b ms h =
      subst (Pairwise (Fills spec max_vm_per_numa) []) (ok-injective h) tt
  create_machines-Fills (n ∷ ns) b ms h =
      let (m, first, later) = bind-ok (fill_if_memory env spec n) _ b h in
      let (rest, done, same) = bind-ok (create_machines env spec ns) _ _ later in
      let pairs : Pairwise (Fills spec max_vm_per_numa) (n ∷ ns) (m ∷ rest) =
        (fill_one n b first, create_machines-Fills ns _ rest done) in
      subst (Pairwise (Fills spec max_vm_per_numa) (n ∷ ns)) (ok-injective same) pairs
