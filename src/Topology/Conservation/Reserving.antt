-- ===== src/Topology/Conservation/Reserving.antt =====
-- What OVS-DPDK takes of the NUMA nodes in SUT.__init__ (resources/libraries/python/topology.py).
use cne_ovs_sit.Base.{
  ℕ, ◌+◌, List, [], ◌∷◌, length, count, count-append, Option, none, some, ok, err, chain-ok,
  ok-injective, ◌≡◌, refl, ap, if-cases, system_exit, inl, inr, arith, ◌==◌, ltb,
}
use mathlib.Core.Path.{subst}
use cne_ovs_sit.World.{Numa}
use cne_ovs_sit.Topology.Reserve.{
  pop_cpus, popped, is_pnic_numa, take_cpus, reserve_cpus, reserve_all_cpus,
}
use cne_ovs_sit.Topology.Conservation.{pop_cpus-append, holds, all_hold}

abbrev Splits : Numa → List ℕ × Numa → Type 0
Splits n p = (c : ℕ) → count c p.0 + holds c p.1 ≡ holds c n

popped-some : (o : Option (List ℕ × List ℕ)) {p : List ℕ × List ℕ} → popped o ≡ ok p → o ≡ some p
popped-some none h = cc
popped-some (some q) h = ap some (ok-injective h)

take_cpus-Splits : (num : ℕ) (n : Numa) (p : List ℕ × Numa) → take_cpus num n ≡ ok p → Splits n p
take_cpus-Splits num n p h = elim (if-cases (ltb (length n.avail_cpus) num) (err system_exit) _ h) [
  | inl (few, failed) ↦ cc
  | inr (enough, took) ↦
      let (q, got, same) = chain-ok (popped (pop_cpus num n.avail_cpus)) _ took in
      let (parts, size) = pop_cpus-append num n.avail_cpus q (popped-some _ got) in
      let splits : Splits n (q.0, record n { avail_cpus = q.1 }) =
        λ c. omega (arith, count-append c q.0 q.1, ap (count c) parts) in
      subst (Splits n) (ok-injective same) splits
]

reserve_cpus-Splits :
    (pnic : Option ℕ) (a b : ℕ) (n : Numa) (p : List ℕ × Numa)
    → reserve_cpus pnic a b n ≡ ok p
    → Splits n p
unfolding reserve_cpus
reserve_cpus-Splits pnic a b n p h = elim (if-cases (n.avail_mem == 0) (ok ([], n)) _ h) [
  | inl (out, same) ↦ subst (Splits n) (ok-injective same) (λ c. omega arith)
  | inr (memory, chosen) ↦
      elim (if-cases (is_pnic_numa pnic n.numa_id) (take_cpus a n) (take_cpus b n) chosen) [
        | inl (here, took) ↦ take_cpus-Splits a n p took
        | inr (there, took) ↦ take_cpus-Splits b n p took
      ]
]

-- Each processor of the node is taken by OVS-DPDK or left on its NUMA node, as often as it was there:
-- none is taken twice.
pub reserve_all_cpus-all_hold :
    (pnic : Option ℕ) (pnic_num norm_num : ℕ) (ns : List Numa) (p : List ℕ × List Numa)
    → reserve_all_cpus pnic pnic_num norm_num ns ≡ ok p
    → (c : ℕ) → count c p.0 + all_hold c p.1 ≡ all_hold c ns
unfolding reserve_all_cpus
reserve_all_cpus-all_hold pnic a b [] p h c =
    subst (λ p. count c p.0 + all_hold c p.1 ≡ 0) (ok-injective h) refl
reserve_all_cpus-all_hold pnic a b (n ∷ ns) p h c =
    let (first, got, later) = chain-ok (reserve_cpus pnic a b n) _ h in
    let (more, rest, same) = chain-ok (reserve_all_cpus pnic a b ns) _ later in
    subst (λ p. count c p.0 + all_hold c p.1 ≡ holds c n + all_hold c ns) (ok-injective same)
      (omega (
        arith,
        count-append c first.0 more.0,
        reserve_cpus-Splits pnic a b n first got c,
        reserve_all_cpus-all_hold pnic a b ns more rest c,
      ))
