-- ===== src/Topology/Reserve.antt =====
-- SUT.__init__ (resources/libraries/python/topology.py): the memory and the processors that OVS-DPDK
-- takes of each NUMA node.
use cne_ovs_sit.Base.{
  ℕ, zero, suc, ◌+◌, ◌-◌, ◌/◌, ◌%◌, String, Bool, false, List, [], ◌∷◌, ◌++◌, length, Option, none,
  some, append, show, leb, ltb, ◌==◌, if◌then◌else◌, Result, ok, err, chain, system_exit,
  index_error,
}
use Prim.Native.Nat.{◌^◌}
use Prim.Native.Char.{code}
use cne_ovs_sit.World.{Numa}
use cne_ovs_sit.Topology.Spec.{ovsdpdk_mem_per_socket}

abbrev pub max : ℕ → ℕ → ℕ
max a b = if ltb a b then b else a

-- What is taken of one NUMA node, and what is left of it. A node that has no more than that is skipped:
-- its memory counts as 0 from then on.
unfoldable pub reserve_mem : ℕ → Numa → ℕ × Numa
reserve_mem page n =
    let socket_mem = max ovsdpdk_mem_per_socket page in
    if leb n.avail_mem socket_mem
    then (0, record n { avail_mem = 0 })
    else (socket_mem, record n { avail_mem = n.avail_mem - socket_mem })

unfoldable pub reserve_mems : ℕ → List Numa → List ℕ × List Numa
unfolding reserve_mem
reserve_mems page [] = ([], [])
reserve_mems page (n ∷ ns) =
    let (taken, left) = reserve_mem page n in
    let (more, rest) = reserve_mems page ns in (taken ∷ more, left ∷ rest)

abbrev comma_ended : List ℕ → String
comma_ended [] = ""
comma_ended (mem ∷ mems) = append (show (mem / 1024)) (append "," (comma_ended mems))

-- `s.rstrip(',')`
unfoldable pub rstrip_commas : String → String
rstrip_commas String.[] = ""
rstrip_commas (String.◌∷◌ c s) = elim (rstrip_commas s) [
  | String.[] ↦ if code c == 44 then "" else String.◌∷◌ c ""
  | String.◌∷◌ d t ↦ String.◌∷◌ c (String.◌∷◌ d t)
]

-- In MB, for the option of OVS
unfoldable pub socket_mem_str : List ℕ → String
unfolding rstrip_commas
socket_mem_str mems = rstrip_commas (comma_ended mems)

-- `mask | 1 << cpu`
unfoldable pub set_bit : ℕ → ℕ → ℕ
set_bit mask cpu = if mask / 2 ^ cpu % 2 == 1 then mask else mask + 2 ^ cpu

abbrev pub mask_of : ℕ → List ℕ → ℕ
mask_of mask [] = mask
mask_of mask (cpu ∷ cpus) = mask_of (set_bit mask cpu) cpus

-- `n` times `avail_cpus.pop(0)`: what is popped, and what is left.
unfoldable pub pop_cpus : ℕ → List ℕ → Option (List ℕ × List ℕ)
pop_cpus zero cpus = some ([], cpus)
pop_cpus (suc n) [] = none
pop_cpus (suc n) (cpu ∷ cpus) = elim (pop_cpus n cpus) [
  | none ↦ none
  | some (taken, left) ↦ some (cpu ∷ taken, left)
]

abbrev pub is_pnic_numa : Option ℕ → ℕ → Bool
is_pnic_numa none numa_id = false
is_pnic_numa (some k) numa_id = numa_id == k

abbrev pub popped : Option (List ℕ × List ℕ) → Result (List ℕ × List ℕ)
popped none = err index_error
popped (some p) = ok p

abbrev pub take_cpus : ℕ → Numa → Result (List ℕ × Numa)
take_cpus num n =
    if ltb (length n.avail_cpus) num
    then err system_exit
    else chain (popped (pop_cpus num n.avail_cpus)) (λ p. ok (p.0, record n { avail_cpus = p.1 }))

-- A NUMA node without memory is passed by.
unfoldable pub reserve_cpus : Option ℕ → ℕ → ℕ → Numa → Result (List ℕ × Numa)
unfolding pop_cpus
reserve_cpus pnic pnic_num norm_num n =
    if n.avail_mem == 0
    then ok ([], n)
    else if is_pnic_numa pnic n.numa_id
    then take_cpus pnic_num n
    else take_cpus norm_num n

-- The processors in the order in which the mask takes them, and what is left of the NUMA nodes.
unfoldable pub reserve_all_cpus : Option ℕ → ℕ → ℕ → List Numa → Result (List ℕ × List Numa)
unfolding reserve_cpus
reserve_all_cpus pnic pnic_num norm_num [] = ok ([], [])
reserve_all_cpus pnic pnic_num norm_num (n ∷ ns) =
    chain (reserve_cpus pnic pnic_num norm_num n) (λ first.
      chain (reserve_all_cpus pnic pnic_num norm_num ns)
        (λ more. ok (first.0 ++ more.0, first.1 ∷ more.1)))
