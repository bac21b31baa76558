-- ===== src/Topology/Probe.antt =====
-- The first part of SUT.__init__ (resources/libraries/python/topology.py): processors and free
-- hugepages of a node.
use cne_ovs_sit.Base.{
  ℕ, ◌+◌, ◌*◌, String, Bool, true, false, List, [], ◌∷◌, ◌++◌, map, select, get_elem?, modify_at,
  range, Option, none, some, fstr, show, strip, split_on, split_lines, int_of, pos, negsuc, is_zero,
  Result, ok, err, chain, Action, pure, or_raise, lift, ◌>>=◌, ◌>>◌, ◌==◌, if◌then◌else◌,
  attribute_error, index_error, value_error, system_exit,
}
use Prim.Native.Char.{code}
use cne_ovs_sit.Ssh.{Env, Node, Call, Reply, exec_cmd, kill_process}
use cne_ovs_sit.World.{Numa}

-- `lscpu -p` prints no signs, and what is not a number counts as 0.
unfoldable pub atoi : String → ℕ
unfolding int_of
atoi s = elim (int_of s) [ none ↦ 0 | some (pos n) ↦ n | some (negsuc n) ↦ 0 ]

-- `len(line) > 0 and line[0] != "#"`
abbrev is_row : String → Bool
is_row String.[] = false
is_row (String.◌∷◌ c s) = if code c == 35 then false else true

-- A row holds the numbers of CPU, core, socket and NUMA node, and more.
abbrev pub Row : Type 0
Row = List ℕ

abbrev comma : ℕ
comma = 44

unfoldable pub parse_cpuinfo : String → List Row
unfolding split_lines split_on atoi
parse_cpuinfo out = map (λ line. map atoi (split_on comma line)) (select is_row (split_lines out))

abbrev pub last_of : List Row → Option Row
last_of [] = none
last_of (row ∷ []) = some row
last_of (row ∷ next ∷ rows) = last_of (next ∷ rows)

-- An index that is out of range is an IndexError.
abbrev pub found : {A : Type 0} → Option A → Result A
found none = err index_error
found (some a) = ok a

-- `self.cpuinfo[-1][3] + 1`
unfoldable pub n_numa : List Row → Result ℕ
n_numa rows =
    chain (found (last_of rows)) (λ row. chain (found (get_elem? row 3)) (λ node. ok (node + 1)))

-- Below zero is normalised to 0; what is not a number ends the program.
unfoldable pub normalized : String → Result ℕ
unfolding int_of
normalized s = elim (int_of s) [
  | none ↦ err system_exit
  | some (pos n) ↦ ok n
  | some (negsuc n) ↦ ok 0
]

abbrev new_numa : ℕ → ℕ → Numa
new_numa numa_id avail_mem = record {
  numa_id = numa_id;
  avail_cpus = [];
  avail_mem = avail_mem;
  vms = [];
}

module _ (env : Env) (node : Node) where
  -- The defaults of exec_cmd
  abbrev pub ask : String → Action (List Call) (Option Reply)
  ask cmd = exec_cmd env node cmd 600 true

  unfoldable pub free_hugepages_command : ℕ → ℕ → String
  free_hugepages_command page numa_id = fstr (
      "cat /sys/devices/system/node/node"
      ∷ show numa_id
      ∷ "/hugepages/hugepages-"
      ∷ show page
      ∷ "kB/free_hugepages"
      ∷ [])

  -- A node whose file cannot be read is left out.
  unfoldable pub collect_numas : ℕ → List ℕ → Action (List Call) (List Numa)
  unfolding free_hugepages_command normalized strip
  collect_numas page [] = pure []
  collect_numas page (numa_id ∷ ids) = do
    answer ← ask (free_hugepages_command page numa_id)
    reply ← or_raise answer attribute_error
    let later = collect_numas page ids in
        if is_zero reply.ret_code
        then (do
          free ← lift (normalized (strip reply.stdout))
          numas ← later
          pure (new_numa numa_id (page * free) ∷ numas))
        else later

  -- The processes of an earlier run are ended before the resources are counted.
  unfoldable pub clean : String → Action (List Call) (Unit {0})
  clean huge_mnt = do
    kill_process env node "qemu-system-x86_64"
    kill_process env node "ovs-vswitchd"
    kill_process env node "ovsdb-server"
    ask (fstr ("rm -rf " ∷ huge_mnt ∷ "/rtemap_*" ∷ []))
    pure tt

abbrev add_cpu : ℕ → Numa → Numa
add_cpu cpu n = record n { avail_cpus = n.avail_cpus ++ cpu ∷ [] }

-- `self.numas[cpu[3]].avail_cpus.append(cpu[0])`: the list is indexed by the number of the NUMA node.
unfoldable pub place_cpu : Row → List Numa → Result (List Numa)
place_cpu row numas = chain (found (get_elem? row 3)) (λ i.
    chain (found (get_elem? numas i))
      (λ numa. chain (found (get_elem? row 0)) (λ cpu. ok (modify_at numas i (add_cpu cpu)))))

unfoldable pub place_cpus : List Row → List Numa → Result (List Numa)
unfolding place_cpu
place_cpus [] numas = ok numas
place_cpus (row ∷ rows) numas = chain (place_cpu row numas) (place_cpus rows)

-- `list.remove`
unfoldable pub remove : ℕ → List ℕ → Option (List ℕ)
remove a [] = none
remove a (x ∷ xs) =
    if a == x then some xs else elim (remove a xs) [ none ↦ none | some rest ↦ some (x ∷ rest) ]

-- Core 0 is not used.
unfoldable pub spare_core_0 : List Numa → Result (List Numa)
unfolding remove
spare_core_0 [] = err index_error
spare_core_0 (n ∷ ns) = elim (remove 0 n.avail_cpus) [
  | none ↦ err value_error
  | some rest ↦ ok (record n { avail_cpus = rest } ∷ ns)
]

-- The NUMA nodes with their processors and memory. `page` is the size of a hugepage in KB.
unfoldable pub collect : Env → Node → String → ℕ → Action (List Call) (List Numa)
unfolding parse_cpuinfo n_numa collect_numas clean place_cpus spare_core_0
collect env node huge_mnt page = do
  answer ← ask env node "lscpu -p"
  clean env node huge_mnt
  reply ← or_raise answer attribute_error
  let rows = parse_cpuinfo reply.stdout in
      do
        n ← lift (n_numa rows)
        numas ← collect_numas env node page (range 0 n)
        placed ← lift (place_cpus rows numas)
        lift (spare_core_0 placed)
