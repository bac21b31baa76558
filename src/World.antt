-- ===== src/World.antt =====
-- The nodes under test: class SUT and the global list `suts`
-- (resources/libraries/python/topology.py), and the loops over it.
use cne_ovs_sit.Base.{
  ℕ, suc, String, List, [], ◌∷◌, ◌++◌, length, get_elem?, modify_at, range, none, some, ◌==◌,
  attribute_error, index_error, Action, for_each, pure, raise, gets, or_raise, ◌>>=◌, if◌then◌else◌,
}
use cne_ovs_sit.Ssh.{Env}
pub use cne_ovs_sit.Machine.State.{VirtualMachine}
use cne_ovs_sit.Switch.State.{VirtualSwitch, Method}
use cne_ovs_sit.Switch.Bridges.{find_bridge}
use cne_ovs_sit.Flow.Output.{View}

pub record Numa : Type 0 where
  pub numa_id : ℕ
  pub avail_cpus : List ℕ
  pub avail_mem : ℕ
  pub vms : List VirtualMachine

-- `vms` is a list of its own, beside those of the NUMA nodes.
pub record Sut : Type 0 where
  pub name : String
  pub numas : List Numa
  pub vms : List VirtualMachine
  pub vswitch : VirtualSwitch

abbrev numa_vms : List Numa → List VirtualMachine
numa_vms [] = []
numa_vms (n ∷ ns) = n.vms ++ numa_vms ns

unfoldable pub get_vms : Sut → List VirtualMachine
get_vms sut = numa_vms sut.numas

-- A node is its position in `suts`.
abbrev pub World : Type 0
World = List Sut

unfoldable pub read_sut : ℕ → Action World Sut
read_sut i suts = or_raise (get_elem? suts i) index_error suts

-- A method of the node's switch.
unfoldable pub on_switch : {A : Type 0} → ℕ → Method A → Action World A
on_switch i m suts = elim (get_elem? suts i) [
  | none ↦ raise index_error suts
  | some sut ↦
      let (r, vswitch) = m sut.vswitch in
      (r, modify_at suts i (λ sut. record sut { vswitch = vswitch }))
]

-- `for sut in suts: body(sut)`
unfoldable pub for_suts : (ℕ → Action World (Unit {0})) → Action World (Unit {0})
for_suts body = do n ← gets length; for_each (range 0 n) body

-- The IPv4 end points of the nodes other than `i`, from position `j` on.
unfoldable pub remote_teps : ℕ → ℕ → List Sut → List ℕ
remote_teps i j [] = []
remote_teps i j (sut ∷ suts) =
    if j == i
    then remote_teps i (suc j) suts
    else sut.vswitch.tep_addr.ipv4 ∷ remote_teps i (suc j) suts

-- What the flow generators read of a node. `None` has no attributes.
unfoldable pub view : Env → ℕ → String → Action World View
view env i br_name = do
  remotes ← gets (remote_teps i 0)
  sut ← read_sut i
  (_, bridge) ← or_raise (find_bridge br_name sut.vswitch.bridges) attribute_error
  pure (record {
    env = env;
    remotes = remotes;
    vif_heap = sut.vswitch.vif_heap;
    uplink_heap = sut.vswitch.uplink_heap;
    bridge = bridge;
  })
