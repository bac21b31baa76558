-- ===== src/Topology/Machines.antt =====
-- SUT.__init__ (resources/libraries/python/topology.py): the machines of each NUMA node and their
-- interfaces, with the constructor of VirtualMachine (resources/libraries/python/vm.py).
use cne_ovs_sit.Base.{
  ℕ, zero, suc, ◌+◌, ◌-◌, ◌||◌, String, Bool, true, List, [], ◌∷◌, ◌++◌, length, range, none, some,
  fstr, path_join, ltb, ◌==◌, if◌then◌else◌, PyError, Result, ok, err, Option, Action, pure, gets,
  or_raise, lift, modify, ◌>>=◌, ◌>>◌, runtime_error, index_error,
}
use cne_ovs_sit.Ssh.{Env, Node, Call, Reply, exec_cmd}
use cne_ovs_sit.Vif.{InterfaceAddress, Vhost, VirtualInterface, vhost_user_interface}
use cne_ovs_sit.Machine.State.{VirtualMachine, new_machine, add_vhost_user_if}
use cne_ovs_sit.Switch.Exec.{succeeded}
use cne_ovs_sit.World.{Numa}
use cne_ovs_sit.Topology.Spec.{max_vm_per_numa, vm_vifs_num}
use cne_ovs_sit.Topology.Reserve.{pop_cpus}
use cne_ovs_sit.Topology.Addresses.{vm_name, vif_name, mac_of, ofp_of, if_addr_of}

-- What all machines of a node share.
pub record MachineSpec : Type 0 where
  pub ssh_info : Node
  pub node_idx : ℕ
  pub huge_mnt : String
  pub test_root_dir : String
  pub test_tmp_dir : String
  pub ovs_native : Bool
  pub backend_client_mode : Bool
  pub vm_mem_size : ℕ
  pub vm_cpu_num : ℕ

-- The commands, the interfaces of the host so far, and the two counters.
pub record Building : Type 0 where
  pub calls : List Call
  pub vif_heap : List VirtualInterface
  pub if_idx_of_host : ℕ
  pub guest_idx : ℕ

abbrev vhost_sock_dir : String
vhost_sock_dir = "/var/run/openvswitch"

-- Guest.execute_host raises where the command fails.
abbrev pub unless_failed : {A : Type 0} → A → PyError → Result (Option Reply) → Result A
unless_failed a e (err raised) = err raised
unless_failed a e (ok reply) = if succeeded reply then ok a else err e

-- VirtualMachine(...): the state, and the copy of the disk image by Guest.execute_host.
unfoldable pub virtual_machine :
    Env → String → ℕ → MachineSpec → List ℕ → Action Building VirtualMachine
virtual_machine env name vm_idx spec cpus b =
    let vm =
      new_machine name vm_idx spec.vm_mem_size cpus spec.huge_mnt spec.ssh_info spec.test_root_dir
        spec.ovs_native in
    let cmd = fstr ("cp " ∷ vm.img_base ∷ " " ∷ vm.disk_image ∷ []) in
    let (r, calls) = exec_cmd env spec.ssh_info cmd 30 true b.calls in
    let e =
      runtime_error
        (fstr ("Execute host cmd failed on " ∷ spec.ssh_info.host ∷ " : " ∷ cmd ∷ [])) in
    (unless_failed vm e r, record b { calls = calls })

abbrev set_paths : MachineSpec → String → String → Vhost → Vhost
set_paths spec name on_vm v =
    let path = path_join spec.test_tmp_dir (fstr (on_vm ∷ "_" ∷ name ∷ [])) in
    record v {
      sock = some (path_join vhost_sock_dir name);
      backend_client_mode = spec.backend_client_mode;
      qemu_script_ifup =
          if spec.ovs_native then some (fstr (path ∷ "_ifup" ∷ [])) else v.qemu_script_ifup;
      qemu_script_ifdown =
          if spec.ovs_native then some (fstr (path ∷ "_ifdown" ∷ [])) else v.qemu_script_ifdown;
    }

unfoldable pub new_vif : MachineSpec → ℕ → ℕ → ℕ → InterfaceAddress → VirtualInterface
unfolding vhost_user_interface
new_vif spec if_idx guest_idx i if_addr =
    let name = vif_name spec.node_idx if_idx in
    let vif = vhost_user_interface name i (mac_of spec.node_idx guest_idx i) (ofp_of if_idx) in
    record vif {
      if_addr = some if_addr;
      vhost = elim vif.vhost [
        | none ↦ none
        | some v ↦ some (set_paths spec name (vm_name spec.node_idx guest_idx) v)
      ];
    }

abbrev pub put_interface :
    MachineSpec → ℕ → VirtualMachine → InterfaceAddress → Action Building VirtualMachine
put_interface spec i vm if_addr b =
    let vif = new_vif spec b.if_idx_of_host b.guest_idx i if_addr in
    let (vm, heap) = add_vhost_user_if (length b.vif_heap) vm (b.vif_heap ++ vif ∷ []) in
    pure vm (record b { vif_heap = heap; if_idx_of_host = b.if_idx_of_host + 1 })

-- The body of the loop over the interfaces of a machine.
unfoldable pub add_interface : MachineSpec → ℕ → VirtualMachine → Action Building VirtualMachine
add_interface spec i vm = gets (λ b. b.guest_idx) >>= λ guest_idx.
    lift (if_addr_of spec.node_idx guest_idx i) >>= λ if_addr. put_interface spec i vm if_addr

unfoldable pub add_interfaces :
    MachineSpec → List ℕ → VirtualMachine → Action Building VirtualMachine
unfolding add_interface
add_interfaces spec [] vm = pure vm
add_interfaces spec (i ∷ is) vm = add_interface spec i vm >>= add_interfaces spec is

unfoldable pub create_machine : Env → MachineSpec → List ℕ → Action Building VirtualMachine
unfolding virtual_machine add_interfaces
create_machine env spec cpus = gets (λ b. b.guest_idx) >>= λ guest_idx.
    virtual_machine env (vm_name spec.node_idx guest_idx) guest_idx spec cpus >>= λ vm.
    add_interfaces spec (range 0 vm_vifs_num) vm

abbrev pub next_guest : Building → Building
next_guest b = record b { guest_idx = b.guest_idx + 1 }

abbrev pub with_machine : ℕ → List ℕ → VirtualMachine → Numa → Numa
with_machine mem left vm n = record n {
  avail_mem = n.avail_mem - mem;
  avail_cpus = left;
  vms = n.vms ++ vm ∷ [];
}

-- `avail_mem < vm_mem_size` or `len(avail_cpus) < vm_cpu_num`, each of which breaks the loop.
abbrev pub lacks : MachineSpec → Numa → Bool
lacks spec n = ltb n.avail_mem spec.vm_mem_size || ltb (length n.avail_cpus) spec.vm_cpu_num

abbrev pub place_machine : Env → MachineSpec → Numa → List ℕ × List ℕ → Action Building Numa
place_machine env spec n cpus = create_machine env spec cpus.0 >>= λ vm.
    modify next_guest >> pure (with_machine spec.vm_mem_size cpus.1 vm n)

-- At most so many more machines.
unfoldable pub fill_numa : Env → MachineSpec → ℕ → Numa → Action Building Numa
unfolding create_machine pop_cpus
fill_numa env spec zero n = pure n
fill_numa env spec (suc more) n =
    if lacks spec n
    then pure n
    else or_raise (pop_cpus spec.vm_cpu_num n.avail_cpus) index_error >>= λ cpus.
        place_machine env spec n cpus >>= fill_numa env spec more

-- A NUMA node without memory is passed by.
abbrev pub fill_if_memory : Env → MachineSpec → Numa → Action Building Numa
fill_if_memory env spec n =
    if n.avail_mem == 0 then pure n else fill_numa env spec max_vm_per_numa n

unfoldable pub create_machines : Env → MachineSpec → List Numa → Action Building (List Numa)
unfolding fill_numa
create_machines env spec [] = pure []
create_machines env spec (n ∷ ns) = fill_if_memory env spec n >>= λ filled.
    create_machines env spec ns >>= λ rest. pure (filled ∷ rest)
