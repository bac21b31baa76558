-- ===== src/Topology/Construct.antt =====
-- SUT.__init__ as a whole and the nodes of the topology file: load_topo_from_yaml
-- (resources/libraries/python/topology.py). The reading of the file is not part of it.
use cne_ovs_sit.Base.{
  ℕ, ◌*◌, String, Bool, true, false, List, [], ◌∷◌, ◌++◌, Option, none, some, fstr, strip,
  path_join, hex, Result, if◌then◌else◌, ok, err, chain, Action, pure, lift, ◌>>=◌, ◌>>◌,
  runtime_error,
}
use text.Mathlib.Text.{◌==◌ as text_eq}
use cne_ovs_sit.Ssh.{Env, Call, Reply}
use cne_ovs_sit.Vif.{InterfaceAddress}
use cne_ovs_sit.Switch.State.{Datapath, ovs_dpdk, ovs_native, AuxParams, VirtualSwitch, Method}
use cne_ovs_sit.Switch.Bridges.{stop_vswitch}
use cne_ovs_sit.Switch.Startup.{new_switch, start_vswitch}
use cne_ovs_sit.World.{Numa, Sut}
use cne_ovs_sit.Topology.Spec.{
  NodeSpec, or_default, huge_mnt_default, hugepage_size_default, ovsdpdk_pnic_numa_cpu_num,
  ovsdpdk_norm_numa_cpu_num, vm_mem_size_default, vm_cpu_num_default,
}
use cne_ovs_sit.Topology.Probe.{ask, collect}
use cne_ovs_sit.Topology.Nics.{locate_pnics}
use cne_ovs_sit.Topology.Reserve.{max, reserve_mems, socket_mem_str, mask_of, reserve_all_cpus}
use cne_ovs_sit.Topology.Addresses.{tep_addr_of}
use cne_ovs_sit.Topology.Machines.{MachineSpec, Building, create_machines}

-- The size of a hugepage in KB
abbrev pub page_of : NodeSpec → ℕ
page_of spec = or_default spec.hugepage_size hugepage_size_default * 1024

abbrev answer_text : Option Reply → String
answer_text none = "None"
answer_text (some reply) = reply.stdout

-- An empty entry counts as absent.
abbrev root_given : Option String → Option String
root_given none = none
root_given (some String.[]) = none
root_given (some (String.◌∷◌ c s)) = some (String.◌∷◌ c s)

unfoldable pub test_root_dir : Env → NodeSpec → Action (List Call) String
test_root_dir env spec = elim (root_given spec.test_root_dir) [
  | some dir ↦ pure dir
  | none ↦ ask env spec.ssh_info "echo ~" >>= λ answer.
      pure (path_join (strip (answer_text answer)) "TEST_ROOT/")
]

unfoldable pub make_tmp_dir : Env → NodeSpec → String → Action (List Call) (Unit {0})
make_tmp_dir env spec dir = do
  ask env spec.ssh_info (fstr ("rm -rf " ∷ dir ∷ []))
  ask env spec.ssh_info (fstr ("mkdir -p " ∷ dir ∷ []))
  pure tt

abbrev pub datapath_named : String → Result Datapath
datapath_named name =
    if text_eq name "ovs-dpdk"
    then ok ovs_dpdk
    else if text_eq name "ovs-native"
    then ok ovs_native
    else err (runtime_error (fstr ("Do not support " ∷ name ∷ " type datapath" ∷ [])))

abbrev pub aux_of : NodeSpec → List ℕ → List ℕ → AuxParams
aux_of spec socket_mems cpus = record {
  socket_mem = socket_mem_str socket_mems;
  huge_mnt = or_default spec.huge_mnt huge_mnt_default;
  cpu_mask = hex (mask_of 0 cpus);
  userspace_tso = or_default spec.userspace_tso true;
  driver = or_default spec.driver "vfio-pci";
}

-- What the datapath takes of the NUMA nodes: the kernel's takes nothing.
unfoldable pub reserve :
    Datapath → NodeSpec → Option ℕ → List Numa → Result (Option AuxParams × List Numa)
unfolding reserve_mems reserve_all_cpus
reserve ovs_native spec pnic numas = ok (none, numas)
reserve ovs_dpdk spec pnic numas =
    let (socket_mems, left) = reserve_mems (page_of spec) numas in
    chain
      (reserve_all_cpus pnic (or_default spec.pnic_numa_cpu_num ovsdpdk_pnic_numa_cpu_num)
        (or_default spec.norm_numa_cpu_num ovsdpdk_norm_numa_cpu_num) left)
      (λ taken. ok (some (aux_of spec socket_mems taken.0), taken.1))

-- The switch runs on the commands so far, and the machines go on from its.
abbrev pub run_switch : {A : Type 0} → Method A → VirtualSwitch → Action (List Call) VirtualSwitch
run_switch m s calls =
    let (r, s') = m (record s { calls = calls }) in (chain r (λ a. ok s'), s'.calls)

abbrev pub run_building :
    {A : Type 0} → Action Building A → VirtualSwitch → Action (List Call) (A × VirtualSwitch)
run_building m s calls =
    let start : Building = record {
      calls = calls;
      vif_heap = s.vif_heap;
      if_idx_of_host = 1;
      guest_idx = 1;
    } in
    let (r, b) = m start in
    (chain r (λ a. ok (a, record s { vif_heap = b.vif_heap; calls = b.calls })), b.calls)

abbrev pub machine_spec : NodeSpec → Datapath → String → String → MachineSpec
machine_spec spec datapath root tmp = record {
  ssh_info = spec.ssh_info;
  node_idx = spec.id;
  huge_mnt = or_default spec.huge_mnt huge_mnt_default;
  test_root_dir = root;
  test_tmp_dir = tmp;
  ovs_native = elim datapath [ ovs_dpdk ↦ false | ovs_native ↦ true ];
  backend_client_mode = or_default spec.vhost_client_mode true;
  vm_mem_size = max (or_default spec.vm_mem_size vm_mem_size_default * 1024) (page_of spec);
  vm_cpu_num = or_default spec.vm_cpu_num vm_cpu_num_default;
}

abbrev pub initial_switch :
    NodeSpec → Datapath → String → InterfaceAddress → Option AuxParams → VirtualSwitch
initial_switch spec datapath root tep_addr aux_params =
    let dp_type = or_default spec.dp_type "ovs-dpdk" in
    new_switch datapath spec.ssh_info spec.interfaces tep_addr
      (path_join root (fstr ("bin/" ∷ dp_type ∷ "/" ∷ []))) (path_join root "bin/") aux_params

-- The end of the constructor: the switch is started, and the machines are created on what is left.
unfoldable pub start_sut :
    Env
    → Bool
    → String
    → NodeSpec
    → Datapath
    → String
    → InterfaceAddress
    → Option AuxParams × List Numa
    → Action (List Call) Sut
unfolding start_vswitch create_machines
start_sut env attach_gdb name spec datapath root tep_addr reserved =
    run_switch (stop_vswitch env >> start_vswitch env attach_gdb)
      (initial_switch spec datapath root tep_addr reserved.0)
    >>= λ started.
        run_building
          (create_machines env (machine_spec spec datapath root (path_join root "temp")) reserved.1)
          started
        >>= λ built. pure (record { name = name; numas = built.0; vms = []; vswitch = built.1 })

-- The middle: directories, the tunnel end point, the kind of datapath and what it takes.
unfoldable pub set_up_sut :
    Env → Bool → String → NodeSpec → List Numa → Option ℕ → Action (List Call) Sut
unfolding test_root_dir make_tmp_dir reserve start_sut
set_up_sut env attach_gdb name spec numas pnic = test_root_dir env spec >>= λ root.
    make_tmp_dir env spec (path_join root "temp") >>= λ _.
    lift (tep_addr_of spec.id) >>= λ tep_addr.
    lift (datapath_named (or_default spec.dp_type "ovs-dpdk")) >>= λ datapath.
    lift (reserve datapath spec pnic numas) >>= λ reserved.
    start_sut env attach_gdb name spec datapath root tep_addr reserved

-- The constructor: what the node has, and the NUMA node of its uplinks first.
unfoldable pub new_sut : Env → Bool → String → NodeSpec → Action (List Call) Sut
unfolding set_up_sut
new_sut env attach_gdb name spec =
    collect env spec.ssh_info (or_default spec.huge_mnt huge_mnt_default) (page_of spec)
    >>= λ numas. locate_pnics env spec.ssh_info none spec.interfaces >>= λ pnic.
        set_up_sut env attach_gdb name spec numas pnic

-- An entry of the file: only those of type SUT are nodes.
pub record NodeEntry : Type 0 where
  pub name : String
  pub is_sut : Bool
  pub spec : NodeSpec

-- The list `suts` that the nodes are appended to.
unfoldable pub load_topo : Env → Bool → List NodeEntry → List Sut → Action (List Call) (List Sut)
unfolding new_sut
load_topo env attach_gdb [] suts = pure suts
load_topo env attach_gdb (entry ∷ entries) suts =
    if entry.is_sut
    then (new_sut env attach_gdb entry.name entry.spec >>= λ sut.
        load_topo env attach_gdb entries (suts ++ sut ∷ []))
    else load_topo env attach_gdb entries suts

unfoldable pub init_topology : Env → Bool → List NodeEntry → Action (List Call) (List Sut)
unfolding load_topo
init_topology env attach_gdb entries = load_topo env attach_gdb entries []
