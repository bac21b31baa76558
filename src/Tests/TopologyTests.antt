-- ===== src/Tests/TopologyTests.antt =====
-- A node with four processors and four hugepages, from its probes to its machines.
use cne_ovs_sit.Base.{
  ap, bind_run, ℕ, String, true, false, List, [], ◌∷◌, contains, int_of, range, fstr, show,
  path_join, for_each, none, some, pos, Result, ok, err, ◌≡◌, refl, if◌then◌else◌, Pairwise,
}
use cne_ovs_sit.Ssh.{Env, done, exec_cmd, kill_process}
use cne_ovs_sit.Vif.{InterfaceAddress, has_same_subnet}
use cne_ovs_sit.World.{Numa, Sut}
use cne_ovs_sit.Topology.Spec.{NodeSpec, or_default, huge_mnt_default, max_vm_per_numa}
use cne_ovs_sit.Topology.Nics.{note_pnic, read_numa_id, Reads, ZeroOr, locate_pnics-ZeroOr}
use cne_ovs_sit.Topology.Probe.{normalized}
use cne_ovs_sit.Switch.Startup.{UplinkSpec}
use cne_ovs_sit.Topology.Reserve.{pop_cpus}
use cne_ovs_sit.Topology.Addresses.{if_addr_of}
use cne_ovs_sit.Topology.Machines.{
  MachineSpec, Building, virtual_machine, add_interface, add_interfaces, create_machine, fill_numa,
  create_machines, new_vif,
}
use cne_ovs_sit.Topology.Probe.{collect}
use cne_ovs_sit.Topology.Construct.{NodeEntry, page_of, new_sut, load_topo, init_topology}
use cne_ovs_sit.Overlay.Assign.{
  set_vif_vni_by_idx_on_vm, set_vif_vni_by_idx_on_host, reset_vif_vni_on_all_suts,
}
use cne_ovs_sit.Overlay.Assign.Effect.{heaps}
use cne_ovs_sit.Overlay.Assign.Unassigned.{init_topology-heaps}
use cne_ovs_sit.Topology.Conservation.{Fills}
use cne_ovs_sit.Topology.Conservation.Filling.{create_machines-Fills}
use cne_ovs_sit.Topology.Conservation.Sharing.{Masks, Shares, new_sut-Shares}
use cne_ovs_sit.Topology.Numbering.{if_addr_of-injective, new_vif-has_same_subnet}
use cne_ovs_sit.Switch.Exec.{run, execute, execute_batch, execute_host, execute_host_batch, kill}
use cne_ovs_sit.Switch.Bridges.{stop_vswitch}
use cne_ovs_sit.Switch.Startup.{new_switch, host_output, bind_dpdk, start_ovs_dpdk, start_vswitch}
use cne_ovs_sit.Topology.Nics.{locate_pnics}
use cne_ovs_sit.Topology.Reserve.{reserve_mem, reserve_mems, reserve_cpus, reserve_all_cpus}
use cne_ovs_sit.Topology.Addresses.{tep_addr_of}
use cne_ovs_sit.Topology.Construct.{test_root_dir, make_tmp_dir, reserve, start_sut, set_up_sut}
use cne_ovs_sit.Tests.Samples.{env, node, sut}

-- A host with a card on node 0 and one on node 1.
abbrev pnic_env : Env
pnic_env = record {
  answer = λ calls call. done (record {
    ret_code = pos 0;
    stdout = if contains "00:05" call.command then "0\n" else "1\n";
    stderr = "";
  });
  show_ipv4 = λ a. "1.1.1.1";
  show_ipv6 = λ a. "::1";
}

abbrev card : String → String → UplinkSpec
card name pci_address = record {
  name = name;
  pci_address = pci_address;
  n_queue_pair = none;
  n_rxq_desc = none;
  n_txq_desc = none;
}

abbrev cards : List UplinkSpec
cards = card "pnic0" "00:05" ∷ card "pnic1" "80:06" ∷ []

located : (locate_pnics pnic_env node none cards []).0 ≡ ok (some 1)
unfolding locate_pnics read_numa_id note_pnic exec_cmd fstr normalized contains
located = refl

locate_pnics-ZeroOr_example : (ids : List ℕ) × Reads pnic_env node cards ids [] × ZeroOr 1 ids
locate_pnics-ZeroOr_example = locate_pnics-ZeroOr pnic_env node cards [] 1 located

abbrev addr_or : Result InterfaceAddress → InterfaceAddress → InterfaceAddress
addr_or (ok a) d = a
addr_or (err e) d = d

abbrev machines : MachineSpec
machines = record {
  ssh_info = node;
  node_idx = 1;
  huge_mnt = "/dev/hugepages";
  test_root_dir = "/root/";
  test_tmp_dir = "/root/temp";
  ovs_native = false;
  backend_client_mode = true;
  vm_mem_size = 1048576;
  vm_cpu_num = 1;
}

abbrev numa : Numa
numa = record { numa_id = 0; avail_cpus = 1 ∷ 2 ∷ 3 ∷ []; avail_mem = 3145728; vms = [] }

abbrev building : Building
building = record { calls = []; vif_heap = []; if_idx_of_host = 1; guest_idx = 1 }

abbrev numas_or : Result (List Numa) → List Numa
numas_or (ok ns) = ns
numas_or (err e) = []

unfoldable pub filled : List Numa
filled = numas_or (create_machines env machines (numa ∷ []) building).0

machines_created : (create_machines env machines (numa ∷ []) building).0 ≡ ok filled
unfolding filled create_machines fill_numa create_machine add_interfaces add_interface
    virtual_machine exec_cmd pop_cpus if_addr_of fstr range
machines_created = refl

create_machines-Fills_example : Pairwise (Fills machines max_vm_per_numa) (numa ∷ []) filled
create_machines-Fills_example =
    create_machines-Fills env machines (numa ∷ []) building filled machines_created

abbrev address : ℕ → ℕ → ℕ → InterfaceAddress
address n g i = addr_or (if_addr_of n g i) (record {
  ipv4 = 0;
  ipv4_network = record { address = 0; prefixlen = 0 };
  ipv6 = 0;
  ipv6_network = record { address = 0; prefixlen = 0 };
})

first_address : if_addr_of 1 2 0 ≡ ok (address 1 2 0)
unfolding if_addr_of
first_address = refl

other_address : if_addr_of 1 3 1 ≡ ok (address 1 3 1)
unfolding if_addr_of
other_address = refl

abbrev octet : ℕ → ℕ
octet n = n

if_addr_of-injective_example : (octet 1 ≡ 1) × (octet 2 ≡ 2) × (octet 0 ≡ 0)
if_addr_of-injective_example =
    if_addr_of-injective 1 2 0 1 2 0 (address 1 2 0) (address 1 2 0) first_address first_address
      refl

new_vif-has_same_subnet_example :
    has_same_subnet
      (new_vif machines 1 2 0 (address 1 2 0))
      (new_vif machines 4 3 1 (address 1 3 1))
    ≡ ok false
new_vif-has_same_subnet_example =
    new_vif-has_same_subnet machines machines 1 4 2 3 0 1 (address 1 2 0) (address 1 3 1)
      first_address other_address

-- The answers of a host with one NUMA node.
abbrev output_of : String → String
output_of cmd =
    if contains "lscpu" cmd
    then "# CPU,Core,Socket,Node\n0,0,0,0\n1,1,0,0\n2,2,0,0\n3,3,0,0\n"
    else if contains "free_hugepages" cmd
    then "4\n"
    else if contains "pgrep" cmd
    then "77\n"
    else ""

abbrev host_env : Env
host_env = record {
  answer = λ calls call.
      done (record { ret_code = pos 0; stdout = output_of call.command; stderr = "" });
  show_ipv4 = λ a. "1.1.1.1";
  show_ipv6 = λ a. "::1";
}

abbrev spec : NodeSpec
spec = record {
  ssh_info = node;
  id = 1;
  interfaces = [];
  dp_type = none;
  driver = none;
  huge_mnt = none;
  hugepage_size = none;
  userspace_tso = none;
  test_root_dir = some "/root/";
  pnic_numa_cpu_num = none;
  norm_numa_cpu_num = none;
  vm_mem_size = none;
  vm_cpu_num = none;
  vhost_client_mode = none;
}

abbrev sut_or : Result Sut → Sut
sut_or (ok s) = s
sut_or (err e) = sut

unfoldable built : Sut
built = sut_or (new_sut host_env false "SUT" spec []).0

sut_built : (new_sut host_env false "SUT" spec []).0 ≡ ok built
unfolding built new_sut collect exec_cmd kill_process fstr range show path_join locate_pnics
    tep_addr_of stop_vswitch kill new_switch start_vswitch start_ovs_dpdk bind_dpdk execute_host
    execute_host_batch for_each execute_batch execute run host_output int_of set_up_sut start_sut
    test_root_dir make_tmp_dir reserve reserve_mems reserve_mem reserve_all_cpus reserve_cpus
    pop_cpus create_machines fill_numa create_machine add_interfaces add_interface virtual_machine
    if_addr_of
sut_built = refl

new_sut-Shares_example :
    (numas : List Numa) × ((collect host_env spec.ssh_info
        (or_default spec.huge_mnt huge_mnt_default)
        (page_of spec)
        []).0
      ≡ ok numas)
    × (taken : List ℕ) × Masks taken built.vswitch.aux_params
    × Shares taken numas built.numas
new_sut-Shares_example = new_sut-Shares host_env false "SUT" spec [] built sut_built

abbrev entries : List NodeEntry
entries = record { name = "SUT"; is_sut = true; spec = spec } ∷ []

topology_built : (init_topology host_env false entries []).0 ≡ ok (built ∷ [])
unfolding init_topology load_topo
topology_built = ap (λ q. q.0) (bind_run (new_sut host_env false "SUT" spec) _ [] sut_built)

init_topology-heaps_example :
    (heaps (set_vif_vni_by_idx_on_vm (built ∷ [])) ≡ heaps (built ∷ []))
    × (heaps (set_vif_vni_by_idx_on_host (built ∷ [])) ≡ heaps (built ∷ []))
    × (heaps (reset_vif_vni_on_all_suts (built ∷ [])) ≡ heaps (built ∷ []))
init_topology-heaps_example =
    init_topology-heaps host_env false entries [] (built ∷ []) topology_built
