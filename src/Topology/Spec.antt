-- ===== src/Topology/Spec.antt =====
-- A node of the topology file: `node_spec` of SUT.__init__, and the constants of class SUT
-- (resources/libraries/python/topology.py). An entry that the file may leave out is an option, and
-- `or_default` is `node_spec.get(key, default)`. The numbers of the file are natural.
use cne_ovs_sit.Base.{ℕ, String, Bool, List, Option, none, some, ◌*◌}
use cne_ovs_sit.Ssh.{Node}
use cne_ovs_sit.Switch.Startup.{UplinkSpec}

pub record NodeSpec : Type 0 where
  pub ssh_info : Node
  pub id : ℕ
  pub interfaces : List UplinkSpec
  pub dp_type : Option String
  pub driver : Option String
  pub huge_mnt : Option String
  pub hugepage_size : Option ℕ
  pub userspace_tso : Option Bool
  pub test_root_dir : Option String
  pub pnic_numa_cpu_num : Option ℕ
  pub norm_numa_cpu_num : Option ℕ
  pub vm_mem_size : Option ℕ
  pub vm_cpu_num : Option ℕ
  pub vhost_client_mode : Option Bool

abbrev pub or_default : {A : Type 0} → Option A → A → A
or_default none d = d
or_default (some a) d = a

abbrev pub huge_mnt_default : String
huge_mnt_default = "/dev/hugepages"

-- In MB
abbrev pub hugepage_size_default : ℕ
hugepage_size_default = 1024

-- In KB
abbrev pub ovsdpdk_mem_per_socket : ℕ
ovsdpdk_mem_per_socket = 1024 * 512

abbrev pub ovsdpdk_pnic_numa_cpu_num : ℕ
ovsdpdk_pnic_numa_cpu_num = 1

abbrev pub ovsdpdk_norm_numa_cpu_num : ℕ
ovsdpdk_norm_numa_cpu_num = 1

abbrev pub max_vm_per_numa : ℕ
max_vm_per_numa = 2

-- The constants of class VirtualMachine; the memory is in MB.
abbrev pub vm_mem_size_default : ℕ
vm_mem_size_default = 1024

abbrev pub vm_cpu_num_default : ℕ
vm_cpu_num_default = 1

abbrev pub vm_vifs_num : ℕ
vm_vifs_num = 2
