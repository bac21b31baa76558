-- ===== src/Machine/State.antt =====
-- The state of a VirtualMachine (resources/libraries/python/vm.py) with that of its class Guest, the
-- methods that set it, and the options that qemu gets for an interface.
use cne_ovs_sit.Base.{
  ℕ, ◌+◌, ◌*◌, ◌/◌, String, Bool, true, false, List, [], ◌∷◌, ◌++◌, length, modify_at, Option, none,
  some, fstr, append, show, show_option, path_join, ltb, if◌then◌else◌,
}
use cne_ovs_sit.Ssh.{Node}
use cne_ovs_sit.Vif.{Vhost, VirtualInterface}

-- The size of the memory in MB: a float, from a division of KB, or what `qemu_set_mem_size` sets.
pub data MemSize : Type 0 where
  divided whole : ℕ → MemSize

-- Whole MBs only are divided, so the float ends in ".0".
unfoldable pub show_mem_size : MemSize → String
show_mem_size (divided n) = fstr (show n ∷ ".0" ∷ [])
show_mem_size (whole n) = show n

-- Interfaces are references into the heap of the host's switch. `qemu_opt` is the dict's fields.
pub record VirtualMachine : Type 0 where
  pub name : String
  pub numa_id : ℕ
  pub vifs : List ℕ
  pub host_cpus : List ℕ
  pub qmp_sock : String
  pub qga_sock : String
  pub smp : String
  pub options : String
  pub ssh_fwd_port : ℕ
  pub serial_port : ℕ
  pub vnc_port : ℕ
  pub mem_size : MemSize
  pub huge_mnt : String
  pub huge_allocate : Bool
  pub disk_image : String
  pub host_ssh_info : Node
  pub ssh_info : Node
  pub is_ovs_native : Bool
  pub qemu_bin : String
  pub img_base : String

-- The constructor without the copy of the disk image.
unfoldable pub new_machine :
    String → ℕ → ℕ → List ℕ → String → Node → String → Bool → VirtualMachine
new_machine name vm_idx vm_mem_size vm_host_cpus huge_mnt host_ssh_info test_root_dir ovs_native =
    let n = show (length vm_host_cpus) in
    record {
      name = name;
      numa_id = 0;
      vifs = [];
      host_cpus = vm_host_cpus;
      qmp_sock = fstr ("/tmp/qmp.sock" ∷ show vm_idx ∷ []);
      qga_sock = fstr ("/tmp/qga.sock" ∷ show vm_idx ∷ []);
      smp = fstr ("-smp " ∷ n ∷ ",sockets=" ∷ n ∷ ",cores=1,threads=1" ∷ []);
      options =
          "-cpu host -daemonize -enable-kvm -machine pc-i440fx-2.8,accel=kvm,usb=off,mem-merge=off -net nic,model=virtio ";
      ssh_fwd_port = 10022 + vm_idx;
      serial_port = 4556 + vm_idx;
      vnc_port = vm_idx;
      mem_size = divided (vm_mem_size / 1024);
      huge_mnt = huge_mnt;
      huge_allocate = true;
      disk_image = fstr ("/tmp/vm.img." ∷ show vm_idx ∷ []);
      host_ssh_info = host_ssh_info;
      ssh_info = record {
        host = host_ssh_info.host;
        port = 10022 + vm_idx;
        username = "cne";
        password = "cne";
      };
      is_ovs_native = ovs_native;
      qemu_bin = path_join test_root_dir "bin/qemu/qemu-system-x86_64";
      img_base = path_join test_root_dir "cne-ovs-sit-vm-1.0.img";
    }

unfoldable pub qemu_set_ssh_fwd_port : ℕ → VirtualMachine → VirtualMachine
qemu_set_ssh_fwd_port fwd_port vm =
    let ssh_info = vm.ssh_info in
    record vm { ssh_fwd_port = fwd_port; ssh_info = record ssh_info { port = fwd_port } }

unfoldable pub qemu_set_serial_port : ℕ → VirtualMachine → VirtualMachine
qemu_set_serial_port port vm = record vm { serial_port = port }

unfoldable pub qemu_set_mem_size : ℕ → VirtualMachine → VirtualMachine
qemu_set_mem_size mem_size vm = record vm { mem_size = whole mem_size }

unfoldable pub qemu_set_huge_mnt : String → VirtualMachine → VirtualMachine
qemu_set_huge_mnt huge_mnt vm = record vm { huge_mnt = huge_mnt }

unfoldable pub qemu_set_huge_allocate : VirtualMachine → VirtualMachine
qemu_set_huge_allocate vm = record vm { huge_allocate = true }

unfoldable pub qemu_set_disk_image : String → VirtualMachine → VirtualMachine
qemu_set_disk_image disk_image vm = record vm { disk_image = disk_image }

-- Guest.add_vif
unfoldable pub add_vif : ℕ → VirtualMachine → VirtualMachine
add_vif vif vm = record vm { vifs = vm.vifs ++ vif ∷ [] }

abbrev show_idx : Option ℕ → String
show_idx none = "None"
show_idx (some n) = show n

abbrev netdev_mq : Vhost → String
netdev_mq v = if ltb 1 v.qpair then fstr (",queues=" ∷ show v.qpair ∷ []) else ""

abbrev device_mq : Vhost → String
device_mq v = if ltb 1 v.qpair then fstr (",mq=on,vectors=" ∷ show (v.qpair * 2 + 2) ∷ []) else ""

unfoldable pub device_option : VirtualInterface → Vhost → String
device_option vif v = fstr (
    " -device virtio-net-pci,netdev=vhost"
    ∷ show_idx vif.idx
    ∷ ",mac="
    ∷ show_option vif.mac
    ∷ (if vif.offload then "" else ",csum=off,gso=off,guest_tso4=off,guest_tso6=off,guest_ecn=off")
    ∷ device_mq v
    ∷ [])

-- The backend: a socket device and a vhost-user network behind the options that are there already,
-- or a tap in place of them.
unfoldable pub backend_option : Bool → VirtualInterface → Vhost → String
backend_option false vif v = fstr (
    v.qemu_option
    ∷ " -chardev socket,id=vhuchar"
    ∷ show_idx vif.idx
    ∷ ",path="
    ∷ show_option v.sock
    ∷ (if v.backend_client_mode then ",server" else "")
    ∷ " -netdev vhost-user,id=vhost"
    ∷ show_idx vif.idx
    ∷ ",chardev=vhuchar"
    ∷ show_idx vif.idx
    ∷ netdev_mq v
    ∷ [])
backend_option true vif v = fstr (
    " -netdev tap,id=vhost"
    ∷ show_idx vif.idx
    ∷ ",vhost=on,ifname="
    ∷ vif.name
    ∷ ",script="
    ∷ show_option v.qemu_script_ifup
    ∷ ",downscript="
    ∷ show_option v.qemu_script_ifdown
    ∷ [])

unfoldable pub generate_option : Bool → VirtualInterface → Vhost → Vhost
unfolding backend_option device_option
generate_option ovs_native vif v = record v {
  qemu_option = append (backend_option ovs_native vif v) (device_option vif v);
}

-- Only interfaces of class VhostUserInterface get here.
unfoldable pub generate_vhost_user_if_option : Bool → VirtualInterface → VirtualInterface
unfolding generate_option
generate_vhost_user_if_option ovs_native vif = elim vif.vhost [
  | none ↦ vif
  | some v ↦ record vif { vhost = some (generate_option ovs_native vif v) }
]

abbrev reset_option : ℕ → Vhost → Vhost
reset_option qpair v = record v { qemu_option = ""; qpair = qpair }

unfoldable pub reconfigured : Bool → ℕ → VirtualInterface → VirtualInterface
reconfigured offload qpair vif = record vif {
  offload = offload;
  vhost = elim vif.vhost [ none ↦ none | some v ↦ some (reset_option qpair v) ];
}

-- The interface keeps its place on the machine.
unfoldable pub reconfigure_vhost_user_if :
    Bool → ℕ → Bool → ℕ → List VirtualInterface → List VirtualInterface
unfolding generate_vhost_user_if_option reconfigured
reconfigure_vhost_user_if ovs_native r offload qpair heap =
    modify_at heap r
      (λ vif. generate_vhost_user_if_option ovs_native (reconfigured offload qpair vif))

-- The machine with the interface, and the heap with its options.
unfoldable pub add_vhost_user_if :
    ℕ → VirtualMachine → List VirtualInterface → VirtualMachine × List VirtualInterface
unfolding generate_vhost_user_if_option add_vif
add_vhost_user_if r vm heap =
    (add_vif r vm, modify_at heap r (generate_vhost_user_if_option vm.is_ovs_native))
