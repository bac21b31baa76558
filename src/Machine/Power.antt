-- ===== src/Machine/Power.antt =====
-- qemu_start and qemu_guest_poweroff (resources/libraries/python/vm.py).
use cne_ovs_sit.Base.{
  ℕ, String, List, [], ◌∷◌, get_elem?, Option, none, some, append, fstr, show, attribute_error,
  raise, ◌>>◌,
}
use cne_ovs_sit.Ssh.{Env, Call}
use cne_ovs_sit.Vif.{VirtualInterface}
use cne_ovs_sit.Machine.State.{VirtualMachine, show_mem_size}
use cne_ovs_sit.Machine.Qmp.{Loads, qemu_set_affinity, qemu_clear_socks}
use cne_ovs_sit.Machine.Boot.{wait_until_vm_boot}
use cne_ovs_sit.Guest.Exec.{Session, execute_, execute_host}
use cne_ovs_sit.Guest.Configure.{configure}

-- The options of the interfaces, one after the other. Only those of class VhostUserInterface have any.
unfoldable pub vif_options : List VirtualInterface → List ℕ → Option String
vif_options heap [] = some ""
vif_options heap (r ∷ rs) =
    let rest = vif_options heap rs in
    elim (get_elem? heap r) [
      | none ↦ none
      | some vif ↦ elim vif.vhost [
        | none ↦ none
        | some v ↦ elim rest [ none ↦ none | some s ↦ some (append v.qemu_option s) ]
      ]
    ]

unfoldable pub start_command : VirtualMachine → String → String
unfolding show_mem_size
start_command vm vif_options =
    let size = show_mem_size vm.mem_size in
    let node = show vm.numa_id in
    fstr (
      "numactl --cpunodebind "
      ∷ node
      ∷ " --membind "
      ∷ node
      ∷ " "
      ∷ vm.qemu_bin
      ∷ " "
      ∷ vm.smp
      ∷ " -object memory-backend-file,id=mem,size="
      ∷ size
      ∷ "M,mem-path="
      ∷ vm.huge_mnt
      ∷ ",share=on -m "
      ∷ size
      ∷ " -numa node,memdev=mem -net user,hostfwd=tcp::"
      ∷ show vm.ssh_fwd_port
      ∷ "-:22 "
      ∷ vm.options
      ∷ " "
      ∷ vif_options
      ∷ " -hda "
      ∷ vm.disk_image
      ∷ " -qmp unix:"
      ∷ vm.qmp_sock
      ∷ ",server,nowait -chardev socket,host=127.0.0.1,port="
      ∷ show vm.serial_port
      ∷ ",id=gnc0,server,nowait -device isa-serial,chardev=gnc0 -chardev socket,path="
      ∷ vm.qga_sock
      ∷ ",server,nowait,id=qga0 -device isa-serial,chardev=qga0 -monitor none -display none -vnc :"
      ∷ show vm.vnc_port
      ∷ [])

module _ (env : Env) (took : List Call → ℕ) (loads : Loads) (heap : List VirtualInterface) where
  unfoldable pub qemu_start : VirtualMachine → Session (Unit {0})
  unfolding vif_options start_command wait_until_vm_boot qemu_set_affinity configure
  qemu_start vm = elim (vif_options heap vm.vifs) [
    | none ↦ raise attribute_error
    | some options ↦ do
      execute_host env vm (start_command vm options) 300
      wait_until_vm_boot env took vm 300
      qemu_set_affinity env loads vm
      configure env vm heap
  ]

  unfoldable pub qemu_guest_poweroff : VirtualMachine → Session (Unit {0})
  unfolding qemu_clear_socks
  qemu_guest_poweroff vm = do execute_ env vm "poweroff"; qemu_clear_socks env loads vm
