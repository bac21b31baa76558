-- ===== src/Guest/Configure.antt =====
-- Guest.configure_interface, configure and configure_mtu (resources/libraries/python/guest.py).
-- `heap` holds the interfaces of the host.
use cne_ovs_sit.Base.{
  ℕ, ◌-◌, String, List, [], ◌∷◌, get_elem?, range, none, some, fstr, show, ltb, attribute_error,
  index_error, for_each, pure, or_raise, ◌>>=◌, ◌>>◌, if◌then◌else◌,
}
use cne_ovs_sit.Ssh.{Env}
use cne_ovs_sit.Vif.{InterfaceAddress, VirtualInterface, ipv4_str_with_prefix, ipv6_str_with_prefix}
use cne_ovs_sit.Machine.State.{VirtualMachine}
use cne_ovs_sit.Guest.Exec.{Session, execute_, execute_batch}

-- The name of the interface in the guest
unfoldable pub device : VirtualInterface → String
device vif = fstr ("virtio" ∷ elim vif.idx [ none ↦ "None" | some i ↦ show i ] ∷ [])

-- `range(2, qpair + 1)`
abbrev queue_steps : ℕ → List ℕ
queue_steps qpair = range 2 (qpair - 1)

module _ (env : Env) (vm : VirtualMachine) where
  -- One more queue pair at a time: the first step is 2.
  abbrev grow_queues : VirtualInterface → ℕ → Session (Unit {0})
  grow_queues vif qpair =
      if ltb 1 qpair
      then for_each (queue_steps qpair)
          (λ q. execute_ env vm (fstr ("ethtool -L " ∷ device vif ∷ " combined " ∷ show q ∷ [])))
      else pure tt

  abbrev interface_commands : VirtualInterface → InterfaceAddress → List String
  interface_commands vif addr =
      fstr ("ip -4 addr add " ∷ ipv4_str_with_prefix env addr ∷ " dev " ∷ device vif ∷ [])
      ∷ fstr ("ip -6 addr add " ∷ ipv6_str_with_prefix env addr ∷ " dev " ∷ device vif ∷ [])
      ∷ fstr ("ip link set " ∷ device vif ∷ " up" ∷ [])
      ∷ []

  unfoldable pub configure_vif : VirtualInterface → Session (Unit {0})
  unfolding device execute_batch
  configure_vif vif = do
    addr ← or_raise vif.if_addr attribute_error
    execute_batch env vm (interface_commands vif addr)
    v ← or_raise vif.vhost attribute_error
    grow_queues vif v.qpair

  -- A reference of the machine is always live.
  abbrev pub on_vifs :
      List VirtualInterface → (VirtualInterface → Session (Unit {0})) → Session (Unit {0})
  on_vifs heap f = for_each vm.vifs (λ r. or_raise (get_elem? heap r) index_error >>= f)

  unfoldable pub configure_interface : List VirtualInterface → Session (Unit {0})
  unfolding configure_vif
  configure_interface heap = do execute_ env vm "ip addr list"; on_vifs heap configure_vif

  unfoldable pub configure : List VirtualInterface → Session (Unit {0})
  unfolding configure_interface
  configure heap = configure_interface heap

  unfoldable pub configure_mtu : List VirtualInterface → ℕ → Session (Unit {0})
  unfolding device
  configure_mtu heap mtu =
      on_vifs heap
        (λ vif. execute_ env vm (fstr ("ip link set " ∷ device vif ∷ " mtu " ∷ show mtu ∷ [])))
