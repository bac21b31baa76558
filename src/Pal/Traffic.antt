-- ===== src/Pal/Traffic.antt =====
-- The operations of resources/libraries/python/pal.py on virtual machines: start, poweroff and MTU, and
-- the execution of ping, iperf and netperf over a verify topology.
use cne_ovs_sit.Base.{
  ℕ, String, Bool, true, false, List, [], ◌∷◌, ◌++◌, get_elem?, some, attribute_error, index_error,
  Action, for_each, pure, or_raise, ◌>>=◌, ◌>>◌,
}
use cne_ovs_sit.Ssh.{Env, Call}
use cne_ovs_sit.Vif.{InterfaceAddress, VirtualInterface}
use cne_ovs_sit.World.{VirtualMachine, World, get_vms, read_sut, on_switch, for_suts}
use cne_ovs_sit.Switch.State.{Method}
use cne_ovs_sit.Machine.Qmp.{Loads}
use cne_ovs_sit.Machine.Power.{qemu_start, qemu_guest_poweroff}
use cne_ovs_sit.Guest.Exec.{Session}
use cne_ovs_sit.Guest.Configure.{configure_mtu}
use cne_ovs_sit.Guest.Ping.{ping_ipv4_addr, ping_ipv6_addr}
use cne_ovs_sit.Guest.Udp.{v4, v6, Proto, tcp, execute_iperf_ipv4, execute_iperf_ipv6}
use cne_ovs_sit.Guest.Netperf.{execute_netperf_ipv4, execute_netperf_ipv6}
use cne_ovs_sit.Pal.Topology.{EndPoint, VerifyTopologyEntry, VerifyTopology, get_deps}

-- Commands in a guest belong to those of its host; the ones to the other end of a test too.
unfoldable pub in_guest : {A : Type 0} → Session A → Method A
in_guest m s = let (r, calls) = m s.calls in (r, record s { calls = calls })

abbrev pub with_heap : {A : Type 0} → (List VirtualInterface → Session A) → Method A
with_heap f s = in_guest (f s.vif_heap) s

-- `for sut in suts: for vm in sut.get_vms(): body(vm)`
unfoldable pub for_vms :
    (VirtualMachine → List VirtualInterface → Session (Unit {0})) → Action World (Unit {0})
unfolding in_guest
for_vms body =
    for_suts
      (λ i. read_sut i >>= λ sut. for_each (get_vms sut) (λ vm. on_switch i (with_heap (body vm))))

-- The machine and the address of an end point. End points stand for objects, so they are live.
unfoldable pub end_point : EndPoint → Action World (VirtualMachine × VirtualInterface)
end_point p = do
  sut ← read_sut p.host
  vm ← or_raise (get_elem? (get_vms sut) p.guest) index_error
  vif ← or_raise (get_elem? sut.vswitch.vif_heap p.vif) index_error
  pure (vm, vif)

abbrev pub if_addr_of_point : EndPoint → Action World (VirtualMachine × InterfaceAddress)
if_addr_of_point p =
    end_point p >>= λ q. or_raise (q.1).if_addr attribute_error >>= λ addr. pure (q.0, addr)

-- From the source to one destination, on the source's host.
unfoldable pub between :
    {A : Type 0}
    → EndPoint
    → EndPoint
    → (VirtualMachine → VirtualMachine → InterfaceAddress → Session A)
    → Action World A
unfolding end_point in_guest
between sep dep test = end_point sep >>= λ source. if_addr_of_point dep >>= λ target.
    on_switch sep.host (in_guest (test source.0 target.0 target.1))

unfoldable pub to_deps :
    VerifyTopologyEntry
    → (VirtualMachine → VirtualMachine → InterfaceAddress → Session (Unit {0}))
    → Action World (Unit {0})
unfolding between
to_deps vte test = for_each (get_deps vte) (λ dep. between vte.sep dep test)

-- The results of the tests, in their order.
unfoldable pub collect_deps :
    EndPoint
    → List EndPoint
    → (VirtualMachine → VirtualMachine → InterfaceAddress → Session (List String))
    → Action World (List String)
unfolding between
collect_deps sep [] test = pure []
collect_deps sep (dep ∷ deps) test =
    between sep dep test >>= λ here. collect_deps sep deps test >>= λ rest. pure (here ++ rest)

unfoldable pub collect_all :
    List VerifyTopologyEntry
    → (VirtualMachine → VirtualMachine → InterfaceAddress → Session (List String))
    → Action World (List String)
unfolding collect_deps
collect_all [] test = pure []
collect_all (vte ∷ vtes) test = collect_deps vte.sep (get_deps vte) test >>= λ here.
    collect_all vtes test >>= λ rest. pure (here ++ rest)

module _ (env : Env) where
  unfoldable pub start_vms_on_all_suts : (List Call → ℕ) → Loads → Action World (Unit {0})
  unfolding for_vms
  start_vms_on_all_suts took loads = for_vms (λ vm heap. qemu_start env took loads heap vm)

  unfoldable pub stop_vms_on_all_suts : (List Call → ℕ) → Loads → Action World (Unit {0})
  unfolding for_vms
  stop_vms_on_all_suts took loads = for_vms (λ vm heap. qemu_guest_poweroff env took loads heap vm)

  unfoldable pub set_vm_mtu_on_all_suts : ℕ → Action World (Unit {0})
  unfolding for_vms
  set_vm_mtu_on_all_suts mtu = for_vms (λ vm heap. configure_mtu env vm heap mtu)

  abbrev ping_both : Bool → VirtualMachine → VirtualMachine → InterfaceAddress → Session (Unit {0})
  ping_both exp_fail svm dvm addr = do
    ping_ipv4_addr env svm addr.ipv4 5 (some exp_fail)
    ping_ipv6_addr env svm addr.ipv6 5 (some exp_fail)

  unfoldable pub execute_ping_verification : VerifyTopology → Action World (Unit {0})
  unfolding to_deps
  execute_ping_verification vt = do
    for_each vt.allow (λ vte. to_deps vte (ping_both false))
    for_each vt.deny (λ vte. to_deps vte (ping_both true))

  abbrev iperf_both :
      Proto → ℕ → Bool → VirtualMachine → VirtualMachine → InterfaceAddress → Session (List String)
  iperf_both proto parallel exp_fail svm dvm addr = do
    first ← execute_iperf_ipv4 env svm dvm (v4 addr.ipv4) 0 proto parallel (some exp_fail)
    second ← execute_iperf_ipv6 env svm dvm (v6 addr.ipv6) 0 proto parallel (some exp_fail)
    pure (first ∷ second ∷ [])

  -- What a denied test returns is dropped.
  unfoldable pub execute_iperf_verification :
      VerifyTopology → Proto → ℕ → Action World (List String)
  unfolding collect_all
  execute_iperf_verification vt proto parallel = do
    results ← collect_all vt.allow (iperf_both proto parallel false)
    collect_all vt.deny (iperf_both proto 1 true)
    pure results

  abbrev perform_all : VirtualMachine → VirtualMachine → InterfaceAddress → Session (List String)
  perform_all svm dvm addr = do
    rates ← iperf_both tcp 1 false svm dvm addr
    third ← execute_netperf_ipv4 env svm dvm (v4 addr.ipv4) "TCP_RR"
    fourth ← execute_netperf_ipv6 env svm dvm (v6 addr.ipv6) "TCP_RR"
    pure (rates ++ third ∷ fourth ∷ [])

  unfoldable pub execute_performance_test : VerifyTopology → Action World (List String)
  unfolding collect_all
  execute_performance_test vt = collect_all vt.allow perform_all
