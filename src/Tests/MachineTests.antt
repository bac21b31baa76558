-- ===== src/Tests/MachineTests.antt =====
-- A machine that is up at once, and a table of connections with one that is not active any more.
use cne_ovs_sit.Base.{
  ◌+◌, ◌/◌, ℕ, true, false, [], ◌∷◌, none, some, ok, err, io_error, ◌≡◌, refl, arith, fstr,
}
use cne_ovs_sit.Ssh.{Node, exec_cmd}
use cne_ovs_sit.Ssh.Connections.{
  Connections, client_at, disconnect, connect_new, connect, Connected, connect-Connected,
  connect-fails,
}
use cne_ovs_sit.Guest.Exec.{execute}
use cne_ovs_sit.Machine.Boot.{
  probe, wait_from, wait_until_vm_boot, wait_until_vm_boot-enough, wait_until_vm_boot-up,
}
use cne_ovs_sit.Tests.Samples.{env, vm, node}

wait_until_vm_boot-enough_example :
    wait_from env (λ calls. 2) vm (300 / 5 + 2 + 7) 300 0 []
    ≡ wait_until_vm_boot env (λ calls. 2) vm 300 []
wait_until_vm_boot-enough_example = wait_until_vm_boot-enough env (λ calls. 2) vm 7 300 []

up_at_once : (probe env (λ calls. 2) vm []).0 ≡ ok true
unfolding probe execute exec_cmd fstr
up_at_once = refl

wait_until_vm_boot-up_example : (wait_until_vm_boot env (λ calls. 2) vm 300 []).0 ≡ ok tt
wait_until_vm_boot-up_example =
    wait_until_vm_boot-up env (λ calls. 2) vm 0 300 [] up_at_once (omega arith)

abbrev hash : Node → ℕ
hash _ = 7

abbrev stale : Connections
stale = record { existing_connections = (7, 3) ∷ []; closed = []; next = 4; ssh = none }

reconnected : (connect hash (λ s c. false) (λ s n. none) 5 node stale).0 ≡ ok tt
unfolding connect disconnect connect_new
reconnected = refl

connect-Connected_example :
    Connected hash
      (λ s c. false)
      (λ s n. none)
      node
      stale
      (connect hash (λ s c. false) (λ s n. none) 5 node stale).1
connect-Connected_example =
    connect-Connected hash (λ s c. false) (λ s n. none) 5 node stale reconnected

refused : (connect hash (λ s c. false) (λ s n. some io_error) 5 node stale).0 ≡ err io_error
unfolding connect disconnect connect_new
refused = refl

connect-fails_example :
    (t : Connections) × (client_at (hash node) t.existing_connections ≡ none)
    × (some io_error ≡ some io_error)
connect-fails_example =
    connect-fails hash (λ s c. false) (λ s n. some io_error) 4 node stale io_error refused
