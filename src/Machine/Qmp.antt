-- ===== src/Machine/Qmp.antt =====
-- The control of a running qemu: _qemu_qmp_exec, qemu_set_affinity, qemu_quit, qemu_system_powerdown,
-- qemu_system_reset and qemu_clear_socks (resources/libraries/python/vm.py).
--
-- The parser of Python's json module is a parameter, `loads`: of a document it tells the threads that
-- its 'return' lists and the text of its 'error'.
use Prim.Native.Nat.{◌^◌}
use cne_ovs_sit.Base.{
  ℕ, String, List, [], ◌∷◌, length, get_elem?, Option, none, some, fstr, show, hex, split_lines,
  ◌==◌, Result, runtime_error, value_error, attribute_error, pure, raise, lift, or_raise, ◌>>=◌,
  ◌>>◌, if◌then◌else◌,
}
use cne_ovs_sit.Ssh.{Env}
use cne_ovs_sit.Machine.State.{VirtualMachine}
use cne_ovs_sit.Guest.Exec.{Session, execute_host}

pub record Json : Type 0 where
  pub threads : Option (List String)
  pub error : Option String

abbrev pub Loads : Type 0
Loads = String → Result Json

-- `str.splitlines`, for lines that end in "\n": no line stands behind the last end.
unfoldable pub split_output : String → List String
unfolding split_lines
split_output s = trim (split_lines s)
  where
    trim : List String → List String
    trim [] = []
    trim (String.[] ∷ []) = []
    trim (line ∷ []) = line ∷ []
    trim (line ∷ next ∷ lines) = line ∷ trim (next ∷ lines)

module _ (env : Env) (loads : Loads) (vm : VirtualMachine) where
  -- Two lines are the negotiation, and the third one is the answer. `execute_host` has checked the
  -- return code.
  unfoldable pub qmp_exec : String → Session Json
  unfolding execute_host split_output
  qmp_exec cmd =
      execute_host env vm
        (fstr (
          "echo \"{ \\\"execute\\\": \\\"qmp_capabilities\\\" }{ \\\"execute\\\": \\\"" ∷ cmd
          ∷ "\\\" }\" | sudo -S socat - UNIX-CONNECT:" ∷ vm.qmp_sock ∷ []))
        30
      >>= λ answer. or_raise answer attribute_error >>= λ reply.
          elim (get_elem? (split_output reply.stdout) 2) [
            | none ↦
                raise (runtime_error (fstr ("Invalid QMP output on " ∷ vm.host_ssh_info.host ∷ [])))
            | some line ↦ lift (loads line)
          ]

  -- One thread on one processor
  abbrev pin : List String → List ℕ → Session (Unit {0})
  pin [] cpus = pure tt
  pin (thread ∷ threads) [] = pure tt
  pin (thread ∷ threads) (cpu ∷ cpus) = do
    execute_host env vm (fstr ("taskset -p " ∷ hex (2 ^ cpu) ∷ " " ∷ thread ∷ [])) 30
    pin threads cpus

  unfoldable pub qemu_set_affinity : Session (Unit {0})
  unfolding qmp_exec
  qemu_set_affinity = qmp_exec "query-cpus" >>= λ out.
      or_raise out.threads value_error >>= λ threads.
      if length threads == length vm.host_cpus then pin threads vm.host_cpus else raise value_error

  abbrev refuse_error : String → Json → Session (Unit {0})
  refuse_error what out = elim out.error [
    | none ↦ pure tt
    | some e ↦ raise (
        runtime_error
          (fstr ("QEMU " ∷ what ∷ " failed on " ∷ vm.host_ssh_info.host ∷ ", error: " ∷ e ∷ [])))
  ]

  unfoldable pub qemu_quit : Session (Unit {0})
  unfolding qmp_exec
  qemu_quit = qmp_exec "quit" >>= refuse_error "quit"

  unfoldable pub qemu_system_powerdown : Session (Unit {0})
  unfolding qmp_exec
  qemu_system_powerdown = qmp_exec "system_powerdown" >>= refuse_error "system powerdown"

  unfoldable pub qemu_system_reset : Session (Unit {0})
  unfolding qmp_exec
  qemu_system_reset = qmp_exec "system_reset" >>= refuse_error "system reset"

  unfoldable pub qemu_clear_socks : Session (Unit {0})
  unfolding execute_host
  qemu_clear_socks = do
    execute_host env vm (fstr ("fuser -k " ∷ show vm.serial_port ∷ "/tcp" ∷ [])) 30
    execute_host env vm (fstr ("rm -f " ∷ vm.qmp_sock ∷ [])) 30
    execute_host env vm (fstr ("rm -f " ∷ vm.qga_sock ∷ [])) 30
    pure tt
