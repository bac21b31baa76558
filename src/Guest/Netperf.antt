-- ===== src/Guest/Netperf.antt =====
-- _process_netperf_result, the netperf server and client, execute_netperf_ipv4 and
-- execute_netperf_ipv6 (resources/libraries/python/guest.py).
use cne_ovs_sit.Base.{
  String, Bool, true, false, List, [], ◌∷◌, Option, none, some, fstr, append, readlines, is_zero,
  runtime_error, some, pure, raise, ◌>>=◌, ◌>>◌, if◌then◌else◌,
}
use cne_ovs_sit.Ssh.{Env}
use cne_ovs_sit.Machine.State.{VirtualMachine}
use cne_ovs_sit.Guest.Scan.{opt_then, spaces, digits, literal, search}
use cne_ovs_sit.Guest.Exec.{Session, execute, execute_, kill_process}
use cne_ovs_sit.Guest.Udp.{Ip, show_ip, family_option}

-- `\d+(?:\.\d+)?`
unfoldable pub real : String → Option (String × String)
unfolding literal
real s = opt_then (digits s) (λ p. elim (opt_then (literal "." p.1) digits) [
  | none ↦ some p
  | some (fraction, back) ↦ some (append p.0 (append "." fraction), back)
])

-- Four numbers and a real one, each with spaces behind it, then the real number of the result.
abbrev skip_number : String → Option String
skip_number s = opt_then (digits s) (λ p. spaces p.1)

abbrev result_in_line : String → Option String
result_in_line s = opt_then (skip_number s) (λ s. opt_then (skip_number s) (λ s.
    opt_then (skip_number s) (λ s. opt_then (skip_number s) (λ s.
      opt_then (real s) (λ p. opt_then (spaces p.1) (λ s. opt_then (real s) (λ q. some q.0)))))))

-- `0` where no line has the form.
unfoldable pub netperf_result_of : List String → String
unfolding search real
netperf_result_of [] = "0"
netperf_result_of (line ∷ lines) =
    let rest = netperf_result_of lines in
    elim (search result_in_line line) [ none ↦ rest | some r ↦ r ]

unfoldable pub process_netperf_result : String → String
unfolding netperf_result_of
process_netperf_result stdout = netperf_result_of (readlines stdout)

module _ (env : Env) where
  unfoldable pub start_netperf_server : VirtualMachine → Bool → Session (Unit {0})
  unfolding execute
  start_netperf_server vm ipv4 = execute_ env vm (fstr ("netserver " ∷ family_option ipv4 ∷ []))

  unfoldable pub stop_netperf_server : VirtualMachine → Session (Unit {0})
  stop_netperf_server vm = kill_process env vm "netserver"

  -- `none` is `(False, -1)`.
  unfoldable pub run_netperf_client : VirtualMachine → Ip → String → Session (Option String)
  unfolding execute show_ip process_netperf_result
  run_netperf_client vm server_ip testname =
      execute env vm (fstr ("netperf -H " ∷ show_ip env server_ip ∷ " -l 10 -t " ∷ testname ∷ []))
        30 true (some false)
      >>= λ answer.
          if is_zero answer.ret_code
          then pure (some (process_netperf_result (elim answer.stdout [ none ↦ "" | some s ↦ s ])))
          else pure none

  netperf_test : Bool → String → VirtualMachine → VirtualMachine → Ip → String → Session String
  unfolding start_netperf_server run_netperf_client stop_netperf_server
  netperf_test ipv4 label vm server_vm server_ip testname = do
    start_netperf_server server_vm ipv4
    found ← run_netperf_client vm server_ip testname
    stop_netperf_server server_vm
    elim found [
      | none ↦ raise (runtime_error "NetPerf Not Successful")
      | some r ↦ pure (fstr (label ∷ r ∷ " Tran/sec" ∷ []))
    ]

  unfoldable pub execute_netperf_ipv4 :
      VirtualMachine → VirtualMachine → Ip → String → Session String
  unfolding netperf_test
  execute_netperf_ipv4 = netperf_test true "TCP_RR ipv4 "

  unfoldable pub execute_netperf_ipv6 :
      VirtualMachine → VirtualMachine → Ip → String → Session String
  unfolding netperf_test
  execute_netperf_ipv6 = netperf_test false "TCP_RR ipv6 "
