-- ===== src/Guest/Udp.antt =====
-- _verify_iperf_udp_result, the iperf servers and clients, execute_iperf_ipv4 and execute_iperf_ipv6
-- (resources/libraries/python/guest.py).
use cne_ovs_sit.Base.{
  ℕ, ◌-◌, ◌*◌, ◌/◌, String, Bool, true, false, List, [], ◌∷◌, Option, none, some, fstr, append,
  show, contains, readlines, ltb, ◌==◌, Result, ok, pure, lift, ◌>>=◌, ◌>>◌, if◌then◌else◌,
}
use cne_ovs_sit.Ssh.{Env}
use cne_ovs_sit.Machine.State.{VirtualMachine}
use cne_ovs_sit.Guest.Scan.{opt_then, blanks, digits, literal, search, number_of}
use cne_ovs_sit.Guest.Exec.{Session, execute, execute_, kill_process}
use cne_ovs_sit.Guest.Ping.{not_expected}
use cne_ovs_sit.Guest.Iperf.{Rate, rate, no_rate, show_rate, verify_iperf_result}

-- `\s+(\d+)\/(\d+)\s+`, both groups
abbrev lost_and_total : String → Option (String × String)
lost_and_total s = opt_then (blanks s) (λ s. opt_then (digits s) (λ p.
    opt_then (literal "/" p.1)
      (λ s. opt_then (digits s) (λ q. opt_then (blanks q.1) (λ s. some (p.0, q.0))))))

-- The line behind the one with 'Jitter': `none` where it has no counters; (0, 0) where no line has
-- 'Jitter', or nothing is behind it.
unfoldable pub counters : List String → Option (ℕ × ℕ)
unfolding search literal number_of contains
counters [] = some (0, 0)
counters (line ∷ []) = some (0, 0)
counters (line ∷ next ∷ lines) =
    let rest = counters (next ∷ lines) in
    if contains "Jitter" line
    then elim (search lost_and_total next) [
      | none ↦ none
      | some (lost, total) ↦ some (number_of lost, number_of total)
    ]
    else rest

-- Datagrams of 63 KB in ten seconds, in kbps; a number below zero is cut towards zero.
unfoldable pub udp_rate : ℕ → ℕ → String
udp_rate lost total =
    if ltb total lost
    then (let kbps = (lost - total) * 63 * 1024 * 8 / 10000 in
        if kbps == 0 then "0" else fstr ("-" ∷ show kbps ∷ []))
    else show ((total - lost) * 63 * 1024 * 8 / 10000)

-- A rate that is far from the expected one is only logged.
unfoldable pub verify_iperf_udp_result : String → Rate
unfolding counters udp_rate
verify_iperf_udp_result log = elim (counters (readlines log)) [
  | none ↦ no_rate
  | some (lost, total) ↦
      if lost == total then no_rate else rate (fstr (udp_rate lost total ∷ " Kbits/sec" ∷ []))
]

-- An address of either family.
pub data Ip : Type 0 where
  v4 v6 : ℕ → Ip

unfoldable pub show_ip : Env → Ip → String
show_ip env (v4 ip) = env.show_ipv4 ip
show_ip env (v6 ip) = env.show_ipv6 ip

unfoldable pub ip_is_v4 : Ip → Bool
ip_is_v4 (v4 ip) = true
ip_is_v4 (v6 ip) = false

abbrev pub family_option : Bool → String
family_option ipv4 = if ipv4 then "" else "-6"

pub data Proto : Type 0 where
  tcp udp : Proto

abbrev proto_name : Proto → String
proto_name tcp = "tcp"
proto_name udp = "udp"

abbrev udp_options : Proto → String
udp_options tcp = ""
udp_options udp = "-u -l 63k"

-- `bw == 0` means unlimited.
unfoldable pub iperf_command : Env → Ip → ℕ → Proto → ℕ → String
unfolding ip_is_v4 show_ip
iperf_command env server_ip bw proto parallel =
    let options =
      append (family_option (ip_is_v4 server_ip))
        (if bw == 0 then "" else fstr (" -b " ∷ show bw ∷ "K " ∷ [])) in
    let parallel_options = if ltb 1 parallel then fstr ("-P " ∷ show parallel ∷ []) else "" in
    fstr (
      "iperf3 "
      ∷ options
      ∷ " -c "
      ∷ show_ip env server_ip
      ∷ " -t 10 -f k "
      ∷ udp_options proto
      ∷ " "
      ∷ parallel_options
      ∷ [])

abbrev judge : Proto → String → Result Rate
judge tcp log = verify_iperf_result log 0
judge udp log = ok (verify_iperf_udp_result log)

module _ (env : Env) where
  unfoldable pub start_iperf_server : VirtualMachine → Bool → Session (Unit {0})
  unfolding execute
  start_iperf_server vm ipv4 =
      execute_ env vm (fstr ("iperf3 " ∷ family_option ipv4 ∷ " -s -D" ∷ []))

  unfoldable pub stop_iperf_server : VirtualMachine → Session (Unit {0})
  stop_iperf_server vm = kill_process env vm "iperf3"

  -- `StringIO(None)` is empty, so a lost connection reads as no output.
  unfoldable pub run_iperf_client : VirtualMachine → Ip → ℕ → Proto → ℕ → Option Bool → Session Rate
  unfolding execute iperf_command verify_iperf_result verify_iperf_udp_result
  run_iperf_client vm server_ip bw proto parallel exp_fail =
      execute env vm (iperf_command env server_ip bw proto parallel) 50 true exp_fail >>= λ answer.
      if not_expected exp_fail
      then lift (judge proto (elim answer.stdout [ none ↦ "" | some log ↦ log ]))
      else pure no_rate

  iperf_test :
      Bool
      → String
      → VirtualMachine
      → VirtualMachine
      → Ip
      → ℕ
      → Proto
      → ℕ
      → Option Bool
      → Session String
  unfolding start_iperf_server run_iperf_client stop_iperf_server show_rate
  iperf_test ipv4 label vm server_vm server_ip bw proto parallel exp_fail = do
    start_iperf_server server_vm ipv4
    found ← run_iperf_client vm server_ip bw proto parallel exp_fail
    stop_iperf_server server_vm
    pure (fstr (proto_name proto ∷ label ∷ show_rate found ∷ []))

  unfoldable pub execute_iperf_ipv4 :
      VirtualMachine → VirtualMachine → Ip → ℕ → Proto → ℕ → Option Bool → Session String
  unfolding iperf_test
  execute_iperf_ipv4 = iperf_test true " ipv4 throughput: "

  unfoldable pub execute_iperf_ipv6 :
      VirtualMachine → VirtualMachine → Ip → ℕ → Proto → ℕ → Option Bool → Session String
  unfolding iperf_test
  execute_iperf_ipv6 = iperf_test false " ipv6 throughput: "
