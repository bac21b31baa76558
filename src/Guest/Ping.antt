-- ===== src/Guest/Ping.antt =====
-- _verify_ping_result, Guest._exec_ping, ping_ipv4_addr and ping_ipv6_addr
-- (resources/libraries/python/guest.py).
use cne_ovs_sit.Base.{
  ℕ, String, Bool, true, false, not, List, [], ◌∷◌, Option, none, some, fstr, show, ltb, ◌==◌,
  attribute_error, type_error, Result, ok, err, for_each, pure, lift, ◌>>=◌, ◌>>◌, if◌then◌else◌,
}
use cne_ovs_sit.Ssh.{Env}
use cne_ovs_sit.Machine.State.{VirtualMachine}
use cne_ovs_sit.Guest.Scan.{opt_then, blanks, digits, literal, search, number_of}
use cne_ovs_sit.Guest.Exec.{Session, execute}

-- `\s+(\d+)\s+label`, group 1
abbrev pub count_before : String → String → Option String
count_before label s = opt_then (blanks s) (λ s.
    opt_then (digits s)
      (λ p. opt_then (blanks p.1) (λ s. opt_then (literal label s) (λ s. some p.0))))

-- A log without a summary is refused; one that tells no received packets is an AttributeError.
unfoldable pub verify_ping_result : String → ℕ → Result Bool
unfolding search number_of literal
verify_ping_result log exp_cnt = elim (search (count_before "packets transmitted") log) [
  | none ↦ ok false
  | some sent ↦ elim (search (count_before "received") log) [
    | none ↦ err attribute_error
    | some recv ↦
        ok (if number_of sent == exp_cnt then not (ltb (number_of recv) exp_cnt) else false)
  ]
]

-- `not exp_fail`
abbrev pub not_expected : Option Bool → Bool
not_expected (some true) = false
not_expected _ = true

module _ (env : Env) (vm : VirtualMachine) where
  -- What the check finds is not looked at. `re.search` of None is a TypeError.
  unfoldable pub exec_ping : ℕ → Option Bool → String → Session (Unit {0})
  unfolding execute verify_ping_result
  exec_ping cnt exp_fail cmd = execute env vm cmd 30 true exp_fail >>= λ answer.
      if not_expected exp_fail
      then elim answer.stdout [
        | none ↦ lift (err type_error)
        | some log ↦ lift (verify_ping_result log cnt) >> pure tt
      ]
      else pure tt

  abbrev ping_commands : String → ℕ → String → List String
  ping_commands program cnt ip =
      fstr (program ∷ " -c " ∷ show cnt ∷ " -i 0.3 " ∷ ip ∷ [])
      ∷ fstr (program ∷ " -c " ∷ show cnt ∷ " -i 0.3 -s 1600 " ∷ ip ∷ [])
      ∷ fstr (program ∷ " -c " ∷ show cnt ∷ " -i 0.3 -s 3200 " ∷ ip ∷ [])
      ∷ []

  unfoldable pub ping_ipv4_addr : ℕ → ℕ → Option Bool → Session (Unit {0})
  unfolding exec_ping
  ping_ipv4_addr ipv4 cnt exp_fail =
      for_each (ping_commands "ping" cnt (env.show_ipv4 ipv4)) (exec_ping cnt exp_fail)

  unfoldable pub ping_ipv6_addr : ℕ → ℕ → Option Bool → Session (Unit {0})
  unfolding exec_ping
  ping_ipv6_addr ipv6 cnt exp_fail =
      for_each (ping_commands "ping -6" cnt (env.show_ipv6 ipv6)) (exec_ping cnt exp_fail)
