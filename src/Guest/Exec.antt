-- ===== src/Guest/Exec.antt =====
-- Guest.execute, execute_batch, execute_host, execute_host_batch and kill_process
-- (resources/libraries/python/guest.py).
use cne_ovs_sit.Base.{
  ℕ, String, Bool, true, false, List, [], ◌∷◌, Option, none, some, fstr, is_zero, ℤ, negsuc,
  runtime_error, ssh_timeout, Result, ok, err, Action, for_each, pure, raise, ◌>>=◌, ◌>>◌,
  if◌then◌else◌,
}
use cne_ovs_sit.Ssh.{Env, Node, Call, Reply, exec_cmd}
use cne_ovs_sit.Ssh as Remote
use cne_ovs_sit.Machine.State.{VirtualMachine}
use cne_ovs_sit.Switch.Exec.{succeeded}

abbrev pub Session : Type 0 → Type 0
Session A = Action (List Call) A

-- `stdout` and `stderr` are None where the connection was lost.
pub record Answer : Type 0 where
  pub ret_code : ℤ
  pub stdout : Option String
  pub stderr : Option String

abbrev pub minus_one : ℤ
minus_one = negsuc 0

-- The return code is normalised to 0 or -1.
abbrev pub answer_of : Option Reply → Answer
answer_of none = record { ret_code = minus_one; stdout = none; stderr = none }
answer_of (some reply) = record {
  ret_code = if is_zero reply.ret_code then reply.ret_code else minus_one;
  stdout = some reply.stdout;
  stderr = some reply.stderr;
}

-- A timeout is a failure like others.
abbrev pub normalise : Result (Option Reply) → Result Answer
normalise (ok reply) = ok (answer_of reply)
normalise (err ssh_timeout) =
    ok (record { ret_code = minus_one; stdout = some ""; stderr = some "" })
normalise (err e) = err e

-- A command that is expected to fail gets 30 seconds.
abbrev pub timeout_for : Option Bool → ℕ → ℕ
timeout_for (some true) timeout = 30
timeout_for exp_fail timeout = timeout

module _ (env : Env) (vm : VirtualMachine) where
  -- Success or failure against the expectation is only logged.
  unfoldable pub execute : String → ℕ → Bool → Option Bool → Session Answer
  execute cmd timeout sudo exp_fail calls =
      let (r, calls) = exec_cmd env vm.ssh_info cmd (timeout_for exp_fail timeout) sudo calls in
      (normalise r, calls)

  -- The defaults: 30 seconds, sudo, and success is expected.
  abbrev pub execute_ : String → Session (Unit {0})
  execute_ cmd = execute cmd 30 true (some false) >> pure tt

  unfoldable pub execute_batch : List String → Session (Unit {0})
  unfolding execute
  execute_batch cmds = for_each cmds execute_

  unfoldable pub execute_host : String → ℕ → Session (Option Reply)
  execute_host cmd timeout = exec_cmd env vm.host_ssh_info cmd timeout true >>= λ reply.
      if succeeded reply
      then pure reply
      else raise (
          runtime_error
            (fstr ("Execute host cmd failed on " ∷ vm.host_ssh_info.host ∷ " : " ∷ cmd ∷ [])))

  unfoldable pub execute_host_batch : List String → ℕ → Session (Unit {0})
  unfolding execute_host
  execute_host_batch cmds timeout = for_each cmds (λ cmd. execute_host cmd timeout >> pure tt)

  unfoldable pub kill_process : String → Session (Unit {0})
  kill_process proc_name = Remote.kill_process env vm.ssh_info proc_name
