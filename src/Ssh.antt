-- ===== src/Ssh.antt =====
-- exec_cmd and kill_process (resources/libraries/python/ssh.py).
--
-- The connection (class SSH, over paramiko) and the machines behind it are a parameter: `Env.answer`
-- says how the run of one command ends, given all that was run before. The texts of addresses are
-- those of Python's ipaddress module, a parameter too.
pub mod Connections
use cne_ovs_sit.Base.{
  ℕ, ℤ, String, Bool, true, false, List, [], ◌∷◌, ◌++◌, Option, none, some, fstr, Result, ok, err,
  value_error, io_error, ssh_timeout, Action,
}

-- `ssh_info`: where a command runs.
pub record Node : Type 0 where
  pub host : String
  pub port : ℕ
  pub username : String
  pub password : String

-- One command as it is handed to the channel.
pub record Call : Type 0 where
  pub node : Node
  pub command : String
  pub timeout : ℕ

pub record Reply : Type 0 where
  pub ret_code : ℤ
  pub stdout : String
  pub stderr : String

-- How connecting and running end: `connect` turns every failure into an IOError, `exec_command`
-- can raise SSHException or SSHTimeout.
pub data Outcome : Type 0 where
  done : Reply → Outcome
  connect_failed ssh_failed timed_out : Outcome

pub record Env : Type 0 where
  pub answer : List Call → Call → Outcome
  pub show_ipv4 : ℕ → String
  pub show_ipv6 : ℕ → String

-- `(None, None, None)` is `none`.
abbrev pub outcome_result : Outcome → Result (Option Reply)
outcome_result (done reply) = ok (some reply)
outcome_result connect_failed = err io_error
outcome_result ssh_failed = ok none
outcome_result timed_out = err ssh_timeout

-- `exec_command_sudo` without input
abbrev pub sudo_command : Bool → String → String
sudo_command true cmd = fstr ("sudo -E -S " ∷ cmd ∷ [])
sudo_command false cmd = cmd

abbrev pub run_call : Env → Call → Action (List Call) (Option Reply)
run_call env call calls = (outcome_result (env.answer calls call), calls ++ call ∷ [])

-- The state is the list of the commands handed over so far.
unfoldable pub exec_cmd : Env → Node → String → ℕ → Bool → Action (List Call) (Option Reply)
exec_cmd env node String.[] timeout sudo calls = (err value_error, calls)
exec_cmd env node (String.◌∷◌ c cmd) timeout sudo calls =
    run_call env
      (record { node = node; command = sudo_command sudo (String.◌∷◌ c cmd); timeout = timeout })
      calls

-- The text of the pipeline that `kill_process` runs.
unfoldable pub kill_command : String → String
kill_command proc_name = fstr (
    "ps -eo user,pid,args|grep " ∷ proc_name
    ∷ "|grep -v grep| awk '{print $2}' |xargs -r sudo kill -9" ∷ [])

-- Its result is not looked at; its exceptions pass.
unfoldable pub kill_process : Env → Node → String → Action (List Call) (Unit {0})
unfolding kill_command
kill_process env node proc_name calls =
    let (r, calls') = exec_cmd env node (kill_command proc_name) 600 true calls in
    elim r [ ok _ ↦ (ok tt, calls') | err e ↦ (err e, calls') ]
