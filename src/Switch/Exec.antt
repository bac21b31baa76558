-- ===== src/Switch/Exec.antt =====
-- VirtualSwitch.execute, execute_batch, execute_host, execute_host_batch and kill_process
-- (resources/libraries/python/vswitch.py).
use cne_ovs_sit.Base.{
  ℕ, String, Bool, true, false, List, [], ◌∷◌, Option, none, some, fstr, is_zero, PyError,
  runtime_error, for_each, pure, raise, ◌>>=◌, ◌>>◌, if◌then◌else◌,
}
use cne_ovs_sit.Ssh.{Env, Reply, exec_cmd, kill_process}
use cne_ovs_sit.Switch.State.{Method}

-- `not (ret_code is None or int(ret_code) != 0)`
abbrev pub succeeded : Option Reply → Bool
succeeded none = false
succeeded (some reply) = is_zero reply.ret_code

-- What the methods do with the result: `e` is raised where the command failed and `raises` holds.
abbrev pub check_reply : Bool → PyError → Option Reply → Method (Option Reply)
check_reply raises e reply =
    if succeeded reply then pure reply else if raises then raise e else pure reply

-- `exp_fail is not None and not exp_fail`
abbrev pub raises_on_failure : Option Bool → Bool
raises_on_failure (some false) = true
raises_on_failure _ = false

module _ (env : Env) where
  -- `exec_cmd(self.ssh_info, cmd, timeout, sudo=True)`
  unfoldable pub run : String → ℕ → Method (Option Reply)
  run cmd timeout s =
      let (r, calls) = exec_cmd env s.ssh_info cmd timeout true s.calls in
      (r, record s { calls = calls })

  unfoldable pub execute : String → ℕ → Method (Option Reply)
  unfolding run
  execute cmd timeout s =
      let e =
        runtime_error (fstr ("Execute OVS cmd failed on " ∷ s.ssh_info.host ∷ " : " ∷ cmd ∷ [])) in
      (run (fstr (s.ovs_bin_dir ∷ "/" ∷ cmd ∷ [])) timeout >>= check_reply true e) s

  unfoldable pub execute_batch : List String → ℕ → Method (Unit {0})
  execute_batch cmds timeout = for_each cmds (λ cmd. execute cmd timeout >> pure tt)

  unfoldable pub execute_host : String → ℕ → Option Bool → Method (Option Reply)
  unfolding run
  execute_host cmd timeout exp_fail s =
      let e =
        runtime_error (fstr ("Execute host cmd failed on " ∷ s.ssh_info.host ∷ " : " ∷ cmd ∷ [])) in
      (run cmd timeout >>= check_reply (raises_on_failure exp_fail) e) s

  unfoldable pub execute_host_batch : List String → ℕ → Method (Unit {0})
  execute_host_batch cmds timeout =
      for_each cmds (λ cmd. execute_host cmd timeout (some false) >> pure tt)

  unfoldable pub kill : String → Method (Unit {0})
  kill proc_name s =
      let (r, calls) = kill_process env s.ssh_info proc_name s.calls in
      (r, record s { calls = calls })

  -- The defaults: 30 seconds, and a failure raises.
  abbrev pub execute_ : String → Method (Unit {0})
  execute_ cmd = execute cmd 30 >> pure tt

  abbrev pub execute_host_ : String → Method (Unit {0})
  execute_host_ cmd = execute_host cmd 30 (some false) >> pure tt
