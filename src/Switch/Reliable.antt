-- ===== src/Switch/Reliable.antt =====
-- A node on which every command succeeds: execute (resources/libraries/python/vswitch.py) returns.
use cne_ovs_sit.Base.{
  ℕ, String, true, List, some, is_zero, append, fstr, and_then, ok, ◌≡◌, refl, ap,
}
use cne_ovs_sit.Ssh.{Env, Node, Call, Reply, done, exec_cmd, outcome_result}
use cne_ovs_sit.Switch.State.{VirtualSwitch}
use cne_ovs_sit.Switch.Exec.{succeeded, check_reply, run, execute, execute_}

-- Every command that the node is given succeeds.
abbrev pub AllSucceed : Env → Type 0
AllSucceed env =
    (calls : List Call) (call : Call)
    → (reply : Reply) × (env.answer calls call ≡ done reply) × (is_zero reply.ret_code ≡ true)

module _ (env : Env) (reliable : AllSucceed env) where
  exec_cmd-succeeds :
      (dir rest : String) (node : Node) (timeout : ℕ) (calls : List Call)
      → (reply : Reply) × ((exec_cmd env node (append dir (append "/" rest)) timeout true calls).0
          ≡ ok (some reply))
        × (is_zero reply.ret_code ≡ true)
  unfolding exec_cmd append
  exec_cmd-succeeds String.[] rest node timeout calls =
      let (reply, e, zero_code) = reliable calls _ in (reply, ap outcome_result e, zero_code)
  exec_cmd-succeeds (String.◌∷◌ c dir) rest node timeout calls =
      let (reply, e, zero_code) = reliable calls _ in (reply, ap outcome_result e, zero_code)

  pub execute_-ok : (cmd : String) (s : VirtualSwitch) → (execute_ env cmd s).0 ≡ ok tt
  unfolding execute run fstr
  execute_-ok cmd s =
      let (reply, got, zero_code) =
        exec_cmd-succeeds s.ovs_bin_dir (append cmd "") s.ssh_info 30 s.calls in
      rw (got, and_then, check_reply, succeeded, zero_code) refl
