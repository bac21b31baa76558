-- ===== src/Switch/Frames.antt =====
-- What the methods of resources/libraries/python/vswitch.py leave alone: running a command changes
-- nothing but the list of the commands.
use cne_ovs_sit.Base.{ℕ, String, Bool, Option, none, some, PyError, ◌≡◌, ap, arith}
use cne_ovs_sit.Ssh.{Env, Reply}
use cne_ovs_sit.Switch.State.{VirtualSwitch}
use cne_ovs_sit.Switch.Exec.{execute_, check_reply, execute}

abbrev pub SameButCalls : VirtualSwitch → VirtualSwitch → Type 0
SameButCalls s s' = s' ≡ record s { calls = s'.calls }

check_reply-state :
    (raises : Bool) (e : PyError) (reply : Option Reply) (s : VirtualSwitch)
    → (check_reply raises e reply s).1 ≡ s
check_reply-state raises e none s = ground arith
check_reply-state raises e (some reply) s = ground arith

module _ (env : Env) (cmd : String) (timeout : ℕ) where
  pub execute-SameButCalls : (s : VirtualSwitch) → SameButCalls s (execute env cmd timeout s).1
  unfolding execute
  execute-SameButCalls s = ground arith

module _ (env : Env) (cmd : String) where
  pub execute_-SameButCalls : (s : VirtualSwitch) → SameButCalls s (execute_ env cmd s).1
  unfolding execute
  execute_-SameButCalls s = ground arith

  pub execute_-bridges : (s : VirtualSwitch) → (execute_ env cmd s).1.bridges ≡ s.bridges
  execute_-bridges s = ap (λ t. t.bridges) (execute_-SameButCalls s)
