-- ===== src/Guest/Outcomes.antt =====
-- How Guest.execute and the pings end (resources/libraries/python/guest.py).
use cne_ovs_sit.Base.{
  ℕ, String, Bool, true, false, Option, none, some, is_zero, io_error, Result, ok, err, ◌≡◌, ◌⊎◌,
}
use cne_ovs_sit.Ssh.{Call, Outcome, done, connect_failed, ssh_failed, timed_out, sudo_command}
use cne_ovs_sit.Machine.State.{VirtualMachine}
use cne_ovs_sit.Guest.Exec.{Answer, minus_one, timeout_for}

-- The command as it is handed over.
abbrev pub guest_call : VirtualMachine → String → ℕ → Bool → Option Bool → Call
guest_call vm cmd timeout sudo exp_fail = record {
  node = vm.ssh_info;
  command = sudo_command sudo cmd;
  timeout = timeout_for exp_fail timeout;
}

-- What the caller gets of each way that a command can end: a failing code becomes -1 and the output
-- stays, a timeout counts as a failure without output, a lost connection as one with none; only where
-- no connection is made an exception passes.
abbrev pub Tells : Outcome → Result Answer → Type 0
Tells (done reply) r =
    (a : Answer) × (r ≡ ok a)
    × ((is_zero reply.ret_code ≡ true) × (a.ret_code ≡ reply.ret_code)
        ⊎ (is_zero reply.ret_code ≡ false) × (a.ret_code ≡ minus_one))
    × (a.stdout ≡ some reply.stdout)
    × (a.stderr ≡ some reply.stderr)
Tells connect_failed r = r ≡ err io_error
Tells ssh_failed r = r ≡ ok (record { ret_code = minus_one; stdout = none; stderr = none })
Tells timed_out r = r ≡ ok (record { ret_code = minus_one; stdout = some ""; stderr = some "" })
