-- ===== src/Machine/Boot.antt =====
-- _wait_until_vm_boot (resources/libraries/python/vm.py), and that the wait ends.
--
-- Time is counted in seconds from the start of the wait. How long a probe takes is a parameter, `took`,
-- of the commands up to that probe; five seconds pass between two probes.
use cne_ovs_sit.Base.{
  ℕ, zero, suc, ◌+◌, ◌*◌, ◌/◌, ◌≤◌, ◌<◌, Bool, true, false, List, [], ◌∷◌, none, fstr, ltb, is_zero,
  PyError, runtime_error, io_error, ssh_timeout, Result, ok, err, pure, raise, ◌>>=◌,
  and_then-agree, if◌then◌else◌, ◌≡◌, refl, inl, inr, Bool-cases, arith,
}
use cne_ovs_sit.Ssh.{Env, Call}
use cne_ovs_sit.Machine.State.{VirtualMachine}
use cne_ovs_sit.Guest.Exec.{Session, Answer, execute}

-- A failure to connect means that the machine is not up; other exceptions pass.
abbrev pub is_up : Result Answer → Result Bool
is_up (ok answer) = ok (is_zero answer.ret_code)
is_up (err io_error) = ok false
is_up (err ssh_timeout) = ok false
is_up (err e) = err e

module _ (env : Env) (took : List Call → ℕ) (vm : VirtualMachine) where
  unfoldable pub probe : Session Bool
  unfolding execute
  probe calls = let (r, calls) = execute env vm "pwd" 5 true none calls in (is_up r, calls)

  abbrev not_booted : PyError
  not_booted =
      runtime_error
        (fstr ("timeout, VM " ∷ vm.disk_image ∷ " not booted on " ∷ vm.host_ssh_info.host ∷ []))

  -- The loop from a time on.
  unfoldable pub wait_from : ℕ → ℕ → ℕ → Session (Unit {0})
  unfolding probe
  wait_from zero timeout now = raise not_booted
  wait_from (suc fuel) timeout now =
      if ltb timeout now
      then raise not_booted
      else probe >>= λ up.
          if up then pure tt else (λ calls. wait_from fuel timeout (now + took calls + 5) calls)

  -- `timeout` is 300 in the program. A round takes five seconds at least.
  unfoldable pub wait_until_vm_boot : ℕ → Session (Unit {0})
  unfolding wait_from
  wait_until_vm_boot timeout = wait_from (timeout / 5 + 2) timeout 0

  abbrev after_probe : ℕ → ℕ → ℕ → Bool → Session (Unit {0})
  after_probe fuel timeout now up =
      if up then pure tt else (λ calls. wait_from fuel timeout (now + took calls + 5) calls)

  after_probe-agree :
      (fuel other timeout now : ℕ)
      → ((calls : List Call)
          → let next = now + took calls + 5 in
            wait_from fuel timeout next calls ≡ wait_from other timeout next calls)
      → (calls : List Call) (up : Bool)
      → after_probe fuel timeout now up calls ≡ after_probe other timeout now up calls
  after_probe-agree fuel other timeout now h calls true = refl
  after_probe-agree fuel other timeout now h calls false = h calls

  -- Any two numbers of rounds with which the time can run out give the same.
  wait_from-agree :
      (fuel other timeout now : ℕ) (calls : List Call)
      → timeout < now + fuel * 5
      → timeout < now + other * 5
      → wait_from fuel timeout now calls ≡ wait_from other timeout now calls
  unfolding wait_from
  wait_from-agree zero zero timeout now calls h k = refl
  wait_from-agree zero (suc other) timeout now calls h k =
      let over : ltb timeout now ≡ true = ground arith in rw over refl
  wait_from-agree (suc fuel) zero timeout now calls h k =
      let over : ltb timeout now ≡ true = ground arith in rw over refl
  wait_from-agree (suc fuel) (suc other) timeout now calls h k =
      elim (Bool-cases (ltb timeout now)) [
        | inl over ↦ rw over refl
        | inr under ↦ rw under (
            and_then-agree (probe calls).0 (after_probe fuel timeout now)
              (after_probe other timeout now) (probe calls).1
              (after_probe-agree fuel other timeout now
                (λ calls.
                  wait_from-agree fuel other timeout (now + took calls + 5) calls (omega arith)
                    (omega arith))
                (probe calls).1))
      ]

  -- The number of rounds is no bound of the wait: with any greater number wait_until_vm_boot would do
  -- the same, whatever the probes say and however long they take.
  pub wait_until_vm_boot-enough :
      (more timeout : ℕ) (calls : List Call)
      → wait_from (timeout / 5 + 2 + more) timeout 0 calls ≡ wait_until_vm_boot timeout calls
  unfolding wait_until_vm_boot
  wait_until_vm_boot-enough more timeout calls =
      wait_from-agree (timeout / 5 + 2 + more) (timeout / 5 + 2) timeout 0 calls (omega arith)
        (omega arith)

  -- The first `n` probes fail, and the next one finds the machine up.
  abbrev pub UpAfter : ℕ → List Call → Type 0
  UpAfter zero calls = (probe calls).0 ≡ ok true
  UpAfter (suc n) calls = ((probe calls).0 ≡ ok false) × UpAfter n (probe calls).1

  -- The time at which the probe behind `n` others starts.
  abbrev pub start_of : ℕ → ℕ → List Call → ℕ
  start_of zero now calls = now
  start_of (suc n) now calls =
      let calls = (probe calls).1 in start_of n (now + took calls + 5) calls

  start_of-later : (n now : ℕ) (calls : List Call) → now + n * 5 ≤ start_of n now calls
  start_of-later zero now calls = omega arith
  start_of-later (suc n) now calls =
      let calls' = (probe calls).1 in omega (arith, start_of-later n (now + took calls' + 5) calls')

  wait_from-up :
      (n fuel timeout now : ℕ) (calls : List Call)
      → UpAfter n calls
      → start_of n now calls ≤ timeout
      → n < fuel
      → (wait_from fuel timeout now calls).0 ≡ ok tt
  unfolding wait_from
  wait_from-up n zero timeout now calls up early h = let bad : ⊥ = omega arith in elim bad [ ]
  wait_from-up zero (suc fuel) timeout now calls up early h =
      let in_time : ltb timeout now ≡ false = ground arith in rw (in_time, up) refl
  wait_from-up (suc n) (suc fuel) timeout now calls up early h =
      let calls' = (probe calls).1 in
      let later = start_of-later n (now + took calls' + 5) calls' in
      let in_time : ltb timeout now ≡ false = ground (arith, later) in
      rw (in_time, up.0)
        (wait_from-up n fuel timeout (now + took calls' + 5) calls' up.1 early (omega arith))

  -- A machine that comes up before the time is over is waited for: where the first probe that finds it
  -- up starts in time, the wait ends without an exception, however many probes fail before.
  pub wait_until_vm_boot-up :
      (n timeout : ℕ) (calls : List Call)
      → UpAfter n calls
      → start_of n 0 calls ≤ timeout
      → (wait_until_vm_boot timeout calls).0 ≡ ok tt
  unfolding wait_until_vm_boot
  wait_until_vm_boot-up n timeout calls up early =
      wait_from-up n (timeout / 5 + 2) timeout 0 calls up early
        (omega (arith, start_of-later n 0 calls))
