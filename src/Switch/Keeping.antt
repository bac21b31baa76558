-- ===== src/Switch/Keeping.antt =====
-- Starting and stopping the switch (start_vswitch and stop_vswitch in
-- resources/libraries/python/vswitch.py) leave the parameters of the datapath as the constructor set
-- them.
use cne_ovs_sit.Base.{
  ℕ, ◌+◌, ◌++◌, int_of, value_error, attribute_error, fstr, show, show_option, String, Bool, true,
  false, List, [], ◌∷◌, Option, none, some, PyError, Result, ok, err, ℤ, and_then, for_each, pure,
  raise, gets, or_raise, ◌>>=◌, ◌>>◌, ◌≡◌, refl, ◌∙◌, arith,
}
use cne_ovs_sit.Ssh.{Env}
use cne_ovs_sit.Switch.State.{
  Datapath, ovs_dpdk, ovs_native, Uplink, AuxParams, VirtualSwitch, Method, read_uplink,
}
use cne_ovs_sit.Switch.Exec.{
  execute, execute_batch, execute_host, execute_host_, execute_host_batch, kill,
}
use cne_ovs_sit.Switch.Bridges.{stop_vswitch}
use cne_ovs_sit.Switch.Startup.{
  host_output, rebind, bind_dpdk, bind_native, name_native, start_ovs_dpdk, start_ovs_native,
  start_vswitch, set_name, find_interface, attach, status, clean_commands, database_commands,
  dpdk_commands, daemon_command,
}

-- What a method leaves as it was.
pub record Keeps {A : Type 0} (m : Method A) : Type 0 where
  pub kept : (s : VirtualSwitch) → (m s).1.aux_params ≡ s.aux_params

keeps :
    {A : Type 0} {m : Method A}
    → ((s : VirtualSwitch) → (m s).1.aux_params ≡ s.aux_params)
    → Keeps m
keeps h = record { kept = h }

Keeps-bind :
    {A B : Type 0} {m : Method A} {f : A → Method B}
    → Keeps m
    → ((a : A) → Keeps (f a))
    → Keeps (m >>= f)
Keeps-bind {A} {B} {m} {f} h k = keeps (λ s. goes_on (m s).0 (m s).1 ∙ h.kept s)
  where
    goes_on : (r : Result A) (s : VirtualSwitch) → (and_then r f s).1.aux_params ≡ s.aux_params
    goes_on (ok a) s = (k a).kept s
    goes_on (err e) s = refl

Keeps-then : {A B : Type 0} {m : Method A} {n : Method B} → Keeps m → Keeps n → Keeps (m >> n)
Keeps-then h k = Keeps-bind h (λ a. k)

Keeps-pure : {A : Type 0} {a : A} → Keeps (pure a)
Keeps-pure = keeps (λ s. refl)

Keeps-raise : {A : Type 0} {e : PyError} → Keeps {A = A} (raise e)
Keeps-raise = keeps (λ s. refl)

Keeps-gets : {A : Type 0} {f : VirtualSwitch → A} → Keeps (gets f)
Keeps-gets = keeps (λ s. refl)

Keeps-or_raise : {A : Type 0} (o : Option A) (e : PyError) → Keeps (or_raise o e)
Keeps-or_raise none e = keeps (λ s. refl)
Keeps-or_raise (some a) e = keeps (λ s. refl)

Keeps-for_each :
    {A : Type 0} {f : A → Method (Unit {0})} (xs : List A)
    → ((a : A) → Keeps (f a))
    → Keeps (for_each xs f)
unfolding for_each
Keeps-for_each [] h = Keeps-pure
Keeps-for_each (a ∷ xs) h = Keeps-then (h a) (Keeps-for_each xs h)

module _ (env : Env) where
  Keeps-execute : (cmd : String) (timeout : ℕ) → Keeps (execute env cmd timeout)
  unfolding execute
  Keeps-execute cmd timeout = keeps (λ s. ground arith)

  Keeps-execute_host :
      (cmd : String) (timeout : ℕ) (exp_fail : Option Bool)
      → Keeps (execute_host env cmd timeout exp_fail)
  unfolding execute_host
  Keeps-execute_host cmd timeout exp_fail = keeps (λ s. ground arith)

  Keeps-execute_batch : (cmds : List String) (timeout : ℕ) → Keeps (execute_batch env cmds timeout)
  unfolding execute_batch
  Keeps-execute_batch cmds timeout =
      Keeps-for_each cmds (λ cmd. Keeps-then (Keeps-execute cmd timeout) Keeps-pure)

  Keeps-execute_host_batch :
      (cmds : List String) (timeout : ℕ) → Keeps (execute_host_batch env cmds timeout)
  unfolding execute_host_batch
  Keeps-execute_host_batch cmds timeout =
      Keeps-for_each cmds
        (λ cmd. Keeps-then (Keeps-execute_host cmd timeout (some false)) Keeps-pure)

  Keeps-kill : (proc_name : String) → Keeps (kill env proc_name)
  unfolding kill
  Keeps-kill proc_name = keeps (λ s. refl)

  Keeps-stop_vswitch : Keeps (stop_vswitch env)
  unfolding stop_vswitch
  Keeps-stop_vswitch = Keeps-then (Keeps-kill "ovs-vswitchd") (Keeps-kill "ovsdb-server")

  Keeps-host_output : (cmd : String) → Keeps (host_output env cmd)
  unfolding host_output
  Keeps-host_output cmd =
      Keeps-bind (Keeps-execute_host cmd 30 (some false))
        (λ answer. Keeps-bind (Keeps-or_raise answer _) (λ reply. Keeps-pure))

  Keeps-rebind : (driver : String) (u : Uplink) → Keeps (rebind env driver u)
  unfolding rebind
  Keeps-rebind driver u = keeps (λ s. (Keeps-execute_host_batch _ 30).kept s)

  Keeps-read_uplink : (r : ℕ) → Keeps (read_uplink r)
  unfolding read_uplink
  Keeps-read_uplink r = keeps (λ s. ground arith)

  Keeps-set_name : (r : ℕ) (name : String) → Keeps (set_name env r name)
  Keeps-set_name r name = keeps (λ s. refl)

  Keeps-bind_dpdk : (driver : String) (idx : ℕ) (rs : List ℕ) → Keeps (bind_dpdk env driver idx rs)
  unfolding bind_dpdk
  Keeps-bind_dpdk driver idx [] = Keeps-pure
  Keeps-bind_dpdk driver idx (r ∷ rs) = Keeps-bind (Keeps-read_uplink r) (λ u.
      Keeps-then (Keeps-rebind driver u) (
        Keeps-then (Keeps-set_name r (fstr ("dpdk" ∷ show idx ∷ [])))
          (Keeps-bind_dpdk driver (idx + 1) rs)))

  Keeps-bind_native : (lines : List String) (r : ℕ) → Keeps (bind_native env lines r)
  unfolding bind_native
  Keeps-bind_native lines r =
      Keeps-bind (Keeps-read_uplink r)
        (λ u. Keeps-bind (Keeps-or_raise _ _) (λ driver. Keeps-rebind driver u))

  Keeps-name_native : (lines : List String) (r : ℕ) → Keeps (name_native env lines r)
  unfolding name_native
  Keeps-name_native lines r =
      Keeps-bind (Keeps-read_uplink r)
        (λ u. named r _ (find_interface (show_option u.pci_addr) lines) u.name)
    where
      named :
          (r : ℕ) (e : PyError) (found known : Option String)
          → Keeps {A = Unit {0}} (elim found [
            | some name ↦ set_name env r name
            | none ↦ elim known [ some name ↦ pure tt | none ↦ raise e ]
          ])
      named r e (some name) known = Keeps-set_name r name
      named r e none (some name) = Keeps-pure
      named r e none none = Keeps-raise

  Keeps-execute_host_ : (cmd : String) → Keeps (execute_host_ env cmd)
  Keeps-execute_host_ cmd = Keeps-then (Keeps-execute_host cmd 30 (some false)) Keeps-pure

  Keeps-start_ovs_dpdk :
      (attach_gdb : Bool) (aux : AuxParams) → Keeps (start_ovs_dpdk env attach_gdb aux)
  unfolding start_ovs_dpdk
  Keeps-start_ovs_dpdk attach_gdb aux = Keeps-then (Keeps-execute_host_ _) (
      Keeps-bind (Keeps-gets {f = λ s. s.uplinks}) (λ uplinks.
        Keeps-then (Keeps-bind_dpdk aux.driver 1 uplinks) (
          Keeps-bind (Keeps-gets {f = λ s. s.ovs_bin_dir}) (λ dir.
            Keeps-then (Keeps-execute_host_batch (clean_commands env dir) 30) (
              Keeps-then (Keeps-execute_host_ "ps -ef|grep ovs") (
                Keeps-then
                  (Keeps-execute_batch
                    (database_commands env dir ++ dpdk_commands env aux ++ daemon_command env ∷ [])
                    300)
                  (Keeps-bind (Keeps-host_output "pgrep ovs-vswitchd") (λ out.
                    Keeps-bind (Keeps-or_raise (int_of out) value_error)
                      (λ dp_pid. Keeps-attach attach_gdb dp_pid)))))))))
    where
      Keeps-attach : (attach_gdb : Bool) (dp_pid : ℤ) → Keeps (attach env attach_gdb dp_pid)
      Keeps-attach false dp_pid = Keeps-pure
      Keeps-attach true dp_pid =
          Keeps-then (Keeps-execute_host "screen -XS gdbscreen quit" 30 none)
            (Keeps-execute_host_ _)

  Keeps-status : Keeps (status env)
  Keeps-status = keeps (λ s. (Keeps-bind (Keeps-host_output _) (λ out. Keeps-pure)).kept s)

  Keeps-start_ovs_native : Keeps (start_ovs_native env)
  unfolding start_ovs_native
  Keeps-start_ovs_native = Keeps-bind Keeps-status (λ lines.
      Keeps-bind (Keeps-gets {f = λ s. s.uplinks}) (λ uplinks.
        Keeps-then (Keeps-for_each uplinks (Keeps-bind_native lines)) (
          Keeps-bind Keeps-status (λ bound.
            Keeps-then (Keeps-for_each uplinks (Keeps-name_native bound)) (
              Keeps-bind (Keeps-gets {f = λ s. s.ovs_bin_dir}) (λ dir.
                Keeps-then
                  (Keeps-execute_host_batch
                    (clean_commands env dir
                      ++ "modprobe nf_conntrack_ipv4" ∷ "modprobe nf_conntrack_ipv6"
                        ∷ "modprobe openvswitch" ∷ [])
                    30)
                  (Keeps-execute_batch (database_commands env dir ++ daemon_command env ∷ [])
                    100)))))))

  Keeps-start_vswitch : (attach_gdb : Bool) → Keeps (start_vswitch env attach_gdb)
  unfolding start_vswitch
  Keeps-start_vswitch attach_gdb = keeps (λ s. by_datapath s.datapath s)
    where
      by_datapath :
          (d : Datapath) (s : VirtualSwitch)
          → (elim d as (λ _. Result (Unit {0}) × VirtualSwitch) [
            | ovs_native ↦ start_ovs_native env s
            | ovs_dpdk ↦ (or_raise s.aux_params attribute_error >>= start_ovs_dpdk env attach_gdb) s
          ]).1.aux_params
            ≡ s.aux_params
      by_datapath ovs_native s = Keeps-start_ovs_native.kept s
      by_datapath ovs_dpdk s =
          (Keeps-bind (Keeps-or_raise s.aux_params attribute_error)
              (Keeps-start_ovs_dpdk attach_gdb)).kept
            s

  pub restart-Keeps : (attach_gdb : Bool) → Keeps (stop_vswitch env >> start_vswitch env attach_gdb)
  restart-Keeps attach_gdb = Keeps-then Keeps-stop_vswitch (Keeps-start_vswitch attach_gdb)
