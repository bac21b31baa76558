-- ===== src/Switch/Startup.antt =====
-- The constructors of VirtualSwitch, OvsDpdk and OvsNative, and start_vswitch of the two datapaths
-- (resources/libraries/python/vswitch.py).
--
-- The order of the uplinks is that of their names in the configuration. An option of an uplink that is
-- empty or 0 there counts as absent.
use Prim.Native.Char.{code}
use cne_ovs_sit.Base.{
  ℕ, zero, suc, ◌+◌, String, Bool, true, false, List, [], ◌∷◌, ◌++◌, is_space, length, range, map,
  Option, none, some, fstr, show, show_option, contains, is_prefix, path_join, split_lines, int_of,
  ℤ, pos, negsuc, ltb, ◌==◌, if◌then◌else◌, for_each, pure, raise, gets, modify, or_raise, ◌>>=◌,
  ◌>>◌, runtime_error, attribute_error, value_error,
}
use cne_ovs_sit.Ssh.{Env, Node}
use cne_ovs_sit.Vif.{InterfaceAddress}
use cne_ovs_sit.Switch.State.{
  Uplink, new_uplink, Datapath, ovs_dpdk, ovs_native, AuxParams, VirtualSwitch, Method, read_uplink,
  update_uplink,
}
use cne_ovs_sit.Switch.Exec.{execute_batch, execute_host, execute_host_, execute_host_batch}

-- One entry of "interfaces" in the configuration.
pub record UplinkSpec : Type 0 where
  pub name : String
  pub pci_address : String
  pub n_queue_pair : Option String
  pub n_rxq_desc : Option String
  pub n_txq_desc : Option String

-- `s <= t` of texts
text_leb : String → String → Bool
text_leb String.[] t = true
text_leb (String.◌∷◌ c s) String.[] = false
text_leb (String.◌∷◌ c s) (String.◌∷◌ d t) =
    if code c == code d then text_leb s t else ltb (code c) (code d)

unfoldable pub insert : UplinkSpec → List UplinkSpec → List UplinkSpec
unfolding text_leb
insert spec [] = spec ∷ []
insert spec (other ∷ specs) =
    if text_leb spec.name other.name then spec ∷ other ∷ specs else other ∷ insert spec specs

unfoldable pub sorted : List UplinkSpec → List UplinkSpec
unfolding insert
sorted [] = []
sorted (spec ∷ specs) = insert spec (sorted specs)

unfoldable pub uplink_of : UplinkSpec → Uplink
unfolding new_uplink
uplink_of spec =
    let u = new_uplink (some spec.pci_address) in
    record u {
      n_queue_pair = spec.n_queue_pair;
      n_rxq_desc = spec.n_rxq_desc;
      n_txq_desc = spec.n_txq_desc;
    }

unfoldable pub new_switch :
    Datapath
    → Node
    → List UplinkSpec
    → InterfaceAddress
    → String
    → String
    → Option AuxParams
    → VirtualSwitch
unfolding sorted uplink_of
new_switch datapath ssh_info specs tep_addr ovs_bin_dir dpdk_devbind_dir aux_params = record {
  datapath = datapath;
  ssh_info = ssh_info;
  tep_addr = tep_addr;
  ovs_bin_dir = ovs_bin_dir;
  dpdk_devbind_full_cmd = path_join dpdk_devbind_dir "dpdk-devbind.py";
  aux_params = aux_params;
  bridges = [];
  uplinks = range 0 (length specs);
  uplink_heap = map uplink_of (sorted specs);
  vif_heap = [];
  next_ident = 0;
  calls = [];
}

abbrev drivers : List (String × String)
drivers = ("XL710", "i40e") ∷ ("X710", "i40e") ∷ ("82599", "ixgbe") ∷ ("82540", "e1000") ∷ []

abbrev first_driver : String → List (String × String) → Option String
first_driver line [] = none
first_driver line (d ∷ ds) = if contains d.0 line then some d.1 else first_driver line ds

-- The kernel driver that the first line on the device with a known chip names.
unfoldable pub find_driver : String → List String → Option String
unfolding contains
find_driver pci_addr [] = none
find_driver pci_addr (line ∷ lines) =
    let later = find_driver pci_addr lines in
    if contains pci_addr line
    then elim (first_driver line drivers) [ none ↦ later | some driver ↦ some driver ]
    else later

-- The text in front of the next blank, where that is a space.
word : String → Option String
word String.[] = none
word (String.◌∷◌ c s) =
    let rest = word s in
    if code c == 32
    then some ""
    else if is_space c
    then none
    else elim rest [ none ↦ none | some w ↦ some (String.◌∷◌ c w) ]

drop_text : ℕ → String → String
drop_text zero s = s
drop_text (suc n) String.[] = ""
drop_text (suc n) (String.◌∷◌ c s) = drop_text n s

abbrev non_empty : Option String → Option String
non_empty none = none
non_empty (some String.[]) = none
non_empty (some (String.◌∷◌ c s)) = some (String.◌∷◌ c s)

-- `re.compile(r"if=(\S+) ").search(line)`, group 1: the first place where it matches.
unfoldable pub interface_in : String → Option String
unfolding word drop_text is_prefix
interface_in String.[] = none
interface_in (String.◌∷◌ c s) =
    let later = interface_in s in
    if is_prefix "if=" (String.◌∷◌ c s)
    then elim (non_empty (word (drop_text 2 s))) [ none ↦ later | some name ↦ some name ]
    else later

-- The first line on the device that names an interface.
unfoldable pub find_interface : String → List String → Option String
unfolding interface_in contains
find_interface pci_addr [] = none
find_interface pci_addr (line ∷ lines) =
    let later = find_interface pci_addr lines in
    if contains pci_addr line
    then elim (interface_in line) [ none ↦ later | some name ↦ some name ]
    else later

abbrev lower : Bool → String
lower true = "true"
lower false = "false"

abbrev show_int : ℤ → String
show_int (pos n) = show n
show_int (negsuc n) = fstr ("-" ∷ show (n + 1) ∷ [])

-- The configured uplinks have addresses.
abbrev pci_of : Uplink → String
pci_of u = show_option u.pci_addr

module _ (env : Env) where
  -- The output of a command that has to succeed.
  unfoldable pub host_output : String → Method String
  host_output cmd = do
    answer ← execute_host env cmd 30 (some false)
    reply ← or_raise answer attribute_error
    pure reply.stdout

  abbrev with_devbind : (String → Method (Unit {0})) → Method (Unit {0})
  with_devbind f s = f s.dpdk_devbind_full_cmd s

  unfoldable pub rebind : String → Uplink → Method (Unit {0})
  rebind driver u = with_devbind (λ cmd.
      execute_host_batch env
        (fstr (cmd ∷ " -u " ∷ pci_of u ∷ [])
          ∷ fstr (cmd ∷ " -b " ∷ driver ∷ " " ∷ pci_of u ∷ [])
          ∷ [])
        30)

  abbrev pub set_name : ℕ → String → Method (Unit {0})
  set_name r name = modify (update_uplink r (λ u. record u { name = some name }))

  -- The uplinks become dpdk1, dpdk2 and so on.
  unfoldable pub bind_dpdk : String → ℕ → List ℕ → Method (Unit {0})
  unfolding rebind
  bind_dpdk driver idx [] = pure tt
  bind_dpdk driver idx (r ∷ rs) = do
    u ← read_uplink r
    rebind driver u
    set_name r (fstr ("dpdk" ∷ show idx ∷ []))
    bind_dpdk driver (idx + 1) rs

  unfoldable pub bind_native : List String → ℕ → Method (Unit {0})
  unfolding rebind find_driver
  bind_native lines r = do
    u ← read_uplink r
    driver ←
        or_raise (find_driver (pci_of u) lines)
          (runtime_error (fstr ("no kernel driver found for " ∷ pci_of u ∷ [])))
    rebind driver u

  -- A name that the uplink has already stays.
  unfoldable pub name_native : List String → ℕ → Method (Unit {0})
  unfolding find_interface
  name_native lines r = do
    u ← read_uplink r
    elim (find_interface (pci_of u) lines) [
      | some name ↦ set_name r name
      | none ↦ elim u.name [
        | some name ↦ pure tt
        | none ↦ raise (runtime_error (fstr ("no kernel interface found for " ∷ pci_of u ∷ [])))
      ]
    ]

  abbrev pub clean_commands : String → List String
  clean_commands dir =
      "rm -rf /var/run/openvswitch/*"
      ∷ "rm -rf /var/log/openvswitch/*"
      ∷ fstr ("rm -rf " ∷ dir ∷ "/conf.db" ∷ [])
      ∷ "mkdir -p /var/run/openvswitch"
      ∷ "mkdir -p /var/log/openvswitch"
      ∷ []

  abbrev pub database_commands : String → List String
  database_commands dir =
      fstr ("ovsdb-tool create " ∷ dir ∷ "/conf.db " ∷ dir ∷ "/vswitch.ovsschema" ∷ [])
      ∷ fstr (
          "ovsdb-server --remote=punix:/var/run/openvswitch/db.sock --pidfile --detach " ∷ dir
          ∷ "/conf.db" ∷ [])
      ∷ "ovs-vsctl --no-wait init"
      ∷ []

  abbrev pub daemon_command : String
  daemon_command = "ovs-vswitchd unix:/var/run/openvswitch/db.sock --log-file --pidfile --detach"

  abbrev pub dpdk_commands : AuxParams → List String
  dpdk_commands aux =
      "ovs-vsctl --no-wait set Open_vSwitch . other_config:dpdk-init=true"
      ∷ fstr (
          "ovs-vsctl --no-wait set Open_vSwitch . other_config:dpdk-socket-mem=" ∷ aux.socket_mem
          ∷ " other_config:dpdk-hugepage-dir=" ∷ aux.huge_mnt ∷ [])
      ∷ fstr (
          "ovs-vsctl --no-wait set Open_vSwitch . other_config:userspace-tso-enable="
          ∷ lower aux.userspace_tso
          ∷ [])
      ∷ fstr
          ("ovs-vsctl --no-wait set Open_vSwitch . other_config:pmd-cpu-mask=" ∷ aux.cpu_mask ∷ [])
      ∷ []

  -- With a debugger at the daemon in the background, where it is asked for.
  abbrev pub attach : Bool → ℤ → Method (Unit {0})
  attach false dp_pid = pure tt
  attach true dp_pid = do
    execute_host env "screen -XS gdbscreen quit" 30 none
    execute_host_ env (
        fstr (
          "screen -d -m -S gdbscreen bash -c \"sudo gdb -ex cont -p "
          ∷ show_int dp_pid
          ∷ "\""
          ∷ []))

  unfoldable pub start_ovs_dpdk : Bool → AuxParams → Method (Unit {0})
  unfolding bind_dpdk host_output
  start_ovs_dpdk attach_gdb aux = do
    execute_host_ env (fstr ("modprobe " ∷ aux.driver ∷ []))
    uplinks ← gets (λ s. s.uplinks)
    bind_dpdk aux.driver 1 uplinks
    dir ← gets (λ s. s.ovs_bin_dir)
    execute_host_batch env (clean_commands dir) 30
    execute_host_ env "ps -ef|grep ovs"
    execute_batch env (database_commands dir ++ dpdk_commands aux ++ daemon_command ∷ []) 300
    out ← host_output "pgrep ovs-vswitchd"
    dp_pid ← or_raise (int_of out) value_error
    attach attach_gdb dp_pid

  abbrev pub status : Method (List String)
  status s =
      (host_output (fstr (s.dpdk_devbind_full_cmd ∷ " --status" ∷ [])) >>= λ out.
      pure (split_lines out))
        s

  unfoldable pub start_ovs_native : Method (Unit {0})
  unfolding bind_native name_native host_output
  start_ovs_native = do
    lines ← status
    uplinks ← gets (λ s. s.uplinks)
    for_each uplinks (bind_native lines)
    bound ← status
    for_each uplinks (name_native bound)
    dir ← gets (λ s. s.ovs_bin_dir)
    execute_host_batch env
        (clean_commands dir
          ++ "modprobe nf_conntrack_ipv4" ∷ "modprobe nf_conntrack_ipv6" ∷ "modprobe openvswitch"
            ∷ [])
        30
    execute_batch env (database_commands dir ++ daemon_command ∷ []) 100

  -- `attach_gdb` is the variable ${ATTACH_GDB} of the test run.
  unfoldable pub start_vswitch : Bool → Method (Unit {0})
  unfolding start_ovs_dpdk start_ovs_native
  start_vswitch attach_gdb s = elim s.datapath [
    | ovs_native ↦ start_ovs_native s
    | ovs_dpdk ↦ (or_raise s.aux_params attribute_error >>= start_ovs_dpdk attach_gdb) s
  ]
