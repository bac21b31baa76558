-- ===== src/Guest/Transfer.antt =====
-- Guest.execute_tftp and execute_ftp with the files they use (resources/libraries/python/guest.py).
use cne_ovs_sit.Base.{String, Bool, List, [], ◌∷◌, fstr, ◌>>◌, if◌then◌else◌}
use cne_ovs_sit.Ssh.{Env}
use cne_ovs_sit.Machine.State.{VirtualMachine}
use cne_ovs_sit.Guest.Exec.{Session, execute, execute_, execute_batch}
use cne_ovs_sit.Guest.Udp.{Ip, show_ip, ip_is_v4}

module _ (env : Env) where
  unfoldable pub generate_file : VirtualMachine → String → Session (Unit {0})
  unfolding execute
  generate_file vm fname =
      execute_ env vm (fstr ("dd if=/dev/urandom of=./" ∷ fname ∷ " bs=1k count=1k" ∷ []))

  unfoldable pub rm_file : VirtualMachine → String → Session (Unit {0})
  unfolding execute
  rm_file vm fname = execute_ env vm (fstr ("rm " ∷ fname ∷ []))

  -- A difference is only logged.
  unfoldable pub compare_files : VirtualMachine → String → String → Session (Unit {0})
  unfolding execute
  compare_files vm file1 file2 = execute_ env vm (fstr ("diff " ∷ file1 ∷ " " ∷ file2 ∷ []))

  -- The file goes to the server and comes back under another name; then all copies are removed.
  transfer : VirtualMachine → VirtualMachine → List String → Session (Unit {0})
  unfolding generate_file execute_batch compare_files rm_file
  transfer vm server_vm cmds = do
    generate_file vm "tfile"
    execute_batch env vm cmds
    compare_files vm "tfile" "tfile_local"
    rm_file vm "tfile"
    rm_file vm "tfile_local"
    rm_file server_vm "/tmp/tfile_remote"

  unfoldable pub execute_tftp : VirtualMachine → VirtualMachine → Ip → Session (Unit {0})
  unfolding transfer show_ip
  execute_tftp vm server_vm server_ip =
      let ip = show_ip env server_ip in
      transfer vm server_vm (
        fstr ("tftp " ∷ ip ∷ " -c put tfile tfile_remote" ∷ [])
        ∷ fstr ("tftp " ∷ ip ∷ " -c get tfile_remote tfile_local" ∷ [])
        ∷ [])

  -- The mode, without the extended commands in IPv4.
  abbrev mode : Bool → Bool → String
  mode active ipv4 =
      if active
      then if ipv4 then "--ftp-port - --disable-eprt " else "--ftp-port - "
      else if ipv4
      then "--ftp-pasv --disable-epsv "
      else "--ftp-pasv "

  abbrev host_part : Ip → String
  host_part ip = if ip_is_v4 ip then show_ip env ip else fstr ("[" ∷ show_ip env ip ∷ "]" ∷ [])

  unfoldable pub execute_ftp : VirtualMachine → VirtualMachine → Ip → Bool → Session (Unit {0})
  unfolding transfer show_ip ip_is_v4
  execute_ftp vm server_vm server_ip active =
      let base_cmd =
        fstr
          ("sudo curl " ∷ mode active (ip_is_v4 server_ip) ∷ "ftp://" ∷ host_part server_ip ∷ []) in
      transfer vm server_vm (
        fstr (base_cmd ∷ "/tfile_remote --user \"cne:cne\" -T ./tfile --ftp-create-dirs" ∷ [])
        ∷ fstr
            (base_cmd ∷ "/tfile_remote --user \"cne:cne\" -o ./tfile_local --ftp-create-dirs" ∷ [])
        ∷ [])
