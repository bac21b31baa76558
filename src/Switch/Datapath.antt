-- ===== src/Switch/Datapath.antt =====
-- The methods that OvsDpdk and OvsNative override (resources/libraries/python/vswitch.py):
-- _create_bridge_impl, _create_vhost_user_interface_impl, _create_uplink_interface_impl,
-- _create_uplink_bond_impl, _delete_uplink_impl and _set_bond_member_up_impl.
use cne_ovs_sit.Base.{
  ℕ, ◌+◌, String, Bool, List, [], ◌∷◌, ◌++◌, length, Option, none, some, fstr, append, show,
  show_value, show_option, attribute_error, pure, raise, gets, modify, ◌>>=◌, ◌>>◌, if◌then◌else◌,
}
use cne_ovs_sit.Constants.{ofp_uplink_base}
use cne_ovs_sit.Ssh.{Env}
use cne_ovs_sit.Vif.{VirtualInterface, Vhost}
use cne_ovs_sit.Switch.State.{
  Datapath, ovs_dpdk, ovs_native, Uplink, new_uplink, Method, read_uplink, update_bridge,
  update_uplink,
}
use cne_ovs_sit.Switch.Exec.{execute_, execute_host_}

abbrev pub show_ofp : Option ℕ → String
show_ofp none = "None"
show_ofp (some ofp) = show ofp

module _ (env : Env) where
  unfoldable pub create_bridge_impl : Datapath → String → Method (Unit {0})
  create_bridge_impl ovs_dpdk name =
      execute_ env (
        fstr ("ovs-vsctl add-br " ∷ name ∷ " -- set bridge " ∷ name ∷ " datapath_type=netdev" ∷ []))
  create_bridge_impl ovs_native name =
      execute_ env (
        fstr ("ovs-vsctl add-br " ∷ name ∷ " -- set bridge " ∷ name ∷ " datapath_type=system" ∷ []))

  dpdk_vhost_user_interface : String → VirtualInterface → Vhost → Method (Unit {0})
  dpdk_vhost_user_interface br_name vif v = execute_ env (
      if v.backend_client_mode
      then fstr (
          "ovs-vsctl add-port "
          ∷ br_name
          ∷ " "
          ∷ vif.name
          ∷ " -- set Interface "
          ∷ vif.name
          ∷ " type=dpdkvhostuserclient options:vhost-server-path="
          ∷ show_option v.sock
          ∷ " ofport_request="
          ∷ show_value vif.ofp
          ∷ [])
      else fstr (
          "ovs-vsctl add-port "
          ∷ br_name
          ∷ " "
          ∷ vif.name
          ∷ " -- set Interface "
          ∷ vif.name
          ∷ " type=dpdkvhostuser ofport_request="
          ∷ show_value vif.ofp
          ∷ []))

  -- Each interface has its own ifup and ifdown script, since qemu cannot pass the port number.
  native_vhost_user_interface : String → VirtualInterface → Vhost → Method (Unit {0})
  native_vhost_user_interface br_name vif v = do
    ovs_bin_dir ← gets (λ s. s.ovs_bin_dir)
    execute_host_ env (
        fstr (
          "sh -c 'cat << EOF > "
          ∷ show_option v.qemu_script_ifup
          ∷ "\n#!/bin/sh\n\n"
          ∷ ovs_bin_dir
          ∷ "/ovs-vsctl add-port "
          ∷ br_name
          ∷ " $1 -- set Interface $1 ofport_request="
          ∷ show_value vif.ofp
          ∷ "\nip link set $1 up\nip link set $1 mtu 9000\nEOF'"
          ∷ []))
    execute_host_ env (fstr ("chmod u+x " ∷ show_option v.qemu_script_ifup ∷ []))
    execute_host_ env (
        fstr (
          "sh -c 'cat << EOF > "
          ∷ show_option v.qemu_script_ifdown
          ∷ "\n#!/bin/sh\n\nip link set $1 down\n"
          ∷ ovs_bin_dir
          ∷ "/ovs-vsctl del-port "
          ∷ br_name
          ∷ " $1\nEOF'"
          ∷ []))
    execute_host_ env (fstr ("chmod u+x " ∷ show_option v.qemu_script_ifdown ∷ []))

  -- A tap interface has no `backend_client_mode` and no scripts.
  unfoldable pub create_vhost_user_interface_impl :
      Datapath → String → VirtualInterface → Option Vhost → Method (Unit {0})
  unfolding dpdk_vhost_user_interface native_vhost_user_interface
  create_vhost_user_interface_impl datapath br_name vif none = raise attribute_error
  create_vhost_user_interface_impl ovs_dpdk br_name vif (some v) =
      dpdk_vhost_user_interface br_name vif v
  create_vhost_user_interface_impl ovs_native br_name vif (some v) =
      native_vhost_user_interface br_name vif v

  -- The options of the uplink that are set, each with its text.
  abbrev when_set : Option String → (String → List String) → String
  when_set none f = ""
  when_set (some v) f = fstr (f v)

  dpdk_uplink_options : Uplink → String
  dpdk_uplink_options u = fstr (
      when_set u.n_queue_pair (λ n. "options:n_rxq=" ∷ n ∷ " options:n_txq=" ∷ n ∷ " " ∷ [])
      ∷ when_set u.n_rxq_desc (λ n. "options:n_rxq_desc=" ∷ n ∷ " " ∷ [])
      ∷ when_set u.n_txq_desc (λ n. "options:n_txq_desc=" ∷ n ∷ " " ∷ [])
      ∷ [])

  -- `if value: self.execute_host(cmd)`. A failing command raises, so the test of the return code
  -- behind it never holds.
  abbrev host_when_set : Option String → (String → List String) → Method (Unit {0})
  host_when_set none f = pure tt
  host_when_set (some v) f = execute_host_ env (fstr (f v))

  unfoldable pub create_uplink_interface_impl : Datapath → String → Uplink → Method (Unit {0})
  unfolding dpdk_uplink_options
  create_uplink_interface_impl ovs_dpdk br_name u = execute_ env (
      fstr (
        "ovs-vsctl add-port "
        ∷ br_name
        ∷ " "
        ∷ show_option u.name
        ∷ " -- set Interface "
        ∷ show_option u.name
        ∷ " type=dpdk options:dpdk-devargs="
        ∷ show_option u.pci_addr
        ∷ " "
        ∷ dpdk_uplink_options u
        ∷ " ofport_request="
        ∷ show_ofp u.ofp
        ∷ []))
  create_uplink_interface_impl ovs_native br_name u = do
    host_when_set u.n_queue_pair (λ n. "ethtool -L " ∷ show_option u.name ∷ " combined " ∷ n ∷ [])
    host_when_set u.n_rxq_desc (λ n. "ethtool -G " ∷ show_option u.name ∷ " rx " ∷ n ∷ [])
    host_when_set u.n_txq_desc (λ n. "ethtool -G " ∷ show_option u.name ∷ " tx " ∷ n ∷ [])
    execute_ env (
        fstr (
          "ovs-vsctl add-port "
          ∷ br_name
          ∷ " "
          ∷ show_option u.name
          ∷ " -- set Interface "
          ∷ show_option u.name
          ∷ " ofport_request="
          ∷ show_ofp u.ofp
          ∷ []))
    execute_host_ env (fstr ("ip link set " ∷ show_option u.name ∷ " up" ∷ []))

  -- The loop of OvsDpdk over the uplinks: each takes the next port number and joins bridge `b`; the
  -- texts `phy_ifs` and `ifs_set` grow.
  unfoldable pub bond_members : ℕ → ℕ → List ℕ → String → String → Method (String × String)
  bond_members b ofp_idx [] phy_ifs ifs_set = pure (phy_ifs, ifs_set)
  bond_members b ofp_idx (r ∷ rs) phy_ifs ifs_set = do
    modify (update_uplink r (λ u. record u { ofp = some (ofp_idx + 1) }))
    u ← read_uplink r
    modify (update_bridge b (λ br. record br { uplinks = br.uplinks ++ r ∷ [] }))
    bond_members b (ofp_idx + 1) rs (append phy_ifs (fstr (" " ∷ show_option u.name ∷ []))) (
        append ifs_set (
          fstr (
            " -- set Interface "
            ∷ show_option u.name
            ∷ " type=dpdk options:n_rxq=1 options:n_txq=1 options:dpdk-devargs="
            ∷ show_option u.pci_addr
            ∷ " ofport_request="
            ∷ show_ofp u.ofp
            ∷ [])))

  dpdk_uplink_bond : ℕ → String → Method (Unit {0})
  unfolding bond_members
  dpdk_uplink_bond b br_name = do
    uplinks ← gets (λ s. s.uplinks)
    (phy_ifs, ifs_set) ← bond_members b ofp_uplink_base uplinks "" ""
    execute_ env (
        fstr (
          "ovs-vsctl add-bond " ∷ br_name ∷ " bondif " ∷ phy_ifs
          ∷ " bond_mode=balance-tcp lacp=active other_config:lacp-time=fast " ∷ ifs_set ∷ []))

  uplink_names : List ℕ → String → Method String
  uplink_names [] phy_ifs = pure phy_ifs
  uplink_names (r ∷ rs) phy_ifs = do
    u ← read_uplink r
    uplink_names rs (append phy_ifs (fstr (" " ∷ show_option u.name ∷ [])))

  -- The text of a list of texts.
  list_items : List String → String
  list_items [] = ""
  list_items (s ∷ []) = fstr ("'" ∷ s ∷ "'" ∷ [])
  list_items (s ∷ ss) = fstr ("'" ∷ s ∷ "', " ∷ list_items ss ∷ [])

  -- The list of commands is handed to `execute_host` whole, so the host gets the list's text.
  native_uplink_bond : ℕ → String → Method (Unit {0})
  unfolding uplink_names list_items new_uplink
  native_uplink_bond b br_name = do
    uplinks ← gets (λ s. s.uplinks)
    phy_ifs ← uplink_names uplinks ""
    execute_host_ env (
        fstr (
          "["
          ∷ list_items (
              "modprobe bonding miimon=100 mode=4 lacp_rate=1"
              ∷ "ip link add name bondif type bond"
              ∷ "ip link set dev bondif up"
              ∷ fstr ("ifenslave bondif " ∷ phy_ifs ∷ [])
              ∷ [])
          ∷ "]"
          ∷ []))
    execute_ env (
        fstr (
          "ovs-vsctl add-port "
          ∷ br_name
          ∷ " bondif -- set Interface bondif ofport_request="
          ∷ show ofp_uplink_base
          ∷ []))
    r ← gets (λ s. length s.uplink_heap)
    let bond_uplink = record (new_uplink none) { name = some "bondif"; ofp = some ofp_uplink_base }
    modify (λ s. record s { uplink_heap = s.uplink_heap ++ bond_uplink ∷ [] })
    modify (update_bridge b (λ br. record br { uplinks = br.uplinks ++ r ∷ [] }))

  unfoldable pub create_uplink_bond_impl : Datapath → ℕ → String → Method (Unit {0})
  unfolding dpdk_uplink_bond native_uplink_bond
  create_uplink_bond_impl ovs_dpdk b br_name = dpdk_uplink_bond b br_name
  create_uplink_bond_impl ovs_native b br_name = native_uplink_bond b br_name

  -- Only OvsNative deletes an interface: that of a bond, which has no PCI address.
  unfoldable pub delete_uplink_impl : Datapath → Uplink → Method (Unit {0})
  delete_uplink_impl ovs_dpdk u = pure tt
  delete_uplink_impl ovs_native u = elim u.pci_addr [
    | some pci_addr ↦ pure tt
    | none ↦ execute_host_ env (fstr ("ip link del dev " ∷ show_option u.name ∷ []))
  ]

  unfoldable pub set_bond_member_up_impl : Datapath → Option String → Bool → Method (Unit {0})
  set_bond_member_up_impl ovs_dpdk if_name up = pure tt
  set_bond_member_up_impl ovs_native if_name up = execute_host_ env (
      if up
      then fstr ("ip link set dev " ∷ show_option if_name ∷ " up" ∷ [])
      else fstr ("ip link set dev " ∷ show_option if_name ∷ " down" ∷ []))
