-- ===== src/Vif.antt =====
-- Virtual interfaces (resources/libraries/python/vif.py). An address is the number that Python's
-- ipaddress module keeps; a network is its first address and its prefix length.
use cne_ovs_sit.Base.{
  ℕ, String, Bool, true, ◌&&◌, [], ◌∷◌, Option, none, some, fstr, show, Value, int, str, Result, ok,
  err, attribute_error, ◌==◌,
}
use cne_ovs_sit.Constants.{vni_none}
use cne_ovs_sit.Ssh.{Env}

pub record Network : Type 0 where
  pub address : ℕ
  pub prefixlen : ℕ

pub record InterfaceAddress : Type 0 where
  pub ipv4 : ℕ
  pub ipv4_network : Network
  pub ipv6 : ℕ
  pub ipv6_network : Network

unfoldable pub ipv4_str_with_prefix : Env → InterfaceAddress → String
ipv4_str_with_prefix env a = fstr (env.show_ipv4 a.ipv4 ∷ "/" ∷ show a.ipv4_network.prefixlen ∷ [])

unfoldable pub ipv6_str_with_prefix : Env → InterfaceAddress → String
ipv6_str_with_prefix env a = fstr (env.show_ipv6 a.ipv6 ∷ "/" ∷ show a.ipv6_network.prefixlen ∷ [])

-- The text of a network.
unfoldable pub show_network : (ℕ → String) → Network → String
show_network show_ip n = fstr (show_ip n.address ∷ "/" ∷ show n.prefixlen ∷ [])

-- What class VhostUserInterface adds.
pub record Vhost : Type 0 where
  pub sock : Option String
  pub qemu_option : String
  pub qpair : ℕ
  pub backend_client_mode : Bool
  pub qemu_script_ifup : Option String
  pub qemu_script_ifdown : Option String

-- class VirtualInterface; `vhost` is `none` for a TapInterface. `ofp` and `vni` are numbers or texts.
pub record VirtualInterface : Type 0 where
  pub name : String
  pub idx : Option ℕ
  pub mac : Option String
  pub ofp : Value
  pub if_addr : Option InterfaceAddress
  pub restore_if_addr : Option InterfaceAddress
  pub vni : Value
  pub offload : Bool
  pub vhost : Option Vhost

unfoldable pub vhost_user_interface : String → ℕ → String → String → VirtualInterface
vhost_user_interface name idx mac ofp = record {
  name = name;
  idx = some idx;
  mac = some mac;
  ofp = str ofp;
  if_addr = none;
  restore_if_addr = none;
  vni = int vni_none;
  offload = true;
  vhost = some (record {
    sock = none;
    qemu_option = "";
    qpair = 1;
    backend_client_mode = true;
    qemu_script_ifup = none;
    qemu_script_ifdown = none;
  });
}

unfoldable pub tap_interface : String → ℕ → VirtualInterface
tap_interface name ofp = record {
  name = name;
  idx = none;
  mac = none;
  ofp = int ofp;
  if_addr = none;
  restore_if_addr = none;
  vni = int vni_none;
  offload = true;
  vhost = none;
}

-- `compare_networks` orders by the first address, then by the mask: it is 0 for equal networks only.
abbrev pub network_eq : Network → Network → Bool
network_eq a b = a.address == b.address && a.prefixlen == b.prefixlen

abbrev same_network : Option InterfaceAddress → Option InterfaceAddress → Result Bool
same_network (some a) (some b) = ok (network_eq a.ipv4_network b.ipv4_network)
same_network _ _ = err attribute_error

-- An interface with no address, such as a tap, has no `ipv4_network`.
unfoldable pub has_same_subnet : VirtualInterface → VirtualInterface → Result Bool
has_same_subnet v w = same_network v.if_addr w.if_addr
