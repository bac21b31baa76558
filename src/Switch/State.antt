-- ===== src/Switch/State.antt =====
-- The data of resources/libraries/python/vswitch.py: uplinks, tunnel ports, id allocators, bridges and
-- the state of a VirtualSwitch.
--
-- Interfaces and uplinks are shared objects: a bridge, a virtual machine and the switch hold the same
-- one. So they stand in a heap of the switch, and a reference is a position in it.
use cne_ovs_sit.Base.{
  ℕ, ◌+◌, ◌-◌, String, Bool, false, List, [], ◌∷◌, ◌++◌, Option, none, some, get_elem?, modify_at,
  range, fstr, Value, Action, index_error, pure, raise,
}
use cne_ovs_sit.Constants.{ofp_uplink_base, ofp_vhost_base, ofp_tunnel_base}
use cne_ovs_sit.Ssh.{Node, Call}
use cne_ovs_sit.Vif.{InterfaceAddress, VirtualInterface}

-- The bond's pseudo uplink has no PCI address.
pub record Uplink : Type 0 where
  pub pci_addr : Option String
  pub name : Option String
  pub ofp : Option ℕ
  pub n_queue_pair : Option String
  pub n_rxq_desc : Option String
  pub n_txq_desc : Option String

unfoldable pub new_uplink : Option String → Uplink
new_uplink pci_addr = record {
  pci_addr = pci_addr;
  name = none;
  ofp = none;
  n_queue_pair = none;
  n_rxq_desc = none;
  n_txq_desc = none;
}

-- A remote address, or the text 'flow'.
pub data Rip : Type 0 where
  flow : Rip
  address : ℕ → Rip

-- `ident` is the object's identity, which `list.remove` finds it by.
pub record TunnelPort : Type 0 where
  pub ident : ℕ
  pub name : String
  pub rip : Rip
  pub vni : Value
  pub ofp : ℕ

pub record IdAllocator : Type 0 where
  pub name : String
  pub ids : List ℕ

-- `list(range(min_id, max_id+1))`
unfoldable pub id_allocator : String → ℕ → ℕ → IdAllocator
id_allocator name min_id max_id = record { name = name; ids = range min_id (max_id + 1 - min_id) }

-- `ids.pop(0)`
unfoldable pub get_id : IdAllocator → Option (ℕ × IdAllocator)
get_id a = elim a.ids [ [] ↦ none | i ∷ rest ↦ some (i, record a { ids = rest }) ]

unfoldable pub put_id : IdAllocator → ℕ → IdAllocator
put_id a i = record a { ids = a.ids ++ i ∷ [] }

pub record Bridge : Type 0 where
  pub name : String
  pub vifs : List ℕ
  pub vnis : List (Value × List ℕ)
  pub uplinks : List ℕ
  pub tnl_ports : List TunnelPort
  pub with_md : Bool
  pub ofp_ids_uplink : IdAllocator
  pub ofp_ids_vif : IdAllocator
  pub ofp_ids_tunnel : IdAllocator

unfoldable pub new_bridge : String → Bridge
unfolding id_allocator
new_bridge name = record {
  name = name;
  vifs = [];
  vnis = [];
  uplinks = [];
  tnl_ports = [];
  with_md = false;
  ofp_ids_uplink = id_allocator (fstr (name ∷ " uplink" ∷ [])) ofp_uplink_base ofp_vhost_base;
  ofp_ids_vif = id_allocator (fstr (name ∷ " vif" ∷ [])) ofp_vhost_base ofp_tunnel_base;
  ofp_ids_tunnel =
      id_allocator (fstr (name ∷ " tunnel" ∷ [])) ofp_tunnel_base (ofp_tunnel_base + 100);
}

-- The classes OvsDpdk and OvsNative, which override the methods named `_impl`.
pub data Datapath : Type 0 where
  ovs_dpdk ovs_native : Datapath

-- What class OvsDpdk gets besides.
pub record AuxParams : Type 0 where
  pub socket_mem : String
  pub huge_mnt : String
  pub cpu_mask : String
  pub userspace_tso : Bool
  pub driver : String

-- `uplinks` are the configured ones; the heap also holds the pseudo uplinks of bonds.
pub record VirtualSwitch : Type 0 where
  pub datapath : Datapath
  pub ssh_info : Node
  pub tep_addr : InterfaceAddress
  pub ovs_bin_dir : String
  pub dpdk_devbind_full_cmd : String
  pub aux_params : Option AuxParams
  pub bridges : List Bridge
  pub uplinks : List ℕ
  pub uplink_heap : List Uplink
  pub vif_heap : List VirtualInterface
  pub next_ident : ℕ
  pub calls : List Call

abbrev pub Method : Type 0 → Type 0
Method A = Action VirtualSwitch A

-- Reading through a reference. References of the program are always live, so the error never shows.
unfoldable pub read_vif : ℕ → Method VirtualInterface
read_vif r s = elim (get_elem? s.vif_heap r) [ none ↦ raise index_error s | some v ↦ pure v s ]

unfoldable pub read_uplink : ℕ → Method Uplink
read_uplink r s = elim (get_elem? s.uplink_heap r) [
  | none ↦ raise index_error s
  | some u ↦ pure u s
]

-- Writing through the reference of a bridge or of an uplink.
abbrev pub update_bridge : ℕ → (Bridge → Bridge) → VirtualSwitch → VirtualSwitch
update_bridge b f s = record s { bridges = modify_at s.bridges b f }

abbrev pub update_uplink : ℕ → (Uplink → Uplink) → VirtualSwitch → VirtualSwitch
update_uplink r f s = record s { uplink_heap = modify_at s.uplink_heap r f }
