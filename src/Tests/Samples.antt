-- ===== src/Tests/Samples.antt =====
-- A network of two nodes with a bridge and two interfaces each.
use cne_ovs_sit.Base.{ℕ, String, List, [], ◌∷◌, pos, none, some, Value, int, str, false, true}
use cne_ovs_sit.Ssh.{Node, Reply, done, Env}
use cne_ovs_sit.Vif.{Network, InterfaceAddress, VirtualInterface}
use cne_ovs_sit.Switch.State.{flow, TunnelPort, IdAllocator, Bridge, ovs_dpdk, VirtualSwitch}
use cne_ovs_sit.Flow.Output.{View}
use cne_ovs_sit.Machine.State.{add_vif, new_machine}
use cne_ovs_sit.World.{VirtualMachine, Sut, World}

abbrev pub good_reply : Reply
good_reply = record { ret_code = pos 0; stdout = ""; stderr = "" }

abbrev pub env : Env
env = record {
  answer = λ calls call. done good_reply;
  show_ipv4 = λ a. "1.1.1.1";
  show_ipv6 = λ a. "::1";
}

abbrev pub node : Node
node = record { host = "10.0.0.1"; port = 22; username = "u"; password = "p" }

abbrev pub net : Network
net = record { address = 1000; prefixlen = 24 }

abbrev pub addr : ℕ → InterfaceAddress
addr n = record { ipv4 = n; ipv4_network = net; ipv6 = n; ipv6_network = net }

abbrev pub face : String → ℕ → Value → VirtualInterface
face name ofp vni = record {
  name = name;
  idx = some 0;
  mac = some "52:54:00:00:00:01";
  ofp = int ofp;
  if_addr = some (addr ofp);
  restore_if_addr = none;
  vni = vni;
  offload = true;
  vhost = none;
}

abbrev pub port : ℕ → ℕ → TunnelPort
port ident ofp = record { ident = ident; name = "vxlan"; rip = flow; vni = str "flow"; ofp = ofp }

abbrev pub allocator : List ℕ → IdAllocator
allocator ids = record { name = "br0"; ids = ids }

abbrev pub br0 : Bridge
br0 = record {
  name = "br0";
  vifs = 0 ∷ 1 ∷ [];
  vnis = (int 5, 0 ∷ 1 ∷ []) ∷ [];
  uplinks = [];
  tnl_ports = port 0 100 ∷ port 1 101 ∷ [];
  with_md = false;
  ofp_ids_uplink = allocator (1 ∷ []);
  ofp_ids_vif = allocator (10 ∷ []);
  ofp_ids_tunnel = allocator (102 ∷ []);
}

abbrev pub faces : List VirtualInterface
faces = face "vnic0" 10 (int 5) ∷ face "vnic1" 11 (int 5) ∷ []

abbrev pub switch : VirtualSwitch
switch = record {
  datapath = ovs_dpdk;
  ssh_info = node;
  tep_addr = addr 1;
  ovs_bin_dir = "/usr/bin";
  dpdk_devbind_full_cmd = "/root/bin/dpdk-devbind.py";
  aux_params = none;
  bridges = br0 ∷ [];
  uplinks = [];
  uplink_heap = [];
  vif_heap = faces;
  next_ident = 2;
  calls = [];
}

abbrev pub view0 : View
view0 = record { env = env; remotes = 2 ∷ []; vif_heap = faces; uplink_heap = []; bridge = br0 }

unfoldable pub vm : VirtualMachine
unfolding add_vif new_machine
vm = add_vif 0 (new_machine "vm0" 1 1048576 (2 ∷ []) "/dev/hugepages" node "/root/" false)

abbrev pub sut : Sut
sut = record {
  name = "SUT";
  numas = record { numa_id = 0; avail_cpus = []; avail_mem = 0; vms = vm ∷ [] } ∷ [];
  vms = [];
  vswitch = switch;
}

abbrev pub suts : World
suts = sut ∷ sut ∷ []
