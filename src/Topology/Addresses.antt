-- ===== src/Topology/Addresses.antt =====
-- SUT.__init__ (resources/libraries/python/topology.py): the names and addresses of machines and
-- interfaces, and of the node's tunnel end point.
use cne_ovs_sit.Base.{
  ℕ, ◌+◌, ◌*◌, ◌/◌, String, [], ◌∷◌, fstr, show, pad, hex_text, ltb, if◌then◌else◌, ◌&&◌, Result,
  ok, err, value_error, index_error,
}
use cne_ovs_sit.Constants.{ofp_vhost_base}
use cne_ovs_sit.Vif.{Network, InterfaceAddress}

-- `'{0:02d}'` and `'{0:03d}'`
abbrev dec : ℕ → ℕ → String
dec width n = pad width (show n)

-- `'{0:02x}'`
abbrev hex2 : ℕ → String
hex2 n = pad 2 (hex_text n)

unfoldable pub vm_name : ℕ → ℕ → String
unfolding pad show fstr
vm_name node_idx guest_idx = fstr ("vm_" ∷ dec 2 node_idx ∷ "_" ∷ dec 2 guest_idx ∷ [])

unfoldable pub vif_name : ℕ → ℕ → String
unfolding pad show fstr
vif_name node_idx if_idx = fstr ("vhost_" ∷ dec 2 node_idx ∷ dec 3 if_idx ∷ [])

unfoldable pub mac_of : ℕ → ℕ → ℕ → String
unfolding pad hex_text fstr
mac_of node_idx guest_idx i =
    fstr ("00:00:00:" ∷ hex2 node_idx ∷ ":" ∷ hex2 guest_idx ∷ ":" ∷ hex2 (i + 1) ∷ [])

unfoldable pub ofp_of : ℕ → String
unfolding show
ofp_of if_idx = show (ofp_vhost_base + if_idx)

-- 2001:1000:1000:1000::
abbrev net6 : ℕ
net6 = 42540812685481336902282386595240738816

-- The number of 172.(168 + i).node_idx.guest_idx
unfoldable pub ipv4_of : ℕ → ℕ → ℕ → ℕ
ipv4_of node_idx guest_idx i = ((172 * 256 + (168 + i)) * 256 + node_idx) * 256 + guest_idx

-- The number of 2001:1000:1000:1000:0:0:ac(168 + i):(node_idx)(guest_idx), each in two hex digits
unfoldable pub ipv6_of : ℕ → ℕ → ℕ → ℕ
ipv6_of node_idx guest_idx i = net6 + (((172 * 256 + (168 + i)) * 256 + node_idx) * 256 + guest_idx)

-- `IPv4Network(f"{ip}/16", strict=False)`, and with /112 for IPv6: the last 16 bits are cleared.
abbrev pub network_of : ℕ → ℕ → Network
network_of ip prefixlen = record { address = ip / 65536 * 65536; prefixlen = prefixlen }

-- IPv4Address takes no octet above 255.
unfoldable pub if_addr_of : ℕ → ℕ → ℕ → Result InterfaceAddress
unfolding ipv4_of ipv6_of
if_addr_of node_idx guest_idx i =
    if ltb (168 + i) 256 && (ltb node_idx 256 && ltb guest_idx 256)
    then ok (record {
      ipv4 = ipv4_of node_idx guest_idx i;
      ipv4_network = network_of (ipv4_of node_idx guest_idx i) 16;
      ipv6 = ipv6_of node_idx guest_idx i;
      ipv6_network = network_of (ipv6_of node_idx guest_idx i) 112;
    })
    else err value_error

-- 10.111.0.0/16 and 2001:1000:1000:1000:0:0:a6f:0/112
abbrev pub tep_netv4 : Network
tep_netv4 = record { address = (10 * 256 + 111) * 65536; prefixlen = 16 }

abbrev pub tep_netv6 : Network
tep_netv6 = record { address = net6 + (10 * 256 + 111) * 65536; prefixlen = 112 }

-- `list(network.hosts())[node_idx + 1]`: the hosts of an IPv4 network lie between its first and its
-- last address; an IPv6 network keeps its last one.
unfoldable pub tep_addr_of : ℕ → Result InterfaceAddress
tep_addr_of node_idx =
    if ltb (node_idx + 1) 65534
    then ok (record {
      ipv4 = tep_netv4.address + 1 + (node_idx + 1);
      ipv4_network = tep_netv4;
      ipv6 = tep_netv6.address + 1 + (node_idx + 1);
      ipv6_network = tep_netv6;
    })
    else err index_error
