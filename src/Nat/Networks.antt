-- ===== src/Nat/Networks.antt =====
-- The networks and addresses of the NAT tests (resources/libraries/python/nat.py). `net_elem n i` is the
-- address `n[i]`.
use cne_ovs_sit.Base.{ℕ, ◌+◌, ◌*◌, String}
use cne_ovs_sit.Vif.{Network}

abbrev pub net_elem : Network → ℕ → ℕ
net_elem n i = n.address + i

-- 2001:1000:1000:1000::
abbrev prefix6 : ℕ
prefix6 = 42540812685481336902282386595240738816

-- 172.10.0.0/16 and 2001:1000:1000:1000:0:0:ac0a::/112
abbrev pub nat_client_netv4 : Network
nat_client_netv4 = record { address = (172 * 256 + 10) * 65536; prefixlen = 16 }

abbrev pub nat_client_netv6 : Network
nat_client_netv6 = record { address = prefix6 + (172 * 256 + 10) * 65536; prefixlen = 112 }

-- 192.200.0.0/16 and 2001:1000:1000:1000:0:0:c0c8::/112
abbrev pub nat_server_netv4 : Network
nat_server_netv4 = record { address = (192 * 256 + 200) * 65536; prefixlen = 16 }

abbrev pub nat_server_netv6 : Network
nat_server_netv6 = record { address = prefix6 + (192 * 256 + 200) * 65536; prefixlen = 112 }

abbrev pub nat_snat_addr_idx_start : ℕ
nat_snat_addr_idx_start = 10

abbrev pub nat_snat_addr_num : ℕ
nat_snat_addr_num = 10

abbrev pub nat_endpoint_addr_idx_start : ℕ
nat_endpoint_addr_idx_start = 100

abbrev pub nat_snat_port_start : ℕ
nat_snat_port_start = 10001

abbrev pub nat_router_cif_mac : String
nat_router_cif_mac = "80:88:88:88:88:88"

abbrev pub nat_router_sif_mac : String
nat_router_sif_mac = "60:66:66:66:66:66"

abbrev pub nat_router_cif_ipv4 : ℕ
nat_router_cif_ipv4 = net_elem nat_client_netv4 1

abbrev pub nat_router_cif_ipv6 : ℕ
nat_router_cif_ipv6 = net_elem nat_client_netv6 1

abbrev pub nat_router_sif_ipv4 : ℕ
nat_router_sif_ipv4 = net_elem nat_server_netv4 1

abbrev pub nat_router_sif_ipv6 : ℕ
nat_router_sif_ipv6 = net_elem nat_server_netv6 1
