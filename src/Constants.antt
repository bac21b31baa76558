-- ===== src/Constants.antt =====
-- class Constants (resources/libraries/python/constants.py): port numbers and OpenFlow tables.
use cne_ovs_sit.Base.{ℕ}

abbrev pub vni_none : ℕ
vni_none = 0

abbrev pub ofp_local : ℕ
ofp_local = 0

abbrev pub ofp_uplink_base : ℕ
ofp_uplink_base = 1

abbrev pub ofp_vhost_base : ℕ
ofp_vhost_base = 10

abbrev pub ofp_tunnel_base : ℕ
ofp_tunnel_base = 100

abbrev pub of_table_admiss : ℕ
of_table_admiss = 0

abbrev pub of_table_input : ℕ
of_table_input = 20

abbrev pub of_table_acl : ℕ
of_table_acl = 30

abbrev pub of_table_core : ℕ
of_table_core = 40

abbrev pub of_table_fib : ℕ
of_table_fib = 50

abbrev pub of_table_nat : ℕ
of_table_nat = 60

abbrev pub of_table_l2_match : ℕ
of_table_l2_match = 70

abbrev pub of_table_output : ℕ
of_table_output = 80
