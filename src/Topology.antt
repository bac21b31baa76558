-- ===== src/Topology.antt =====
-- The constructor of class SUT (resources/libraries/python/topology.py), in the order of its text: the
-- specification of a node, the probes over ssh, the reservation for OVS-DPDK, the machines and their
-- addresses; then what the hand-out of processors and memory guarantees.
pub mod Spec
pub mod Probe
pub mod Nics
pub mod Reserve
pub mod Addresses
pub mod Machines
pub mod Construct
pub mod Conservation
pub mod Numbering
