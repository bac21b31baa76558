-- ===== src/Pal.antt =====
-- Verify topologies (resources/libraries/python/pal.py).
pub mod Topology
pub mod Select
pub mod Reversal
pub mod Placed
pub mod Placement
pub mod Pairs
pub mod Setup
pub mod Traffic
