-- ===== src/Flow.antt =====
-- The OpenFlow tables of the bridges (resources/libraries/python/flowutils.py).
pub mod Actions
pub mod Output
pub mod Input
pub mod Pipeline
pub mod Rules
pub mod Refinement
pub mod Headers
pub mod Flooding
pub mod Tags
pub mod Table
