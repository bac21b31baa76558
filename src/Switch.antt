-- ===== src/Switch.antt =====
-- The virtual switch of a host (resources/libraries/python/vswitch.py).
pub mod State
pub mod Exec
pub mod Vnis
pub mod Datapath
pub mod Bridges
pub mod Frames
pub mod Ids
pub mod Release
pub mod Reliable
pub mod Creation
pub mod Startup
pub mod Keeping
