-- ===== src/Machine.antt =====
-- A virtual machine (resources/libraries/python/vm.py): its state, and its life from start to poweroff.
pub mod State
pub mod Qmp
pub mod Boot
pub mod Power
