-- ===== src/Tests.antt =====
-- Small inputs, at which the theorems are applied.
mod Samples
mod SwitchTests
mod FlowTests
mod OverlayTests
mod PalTests
mod NatTests
mod TopologyTests
mod GuestTests
mod MachineTests
