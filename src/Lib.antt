-- ===== src/Lib.antt =====
-- cne-ovs-sit, a library of system integration tests for Open vSwitch with OvsDpdk and OvsNative
-- datapaths: the logic of resources/libraries/python.
--
-- The program keeps for each node under test a VirtualSwitch with bridges, uplinks, interfaces and
-- tunnel ports (vswitch.py), runs commands on it over ssh (ssh.py), and writes OpenFlow tables as texts
-- (flowutils.py, conntrack.py, nat.py). The overlay (overlay.py) puts these together into deployments,
-- and the path abstraction layer (pal.py) computes which end points are to reach which.
--
-- Files and code:
--   Base, Base/*: texts, lists and statements that mutate a state and may raise. `Action S A` takes a
--     state to a result and a state: what was written before an exception stays written.
--   Constants: resources/libraries/python/constants.py.
--   Ssh: exec_cmd and kill_process of ssh.py. `Env.answer` says how a command ends; it stands for
--     paramiko and the machines. `Env.show_ipv4` and `Env.show_ipv6` stand for the ipaddress module.
--   Ssh/Connections: connect, disconnect and _reconnect of class SSH over the table of connections.
--   Vif: vif.py.
--   Switch/State, Exec, Vnis, Datapath, Bridges, Startup: vswitch.py. Objects that the
--     program shares (interfaces and uplinks) stand in a heap of the switch and are referred to by
--     their position; a bridge is referred to by its position among the switch's bridges.
--   Switch/Frames, Ids, Release, Reliable, Creation, Vnis/Grouping: proofs on tunnel ports and VNI
--     maps. Switch/Keeping: what starting and stopping leave alone.
--   Flow/Actions, Output, Input, Pipeline: flowutils.py. A flow is the text that the program makes.
--   Flow/Rules: a description of table OUTPUT as data, with its text. Flow/Refinement, Table, Headers,
--     Flooding, Tags: proofs that relate the texts and the description, and what the rules do.
--   Machine/State, Qmp, Boot, Power: vm.py. The parser of JSON and the time that a probe takes are
--     parameters.
--   Guest/Scan, Exec, Configure, Ping, Iperf, Udp, Netperf, Transfer: guest.py. A session is the list of
--     the commands handed over so far. Guest/Outcomes, Rates, Summary: proofs.
--   Topology/Spec, Probe, Nics, Reserve, Addresses, Machines, Construct: the constructor of class SUT and
--     the list of nodes of topology.py. Topology/Conservation, Numbering: proofs.
--   World: the list `suts` and class SUT of topology.py, as far as the other parts read it.
--   Overlay, Overlay/Assign: overlay.py. Overlay/Removal, Overlay/Assign/Effect, Unassigned: proofs.
--   Pal/Topology, Select, Setup, Traffic: pal.py. Pal/Reversal, Placed, Placement, Pairs:
--     proofs.
--   Conntrack: conntrack.py. Conntrack/Coverage: proofs.
--   Nat, Nat/Parser, Networks, Configure, Conns, Flows, Related, Verify: nat.py.
--     Nat/Heaps, Apart, Restoring, Termination, Roundtrip, Counting: proofs.
--   Tests: the theorems at small inputs.
--
-- Bounds and fuel: numbers are unbounded, as Python's are. Three loops are on fuel. One is
-- `delete_ports`, which walks by position over a list that its body shortens; the position rises in each round, so the
-- length of the list and one more round are enough. `parse` has rounds and nests that each take at
-- least a '=' off the text; the length of the text and one more are enough. `wait_from` has rounds of
-- five seconds at least; a fifth of the timeout and two more are enough.
--
-- Not modelled: the loop that polls a channel, interactive terminals, LXC and scp (ssh.py), which are
-- input and output of paramiko; the QEMU guest agent, qemu_cleanup and verify_active_rxq (vm.py), which
-- use attributes that are never set or only log; the reading of the YAML file (topology.py) and the entry
-- point (init.py). Pauses and log lines are left out, and so is what only feeds a log line.
pub mod Base
pub mod Constants
pub mod Ssh
pub mod Vif
pub mod Switch
pub mod Flow
pub mod Machine
pub mod World
pub mod Guest
pub mod Topology
pub mod Overlay
pub mod Pal
pub mod Conntrack
pub mod Nat
pub mod Tests
