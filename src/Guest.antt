-- ===== src/Guest.antt =====
-- The commands in a guest, and how their outputs are read: class Guest and the functions in front of
-- it (resources/libraries/python/guest.py). The state is the list of the commands handed over so far.
pub mod Scan
pub mod Exec
pub mod Configure
pub mod Ping
pub mod Iperf
pub mod Udp
pub mod Netperf
pub mod Transfer
pub mod Outcomes
pub mod Summary
pub mod Rates
