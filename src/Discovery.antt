-- ===== src/Discovery.antt =====
-- src/discovery_implementation/PeerDiscoveryService.cpp and .hpp, with
-- src/discovery/IPeerDiscoveryCoreInterface.hpp as the function that a section takes.
-- One thread runs the loop, and all changes of the registry are made by it. What the socket and the
-- clock do enters as arguments: whether the network set-up threw, the random identifier, the time
-- that has passed, the broadcast that came in. Log lines and waits are not modelled.
pub mod State
pub mod Service
pub mod Kept
pub mod Receive
pub mod Timeouts
pub mod Runs
pub mod Examples
