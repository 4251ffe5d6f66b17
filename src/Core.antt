-- ===== src/Core.antt =====
-- src/core/ZmfCore.cpp and .hpp: the instance, which starts the services, runs the loop that
-- enables and disables the module, and answers the requests of the module and of other instances.
pub mod State
pub mod Switch
pub mod Running
pub mod Loop
pub mod Requests
pub mod Runs
pub mod Examples
