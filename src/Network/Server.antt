-- ===== src/Network/Server.antt =====
-- The handlers of `Server` in network/nettest.cc, one for each request code, and its main loop.
pub mod Relay
pub mod Locks
pub mod Conditions
pub mod Create
pub mod Destroy
pub mod Variables
pub mod Dispatch
