-- ===== src/Network.antt =====
-- network/nettest.cc: the lock server and its message handler.
pub mod Message
pub mod State
pub mod Server
pub mod Handler
pub mod Bounds
pub mod Names
pub mod Ensures
pub mod Keeps
pub mod Invariant
pub mod Reachable
pub mod Identity
pub mod Line
pub mod Fifo
pub mod Values
pub mod NullSignal
pub mod Stranded
pub mod Voting
pub mod Asking
pub mod Capacity
pub mod Total
pub mod Grants
pub mod Stuck
pub mod Creation
mod Examples
