-- ===== src/SystemCalls.antt =====
-- The system calls on locks and condition variables of user programs, and copyin and copyout.
pub mod Objects
pub mod Locks
pub mod Conditions
pub mod Calls
pub mod Sound
pub mod Keeps
pub mod KeepsConditions
pub mod Reachable
pub mod Foreign
pub mod Creating
pub mod Dangling
pub mod Returning
pub mod Faultless
pub mod UserCopy
pub mod UserFaults
mod Examples
