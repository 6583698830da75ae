-- ===== src/VirtualMemory.antt =====
-- The virtual memory: translation of addresses, page faults, and the switch between processes.
pub mod State
pub mod Translate
pub mod PageFault
pub mod Coherent
pub mod Searches
pub mod Evictions
pub mod Refill
pub mod Handling
pub mod Spaces
pub mod System
pub mod Lookup
pub mod Isolation
pub mod Switches
pub mod Retry
pub mod Completes
pub mod Swap
pub mod Memory
pub mod Examples
