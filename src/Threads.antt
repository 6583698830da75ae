-- ===== src/Threads.antt =====
-- threads/: the ready list and the switch between threads (scheduler.cc, thread.cc), and semaphores,
-- locks and condition variables on top of them (synch.cc).
pub mod Kernel
pub mod Semaphore
pub mod Lock
pub mod Condition
pub mod Inv
pub mod Moves
pub mod Parking
pub mod System
pub mod Calls
pub mod Safety
pub mod Wakeups
pub mod Untouched
pub mod Ownership
mod Examples
