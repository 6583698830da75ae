-- ===== src/LinkedLists.antt =====
-- The linked lists of threads/list.cc, which all queues of the kernel are made of.
pub mod Nodes
pub mod Sequence
pub mod Chains
pub mod Inserting
pub mod Effects
pub mod Refines
pub mod Sorted
mod Examples
