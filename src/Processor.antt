-- ===== src/Processor.antt =====
-- The simulated processor of machine/mipssim.cc and machine/machine.cc.
pub mod Words
pub mod Registers
pub mod Tables
pub mod Step
pub mod Rounds
pub mod Products
pub mod Accesses
pub mod Sound
pub mod Fair
pub mod Running
mod Examples
pub mod Performing
pub mod Finishing
pub mod Executing
pub mod Decoding
pub mod Computing
pub mod Bits
pub mod Overflow
pub mod Execute
pub mod Multiply
