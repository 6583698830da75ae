-- ===== src/Network/Examples.antt =====
-- Tests of the server and its handler, and the theorems at concrete inputs.
mod Data
mod Requests
mod Faults
mod Votes
