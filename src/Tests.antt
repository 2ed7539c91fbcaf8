-- ===== src/Tests.antt =====
-- Runs at concrete inputs: a machine with a byte array as memory, and the theorems applied on it.
mod Bench
mod Matrices
mod Operators
mod Descriptors
mod Solver
mod Products
mod Copies
mod Market
mod Harness
mod Hosts
