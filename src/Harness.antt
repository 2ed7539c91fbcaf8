-- ===== src/Harness.antt =====
-- ctest: what the accuracy and benchmark programs of the repository share.
pub mod Buffer
pub mod Corpus
pub mod Expanded
pub mod Half
pub mod Matrix
pub mod Operands
pub mod Oracles
pub mod Packed
pub mod Random
pub mod Report
pub mod Row
pub mod Sell
pub mod Solve
pub mod Triangle
pub mod Values
