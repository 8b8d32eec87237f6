-- ===== src/Tests.antt =====
-- Runs of the definitions on concrete data, and the theorems at concrete inputs.
mod Fixtures
mod Transactions
mod Blocks
mod Days
mod Devices
mod Files
mod Generators
mod OsStreams
mod Sorts
mod Matrices
mod Chains
mod Workers
mod Streams
mod Chunks
mod Rewrites
mod Exercises
mod BlockHashes
