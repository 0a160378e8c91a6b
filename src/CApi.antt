-- ===== src/CApi.antt =====
-- src/c_bindings: the C interface, its memory and its results.
pub mod Heap
pub mod JobCounts
pub mod ResourceInfo
pub mod Calls
pub mod Timestamps
pub mod Handles
