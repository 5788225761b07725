-- ===== src/Registry.antt =====
-- src/ida_multi_mcp/registry.py: the registry of IDA instances, a JSON file shared by processes,
-- with a read cache in each process.
pub mod Schema
pub mod Disk
pub mod Changes
pub mod Api
pub mod Invariant
pub mod Stale
pub mod Expiry
pub mod Coherence
pub mod Valid
pub mod Refinement
pub mod Safety
mod Tests
