-- ===== src/Tests.antt =====
-- Runs of the model over a provider in memory, and the theorems at concrete data.
pub mod Memory
mod Compare
mod Engine
mod Runs
mod Pools
mod Manifests
mod Loading
mod Cycle
mod Waiters
pub mod Wire
mod Traces
mod Grants
mod Settling
