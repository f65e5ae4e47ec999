-- ===== src/Reconciler.antt =====
-- The Observe → Compare → Act engine (internal/reconciler).
pub mod Compare
pub mod WriteOnlyHash
pub mod Types
pub mod Secrets
pub mod Step
pub mod Execute
pub mod Pool
pub mod Prune
pub mod Engine
