-- ===== src/Manifest.antt =====
-- Manifests: their types, the order of the kinds, the per-kind field tables, labels, references,
-- validation and composites (internal/manifest).
pub mod Kind
pub mod Resource
pub mod Order
pub mod WriteOnly
pub mod Labels
pub mod References
pub mod Constraint
pub mod SkillSpec
pub mod Validate
pub mod Composite
pub mod Loader
