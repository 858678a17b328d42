-- ===== src/Model.antt =====
-- src/model: the values that plans and tasks are made of.
pub mod RelativePath
pub mod FileIdentity
pub mod Task
pub mod Capability
pub mod LogicalAsset
pub mod PathMapper
pub mod DiffEngine
pub mod CanonicalPlan
pub mod PlanArtifact
pub mod Metadata
pub mod TaskKey
pub mod LossAnalysis
pub mod Provenance
