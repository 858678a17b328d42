-- ===== src/Tests.antt =====
-- Runs of the model on concrete inputs.
pub mod Data
pub mod Values
pub mod Stores
pub mod Ends
pub mod Graph
pub mod Planning
pub mod Queue
pub mod Plans
pub mod Metadata
pub mod TaskKey
pub mod Losses
