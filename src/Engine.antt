-- ===== src/Engine.antt =====
-- engine
pub mod FeatureSet
pub mod MatchResult
pub mod Leaves
pub mod Evaluate
pub mod Merge
pub mod Boolean
pub mod Agreement
pub mod Meaning
pub mod Namespaces
