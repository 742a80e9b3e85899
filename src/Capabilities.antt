-- ===== src/Capabilities.antt =====
-- capabilities
pub mod Required
pub mod Index
pub mod Extract
pub mod Matching
pub mod Com
pub mod Optimize
pub mod Build
pub mod Matcher
pub mod Driver
pub mod StaticAnalysis
pub mod SpanOfCalls
pub mod DynamicAnalysis
