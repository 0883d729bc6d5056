-- ===== src/Codesign/Requirement.antt =====
-- apple-codesign/src/code_requirement.rs: the binary form of code requirement expressions.
pub mod Chrono
pub mod RequirementType
pub mod RequirementOpCode
pub mod MatchType
pub mod Data
pub mod Syntax
pub mod Match
pub mod Expression
pub mod Set
mod Tests
