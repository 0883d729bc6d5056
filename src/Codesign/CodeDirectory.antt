-- ===== src/Codesign/CodeDirectory.antt =====
-- apple-codesign/src/code_directory.rs: the code directory blob.
pub mod Data
pub mod Version
pub mod Slots
pub mod Serialize
pub mod Parse
pub mod RoundTrip
pub mod Sample
mod Tests
