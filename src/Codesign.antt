-- ===== src/Codesign.antt =====
-- apple-codesign: code signing primitives.
pub mod Error
pub mod DigestType
pub mod Target
pub mod Blob
pub mod Requirement
pub mod CodeDirectory
pub mod RequirementSet
pub mod BlobData
pub mod Signature
pub mod Builder
