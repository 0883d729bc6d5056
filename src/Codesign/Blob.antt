-- ===== src/Codesign/Blob.antt =====
-- apple-codesign/src/embedded_signature.rs: blobs and the superblob of an embedded signature.
pub mod CodeSigningMagic
pub mod CodeSigningSlot
pub mod Header
pub mod SuperBlob
mod Tests
