-- ===== src/Cpio/Odc.antt =====
-- cpio-archive/src/odc.rs: the portable ASCII format.
pub mod Header
pub mod Reader
pub mod Path
pub mod Builder
