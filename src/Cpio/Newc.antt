-- ===== src/Cpio/Newc.antt =====
-- cpio-archive/src/newc.rs: the new ASCII format.
pub mod Header
pub mod Reader
mod Tests
