-- ===== src/Cpio.antt =====
-- cpio-archive: reading and writing cpio archives.
pub mod Error
pub mod Io
pub mod Radix
pub mod CStr
pub mod Odc
pub mod Newc
mod Tests
