-- ===== src/Cpio/Error.antt =====
-- cpio-archive/src/lib.rs: `Error`. Of the I/O errors, `unexpected_eof` is the one that the reader tells
-- apart, and `no_entry` the one that it makes.
use apple_platform_rs.Base.{Bytes}

pub data Error : Type 0 where
  unexpected_eof no_entry bad_magic bad_header_string : Error
  bad_header_hex : Bytes → Error
  filename_decode value_too_large size_mismatch not_a_file : Error
