-- ===== src/Cpio/Odc/Header.antt =====
-- `OdcHeader` of odc.rs: the header of an entry, read and written.
pub mod RoundTrip
use apple_platform_rs.Base.{
  ℕ, ◌+◌, ◌*◌, ◌%◌, ◌^◌, Bool, true, false, ◌&&◌, List, [], ◌∷◌, ◌++◌, ◌==◌, if◌then◌else◌, length,
  Bytes, ok_or, from_utf8_lossy,
}
use apple_platform_rs.Cpio.Error.{Error, filename_decode}
use apple_platform_rs.Cpio.Io.{M, ◌>>=◌, ◌>>◌, pure, lift, write_all, read_exact}
use apple_platform_rs.Cpio.Radix.{read_octal_u32, read_octal_u64, write_octal}
use apple_platform_rs.Cpio.CStr.{from_bytes_with_nul}

-- A name is its UTF-8 bytes.
pub record OdcHeader : Type 0 where
  pub dev : ℕ
  pub inode : ℕ
  pub mode : ℕ
  pub uid : ℕ
  pub gid : ℕ
  pub nlink : ℕ
  pub rdev : ℕ
  pub mtime : ℕ
  pub file_size : ℕ
  pub name : Bytes

-- "070707"
abbrev pub magic : Bytes
magic = 48 ∷ 55 ∷ 48 ∷ 55 ∷ 48 ∷ 55 ∷ []

-- "TRAILER!!!"
abbrev pub trailer : Bytes
trailer = 84 ∷ 82 ∷ 65 ∷ 73 ∷ 76 ∷ 69 ∷ 82 ∷ 33 ∷ 33 ∷ 33 ∷ []

unfoldable pub from_reader : M Bytes OdcHeader
from_reader = do
  dev ← read_octal_u32 6
  inode ← read_octal_u32 6
  mode ← read_octal_u32 6
  uid ← read_octal_u32 6
  gid ← read_octal_u32 6
  nlink ← read_octal_u32 6
  rdev ← read_octal_u32 6
  mtime ← read_octal_u32 11
  name_length ← read_octal_u32 6
  file_size ← read_octal_u64 11
  name_data ← read_exact name_length
  name ← lift (ok_or (from_bytes_with_nul name_data) filename_decode)
  pure record {
    dev = dev;
    inode = inode;
    mode = mode;
    uid = uid;
    gid = gid;
    nlink = nlink;
    rdev = rdev;
    mtime = mtime;
    file_size = file_size;
    name = from_utf8_lossy name;
  }

-- The number returned is the code's own count of the bytes written.
unfoldable pub write : OdcHeader → M Bytes ℕ
write h = do
  write_all magic
  write_octal h.dev 6
  write_octal h.inode 6
  write_octal h.mode 6
  write_octal h.uid 6
  write_octal h.gid 6
  write_octal h.nlink 6
  write_octal h.rdev 6
  write_octal h.mtime 11
  write_octal (length h.name + 1) 6
  write_octal h.file_size 11
  write_all h.name
  write_all (0 ∷ [])
  pure (9 * 6 + 11 * 2 + length h.name + 1)
