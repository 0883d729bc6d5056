-- ===== src/Cpio/Newc/Header.antt =====
-- `NewcHeader` of newc.rs, read.
pub mod Fields
pub mod RoundTrip
use apple_platform_rs.Base.{ℕ, ◌+◌, ◌-◌, ◌%◌, ◌^◌, [], ◌∷◌, length, Bytes, ok_or, from_utf8_lossy}
use apple_platform_rs.Cpio.Error.{Error, filename_decode}
use apple_platform_rs.Cpio.Io.{M, ◌>>=◌, ◌>>◌, pure, lift, read_exact}
use apple_platform_rs.Cpio.Radix.{read_hex_u32, read_hex_u64}
use apple_platform_rs.Cpio.CStr.{from_bytes_with_nul}

-- A name is its UTF-8 bytes.
pub record NewcHeader : Type 0 where
  pub inode : ℕ
  pub mode : ℕ
  pub uid : ℕ
  pub gid : ℕ
  pub nlink : ℕ
  pub mtime : ℕ
  pub file_size : ℕ
  pub dev_major : ℕ
  pub dev_minor : ℕ
  pub rdev_major : ℕ
  pub rdev_minor : ℕ
  pub checksum : ℕ
  pub name : Bytes

-- "070701"
abbrev pub magic : Bytes
magic = 48 ∷ 55 ∷ 48 ∷ 55 ∷ 48 ∷ 49 ∷ []

-- `n.wrapping_neg() % 4`
unfoldable pub pad_to_4 : ℕ → ℕ
pad_to_4 n = (2 ^ 64 - n % 2 ^ 64) % 2 ^ 64 % 4

unfoldable pub from_reader : M Bytes NewcHeader
from_reader = do
  inode ← read_hex_u32 8
  mode ← read_hex_u32 8
  uid ← read_hex_u32 8
  gid ← read_hex_u32 8
  nlink ← read_hex_u32 8
  mtime ← read_hex_u32 8
  file_size ← read_hex_u64 8
  dev_major ← read_hex_u32 8
  dev_minor ← read_hex_u32 8
  rdev_major ← read_hex_u32 8
  rdev_minor ← read_hex_u32 8
  name_length ← read_hex_u32 8
  checksum ← read_hex_u32 8
  name_data ← read_exact name_length
  name ← lift (ok_or (from_bytes_with_nul name_data) filename_decode)
  pad ← read_exact (pad_to_4 (length name_data + 2))
  pure record {
    inode = inode;
    mode = mode;
    uid = uid;
    gid = gid;
    nlink = nlink;
    mtime = mtime;
    file_size = file_size;
    dev_major = dev_major;
    dev_minor = dev_minor;
    rdev_major = rdev_major;
    rdev_minor = rdev_minor;
    checksum = checksum;
    name = from_utf8_lossy name;
  }
