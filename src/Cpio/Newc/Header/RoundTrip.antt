-- ===== src/Cpio/Newc/Header/RoundTrip.antt =====
-- The bytes of a `NewcHeader` of newc.rs, and their reading.
use apple_platform_rs.Base.{
  ℕ, ◌+◌, ◌%◌, ◌^◌, ◌<◌, ◌≡◌, ◌≢◌, true, [], ◌∷◌, ◌++◌, ok, length, All, Bytes, arith, is_utf8,
  from_utf8_lossy-utf8, append_assoc, length-append, replicate, length-replicate,
}
use apple_platform_rs.Cpio.Io.{read_exact-append}
use apple_platform_rs.Cpio.CStr.{from_bytes_with_nul-append}
use apple_platform_rs.Cpio.Newc.Header.{NewcHeader, magic, pad_to_4, from_reader}
use apple_platform_rs.Cpio.Newc.Header.Fields.{
  field, length-field, read_hex_u32-field, read_hex_u64-field,
}

-- The numbers fit eight digits, and the name is text with no NUL.
pub record IsReadable (h : NewcHeader) : Type 0 where
  pub inode_fits : h.inode < 2 ^ 32
  pub mode_fits : h.mode < 2 ^ 32
  pub uid_fits : h.uid < 2 ^ 32
  pub gid_fits : h.gid < 2 ^ 32
  pub nlink_fits : h.nlink < 2 ^ 32
  pub mtime_fits : h.mtime < 2 ^ 32
  pub size_fits : h.file_size < 2 ^ 32
  pub dev_major_fits : h.dev_major < 2 ^ 32
  pub dev_minor_fits : h.dev_minor < 2 ^ 32
  pub rdev_major_fits : h.rdev_major < 2 ^ 32
  pub rdev_minor_fits : h.rdev_minor < 2 ^ 32
  pub checksum_fits : h.checksum < 2 ^ 32
  pub name_fits : length h.name + 1 < 2 ^ 32
  pub name_text : is_utf8 h.name ≡ true
  pub name_whole : All (λ b. b ≢ 0) h.name

abbrev pub zeros : ℕ → Bytes
zeros n = replicate (pad_to_4 n) 0

-- The header behind the magic, with zeros up to a multiple of four.
unfoldable pub encoded_fields : NewcHeader → Bytes
encoded_fields h =
    field 8 h.inode
    ++ (field 8 h.mode
        ++ (field 8 h.uid
            ++ (field 8 h.gid
                ++ (field 8 h.nlink
                    ++ (field 8 h.mtime
                        ++ (field 8 h.file_size
                            ++ (field 8 h.dev_major
                                ++ (field 8 h.dev_minor
                                    ++ (field 8 h.rdev_major
                                        ++ (field 8 h.rdev_minor
                                            ++ (field 8 (length h.name + 1)
                                                ++ (field 8 h.checksum
                                                    ++ ((h.name ++ (0 ∷ []))
                                                        ++ zeros
                                                            (length h.name + 1 + 2))))))))))))))

abbrev pub encoded : NewcHeader → Bytes
encoded h = magic ++ encoded_fields h

pub pad_to_4_lem : (n : ℕ) → n < 2 ^ 63 → ((n + pad_to_4 n) % 4 ≡ 0) × (pad_to_4 n < 4)
unfolding pad_to_4
pad_to_4_lem n h = (omega arith, omega arith)

pub length-encoded : (h : NewcHeader) → IsReadable h → length (encoded h) % 4 ≡ 0
unfolding encoded_fields
length-encoded h w =
    simp (length-append, length-field, length-replicate)
      (omega (arith, (pad_to_4_lem (length h.name + 1 + 2) (omega (arith, w.name_fits))).0))

-- NewcHeader::from_reader reads the encoding of a header, behind the magic and with its name
-- padded, back to the header and leaves what follows, and magic and encoding together take a
-- multiple of four bytes, provided the numbers and the name's length fit 32 bits and the name is
-- UTF-8 without a NUL.
pub from_reader_aligned :
    (h : NewcHeader) (rest : Bytes)
    → IsReadable h
    → (from_reader (encoded_fields h ++ rest) ≡ (ok h, rest)) × (length (encoded h) % 4 ≡ 0)
unfolding from_reader encoded_fields
from_reader_aligned h rest w = (
  rw (
    append_assoc,
    read_hex_u32-field h.inode _ w.inode_fits,
    append_assoc,
    read_hex_u32-field h.mode _ w.mode_fits,
    append_assoc,
    read_hex_u32-field h.uid _ w.uid_fits,
    append_assoc,
    read_hex_u32-field h.gid _ w.gid_fits,
    append_assoc,
    read_hex_u32-field h.nlink _ w.nlink_fits,
    append_assoc,
    read_hex_u32-field h.mtime _ w.mtime_fits,
    append_assoc,
    read_hex_u64-field h.file_size _ w.size_fits,
    append_assoc,
    read_hex_u32-field h.dev_major _ w.dev_major_fits,
    append_assoc,
    read_hex_u32-field h.dev_minor _ w.dev_minor_fits,
    append_assoc,
    read_hex_u32-field h.rdev_major _ w.rdev_major_fits,
    append_assoc,
    read_hex_u32-field h.rdev_minor _ w.rdev_minor_fits,
    append_assoc,
    read_hex_u32-field (length h.name + 1) _ w.name_fits,
    append_assoc,
    read_hex_u32-field h.checksum _ w.checksum_fits,
    append_assoc,
    read_exact-append (length h.name + 1) (h.name ++ (0 ∷ [])) _ (length-append h.name (0 ∷ [])),
    from_bytes_with_nul-append h.name w.name_whole,
    length-append h.name (0 ∷ []),
    read_exact-append _ (zeros (length h.name + 1 + 2)) rest (length-replicate _ 0),
    from_utf8_lossy-utf8 h.name w.name_text,
  ),
  length-encoded h w,
)
