-- ===== src/Cpio/Odc/Header/RoundTrip.antt =====
-- The bytes of an `OdcHeader` of odc.rs, and the round trip through `write` and `from_reader`.
use apple_platform_rs.Base.{
  ◌+◌, ◌*◌, ◌^◌, ◌<◌, ◌≡◌, ◌≢◌, true, [], ◌∷◌, ◌++◌, ok, length, All, Bytes, IsU32, arith, is_utf8,
  from_utf8_lossy-utf8, append_assoc, length-append,
}
use apple_platform_rs.Cpio.Io.{read_exact-append}
use apple_platform_rs.Cpio.Radix.Octal.{
  field, length-field, write_octal-field, read_octal_u32-field, read_octal_u64-field,
}
use apple_platform_rs.Cpio.CStr.{from_bytes_with_nul-append}
use apple_platform_rs.Cpio.Odc.Header.{OdcHeader, magic, from_reader, write}

-- The numbers fit their fields, and the name is text with no NUL.
pub record IsWritable (h : OdcHeader) : Type 0 where
  pub dev_fits : h.dev < 8 ^ 6
  pub inode_fits : h.inode < 8 ^ 6
  pub mode_fits : h.mode < 8 ^ 6
  pub uid_fits : h.uid < 8 ^ 6
  pub gid_fits : h.gid < 8 ^ 6
  pub nlink_fits : h.nlink < 8 ^ 6
  pub rdev_fits : h.rdev < 8 ^ 6
  pub mtime_fits : IsU32 h.mtime
  pub size_fits : h.file_size < 8 ^ 11
  pub name_fits : length h.name + 1 < 8 ^ 6
  pub name_text : is_utf8 h.name ≡ true
  pub name_whole : All (λ b. b ≢ 0) h.name

-- The header behind the magic.
unfoldable pub encoded_fields : OdcHeader → Bytes
encoded_fields h =
    field 6 h.dev
    ++ (field 6 h.inode
        ++ (field 6 h.mode
            ++ (field 6 h.uid
                ++ (field 6 h.gid
                    ++ (field 6 h.nlink
                        ++ (field 6 h.rdev
                            ++ (field 11 h.mtime
                                ++ (field 6 (length h.name + 1)
                                    ++ (field 11 h.file_size ++ (h.name ++ (0 ∷ [])))))))))))

abbrev pub encoded : OdcHeader → Bytes
encoded h = magic ++ encoded_fields h

pub length-encoded : (h : OdcHeader) → length (encoded h) ≡ 9 * 6 + 11 * 2 + length h.name + 1
unfolding encoded_fields
length-encoded h = simp (length-append, length-field) (omega arith)

-- OdcHeader::write appends the magic and the encoding of a header to what was written and returns
-- 76 plus the length of the name and its NUL, provided the numbers and the name fit their fields.
pub write-encoded :
    (h : OdcHeader) (written : Bytes)
    → IsWritable h
    → write h written ≡ (ok (9 * 6 + 11 * 2 + length h.name + 1), written ++ encoded h)
unfolding write encoded_fields
write-encoded h written w =
    rw
      (
        write_octal-field 5 h.dev _ (omega arith) w.dev_fits,
        write_octal-field 5 h.inode _ (omega arith) w.inode_fits,
        write_octal-field 5 h.mode _ (omega arith) w.mode_fits,
        write_octal-field 5 h.uid _ (omega arith) w.uid_fits,
        write_octal-field 5 h.gid _ (omega arith) w.gid_fits,
        write_octal-field 5 h.nlink _ (omega arith) w.nlink_fits,
        write_octal-field 5 h.rdev _ (omega arith) w.rdev_fits,
        write_octal-field 10 h.mtime _ (omega arith) (omega arith),
        write_octal-field 5 (length h.name + 1) _ (omega arith) w.name_fits,
        write_octal-field 10 h.file_size _ (omega arith) w.size_fits,
      )
      (simp append_assoc)

-- OdcHeader::from_reader reads the encoding of a header, behind the magic, back to the header and
-- leaves what follows, provided the numbers and the name fit their fields and the name is UTF-8
-- without a NUL.
pub from_reader-encoded :
    (h : OdcHeader) (rest : Bytes)
    → IsWritable h
    → from_reader (encoded_fields h ++ rest) ≡ (ok h, rest)
unfolding from_reader encoded_fields
from_reader-encoded h rest w = rw (
  append_assoc,
  read_octal_u32-field 5 h.dev _ w.dev_fits (omega (arith, w.dev_fits)),
  append_assoc,
  read_octal_u32-field 5 h.inode _ w.inode_fits (omega (arith, w.inode_fits)),
  append_assoc,
  read_octal_u32-field 5 h.mode _ w.mode_fits (omega (arith, w.mode_fits)),
  append_assoc,
  read_octal_u32-field 5 h.uid _ w.uid_fits (omega (arith, w.uid_fits)),
  append_assoc,
  read_octal_u32-field 5 h.gid _ w.gid_fits (omega (arith, w.gid_fits)),
  append_assoc,
  read_octal_u32-field 5 h.nlink _ w.nlink_fits (omega (arith, w.nlink_fits)),
  append_assoc,
  read_octal_u32-field 5 h.rdev _ w.rdev_fits (omega (arith, w.rdev_fits)),
  append_assoc,
  read_octal_u32-field 10 h.mtime _ (omega arith) (omega arith),
  append_assoc,
  read_octal_u32-field 5 (length h.name + 1) _ w.name_fits (omega (arith, w.name_fits)),
  append_assoc,
  read_octal_u64-field 10 h.file_size _ w.size_fits (omega (arith, w.size_fits)),
  read_exact-append (length h.name + 1) (h.name ++ (0 ∷ [])) rest (length-append h.name (0 ∷ [])),
  from_bytes_with_nul-append h.name w.name_whole,
  from_utf8_lossy-utf8 h.name w.name_text,
)
