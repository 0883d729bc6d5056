-- ===== src/Cpio/Newc/Tests.antt =====
-- Runs of the newc code at concrete inputs, and its theorems there.
use apple_platform_rs.Base.{◌%◌, ◌≡◌, refl, [], ◌∷◌, ◌++◌, ok, arith, length, is_utf8}
use apple_platform_rs.Cpio.Odc.Header.{trailer}
use apple_platform_rs.Cpio.Newc.Header.{NewcHeader, from_reader}
use apple_platform_rs.Cpio.Newc.Header.RoundTrip.{
  IsReadable, encoded, encoded_fields, from_reader_aligned,
}
use apple_platform_rs.Cpio.Newc.Reader
use apple_platform_rs.Cpio.Newc.Reader.Archive.{
  NewcEntry, IsEntry, entries_bytes, extract, ended, extract_newc_archive,
}

-- A file "d/x" of three bytes.
abbrev example_header : NewcHeader
example_header = record {
  inode = 7;
  mode = 33188;
  uid = 501;
  gid = 20;
  nlink = 1;
  mtime = 1_700_000_000;
  file_size = 3;
  dev_major = 8;
  dev_minor = 1;
  rdev_major = 0;
  rdev_minor = 0;
  checksum = 0;
  name = 100 ∷ 47 ∷ 120 ∷ [];
}

example_header-IsReadable : IsReadable example_header
unfolding is_utf8
example_header-IsReadable = record {
  inode_fits = omega arith;
  mode_fits = omega arith;
  uid_fits = omega arith;
  gid_fits = omega arith;
  nlink_fits = omega arith;
  mtime_fits = omega arith;
  size_fits = omega arith;
  dev_major_fits = omega arith;
  dev_minor_fits = omega arith;
  rdev_major_fits = omega arith;
  rdev_minor_fits = omega arith;
  checksum_fits = omega arith;
  name_fits = omega arith;
  name_text = refl;
  name_whole = (omega arith, (omega arith, (omega arith, tt)));
}

abbrev example_end : NewcHeader
example_end = record example_header { name = trailer; file_size = 0 }

example_end-IsReadable : IsReadable example_end
unfolding is_utf8
example_end-IsReadable = record {
  inode_fits = omega arith;
  mode_fits = omega arith;
  uid_fits = omega arith;
  gid_fits = omega arith;
  nlink_fits = omega arith;
  mtime_fits = omega arith;
  size_fits = omega arith;
  dev_major_fits = omega arith;
  dev_minor_fits = omega arith;
  rdev_major_fits = omega arith;
  rdev_minor_fits = omega arith;
  checksum_fits = omega arith;
  name_fits = omega arith;
  name_text = refl;
  name_whole = (
    omega arith,
    (
      omega arith,
      (
        omega arith,
        (
          omega arith,
          (
            omega arith,
            (omega arith, (omega arith, (omega arith, (omega arith, (omega arith, tt))))),
          ),
        ),
      ),
    ),
  );
}

abbrev example_entry : NewcEntry
example_entry = record { header = example_header; data' = 1 ∷ 2 ∷ 3 ∷ [] }

example_entry-IsEntry : IsEntry example_entry
example_entry-IsEntry = record {
  readable = example_header-IsReadable;
  sized = refl;
  named = λ e. absurd cc;
}

from_reader_aligned_example :
    (from_reader (encoded_fields example_header ++ (9 ∷ [])) ≡ (ok example_header, 9 ∷ []))
    × (length (encoded example_header) % 4 ≡ 0)
from_reader_aligned_example = from_reader_aligned example_header (9 ∷ []) example_header-IsReadable

extract_newc_archive_example :
    extract 2
      (λ h. 2)
      (Reader.new (entries_bytes (example_entry ∷ []) ++ (encoded example_end ++ [])))
    ≡ (ok ((example_header, 1 ∷ 2 ∷ []) ∷ []), ended)
extract_newc_archive_example =
    extract_newc_archive (λ h. 2) (example_entry ∷ []) example_end [] (example_entry-IsEntry, tt)
      example_end-IsReadable refl
