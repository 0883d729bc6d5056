-- ===== src/Cpio/Tests.antt =====
-- Runs of the cpio code at concrete inputs, and its theorems there.
use apple_platform_rs.Base.{
  ◌↔◌, ◌⊎◌, ℕ, if◌then◌else◌, ◌+◌, ◌==◌, stuck, suc, ◌^◌, ◌<◌, ◌≡◌, ◌≢◌, refl, sym, ap, ◌∙◌, true,
  false, [], ◌∷◌, ◌++◌, none, some, ok, err, panic, pos, arith, length, All, Bytes, map, is_utf8,
  same, contains,
}
use apple_platform_rs.Cpio.Radix.{octal_digits, format_octal}
use apple_platform_rs.Cpio.Odc.Header.{write}
use apple_platform_rs.Cpio.Io.{write_all}
use apple_platform_rs.Base.{i64_pattern}
use apple_platform_rs.Cpio.Error.{bad_magic}
use apple_platform_rs.Cpio.Radix.{write_octal}
use apple_platform_rs.Cpio.Radix.Sizes.{write_octal_outcome}
use apple_platform_rs.Cpio.Io.{read_exact}
use apple_platform_rs.Cpio.Odc.Header.{OdcHeader, trailer, from_reader}
use apple_platform_rs.Cpio.Odc.Header.RoundTrip.{
  IsWritable, encoded, encoded_fields, from_reader-encoded,
}
use apple_platform_rs.Cpio.Odc.Path.{
  split, join, is_relative, normalize_archive_path, prefixes, parent_directories,
}
use apple_platform_rs.Cpio.Odc.Reader
use apple_platform_rs.Cpio.Odc.Reader.{
  OdcReader, next, item, read_next, find_header, finish, check_magic, open_entry, take_read, drain,
}
use apple_platform_rs.Cpio.Odc.Reader.Entry.{take_of, inside, ended, IsBefore, reads, reads_data}
use apple_platform_rs.Cpio.Odc.Reader.Archive.{
  ArchiveEntry, IsEntry, entries_bytes, extract, extract_archive, planned,
}
use apple_platform_rs.Cpio.Odc.Reader.Fused.{next_fused}
use apple_platform_rs.Cpio.Odc.Builder.{
  write_directory, next_header, on_writer, OdcBuilder, emit_parent_directories, emit_directories,
  emit_directory, append_file_from_data, append_file_manifest,
}
use apple_platform_rs.Cpio.Odc.Builder.Listing.{
  Settings, IsSettings, IsName, IsNewFile, empty, builder, add_directory, add_directories, add_file,
  add_files,
}
use apple_platform_rs.Cpio.Odc.Builder.Refinement.{Adds, append_file_from_data-Adds}
use apple_platform_rs.Cpio.Odc.Builder.Build.{
  ManifestFile, manifest_entry, new_file, append_file_manifest-Adds, made, build, archive_roundtrip,
}
use apple_platform_rs.Cpio.Odc.Reader.Total.{read_next_returns}
use apple_platform_rs.Base.Fallible.{Outcome}
use apple_platform_rs.Cpio.Error.{Error, size_mismatch, no_entry}
use apple_platform_rs.Cpio.Odc.Builder.{append_header_with_reader, append_file_from_path, File}
use apple_platform_rs.Cpio.Odc.Path.Prefixes.{IsParent}
use apple_platform_rs.Cpio.Odc.Builder.Parents.{emit_parent_directories-Seen}
use apple_platform_rs.Cpio.Odc.Builder.Again.{Seen}
use apple_platform_rs.Cpio.Odc.Builder.Raw.{
  raw_written, append_header_with_reader_outcome, append_file_from_path-Adds,
}

-- "d/x"
abbrev path : Bytes
path = 100 ∷ 47 ∷ 120 ∷ []

abbrev bytes : Bytes
bytes = 1 ∷ 2 ∷ 3 ∷ []

path_name : normalize_archive_path path ≡ 46 ∷ 47 ∷ path
unfolding normalize_archive_path is_relative
path_name = refl

path_parents : parent_directories (46 ∷ 47 ∷ path) ≡ (46 ∷ []) ∷ (46 ∷ 47 ∷ 100 ∷ []) ∷ []
unfolding parent_directories prefixes split join
path_parents = refl

-- A number that is as large as the bound of its field passes the test of `write_octal`.
write_octal_outcome_example : write_octal (8 ^ 6) 6 [] ≡ (panic, [])
write_octal_outcome_example = write_octal_outcome 5 (8 ^ 6) [] (omega arith)

abbrev example_header : OdcHeader
example_header = record {
  dev = 0;
  inode = 7;
  mode = 420;
  uid = 501;
  gid = 20;
  nlink = 1;
  rdev = 0;
  mtime = 1_700_000_000;
  file_size = 3;
  name = path;
}

example_header-IsWritable : IsWritable example_header
unfolding is_utf8
example_header-IsWritable = record {
  dev_fits = omega arith;
  inode_fits = omega arith;
  mode_fits = omega arith;
  uid_fits = omega arith;
  gid_fits = omega arith;
  nlink_fits = omega arith;
  rdev_fits = omega arith;
  mtime_fits = omega arith;
  size_fits = omega arith;
  name_fits = omega arith;
  name_text = refl;
  name_whole = (omega arith, (omega arith, (omega arith, tt)));
}

from_reader-encoded_example :
    from_reader (encoded_fields example_header ++ bytes) ≡ (ok example_header, bytes)
from_reader-encoded_example = from_reader-encoded example_header bytes example_header-IsWritable

reads_data_example :
    (s' : OdcReader) × (reads (2 ∷ 5 ∷ []) (inside (1 ∷ 2 ∷ 3 ∷ 48 ∷ 55 ∷ []) 3) ≡ (ok bytes, s'))
    × IsBefore (48 ∷ 55 ∷ []) s'
reads_data_example =
    reads_data (2 ∷ 5 ∷ []) (inside (1 ∷ 2 ∷ 3 ∷ 48 ∷ 55 ∷ []) 3)
      (take_of (1 ∷ 2 ∷ 3 ∷ 48 ∷ 55 ∷ []) 3) refl refl

abbrev example_entry : ArchiveEntry
example_entry = record { header = example_header; data' = bytes }

example_entry-IsEntry : IsEntry example_entry
example_entry-IsEntry = record {
  writable = example_header-IsWritable;
  sized = refl;
  named = λ e. absurd cc;
}

abbrev example_end : OdcHeader
example_end = record example_header { name = trailer; file_size = 0 }

example_end-IsWritable : IsWritable example_end
unfolding is_utf8
example_end-IsWritable = record {
  dev_fits = omega arith;
  inode_fits = omega arith;
  mode_fits = omega arith;
  uid_fits = omega arith;
  gid_fits = omega arith;
  nlink_fits = omega arith;
  rdev_fits = omega arith;
  mtime_fits = omega arith;
  size_fits = omega arith;
  name_fits = omega arith;
  name_text = refl;
  name_whole = (
    omega arith,
    (
      omega arith,
      (
        omega arith,
        (
          omega arith,
          (
            omega arith,
            (omega arith, (omega arith, (omega arith, (omega arith, (omega arith, tt))))),
          ),
        ),
      ),
    ),
  );
}

extract_archive_example :
    extract 2
      (λ h. 2 ∷ [])
      (Reader.new (entries_bytes (example_entry ∷ []) ++ (encoded example_end ++ [])))
    ≡ (ok ((example_header, 1 ∷ 2 ∷ []) ∷ []), ended)
extract_archive_example =
    extract_archive (λ h. 2 ∷ []) (example_entry ∷ []) example_end [] (example_entry-IsEntry, tt)
      example_end-IsWritable refl

abbrev no_archive : OdcReader
no_archive = Reader.new (1 ∷ 2 ∷ 3 ∷ 4 ∷ 5 ∷ 6 ∷ [])

no_archive_error : (next no_archive).0 ≡ some (err bad_magic)
unfolding next item read_next find_header finish check_magic same Reader.new read_exact
no_archive_error = refl

next_fused_example : next (next no_archive).1 ≡ (none, (next no_archive).1)
next_fused_example = next_fused no_archive (λ h e. absurd (distinct h (sym no_archive_error ∙ e)))
  where
    distinct : (h : OdcHeader) → some (err bad_magic) ≢ some (ok h)
    distinct h e = cc

-- A builder whose `auto_write_dirs` is switched off.
abbrev settings : Settings
settings = record {
  uid = 501;
  gid = 20;
  mtime = pos 5;
  mode_file = 420;
  mode_dir = 493;
  auto = false;
}

settings-IsSettings : IsSettings settings
settings-IsSettings = record {
  uid_fits = omega arith;
  gid_fits = omega arith;
  mode_file_fits = omega arith;
  mode_dir_fits = omega arith;
}

abbrev file : ManifestFile
file = record { path = path; executable = true; bytes = bytes }

short-IsName :
    (name : Bytes) → length name < 7 → is_utf8 name ≡ true → All (λ b. b ≢ 0) name → IsName name
short-IsName name l u z = record {
  fits = omega arith;
  text = u;
  whole = z;
  other = λ e. absurd (omega (arith, ap length e));
}

file-IsNewFile : IsNewFile (new_file file)
unfolding is_utf8
file-IsNewFile = record {
  mode_fits = omega arith;
  size_fits = omega arith;
  name_fits = rw path_name (short-IsName (46 ∷ 47 ∷ path) (omega arith) refl nul_free);
  parents_fit =
      rw (path_name, path_parents)
        (
          short-IsName (46 ∷ []) (omega arith) refl (omega arith, tt),
          (
            short-IsName (46 ∷ 47 ∷ 100 ∷ []) (omega arith) refl
                (omega arith, (omega arith, (omega arith, tt))),
            tt,
          ),
        );
}
  where
    nul_free : All (λ b. b ≢ 0) (46 ∷ 47 ∷ path)
    nul_free = (omega arith, (omega arith, (omega arith, (omega arith, (omega arith, tt)))))

-- Both directories and the file.
three_entries : length (add_file settings (new_file file) empty).entries ≡ 3
unfolding add_file add_directories add_directory contains same normalize_archive_path is_relative
    parent_directories prefixes split join
three_entries = refl

append_file_from_data-Adds_example :
    Adds settings
      (append_file_from_data path bytes 493)
      empty
      (add_file settings (new_file file) empty)
append_file_from_data-Adds_example =
    append_file_from_data-Adds settings (new_file file) empty settings-IsSettings file-IsNewFile
      (omega (arith, three_entries))

append_file_manifest-Adds_example :
    Adds settings
      (append_file_manifest (manifest_entry file ∷ []))
      empty
      (add_files settings (new_file file ∷ []) empty)
unfolding add_files
append_file_manifest-Adds_example =
    append_file_manifest-Adds settings (file ∷ []) empty settings-IsSettings (file-IsNewFile, tt)
      (omega (arith, three_entries))

made_entries : length (made (pos 5) 420 493 (file ∷ [])).entries ≡ 3
unfolding add_files add_file add_directories add_directory contains same normalize_archive_path
    is_relative parent_directories prefixes split join
made_entries = refl

archive_roundtrip_example :
    (archive : Bytes) × (build (pos 5) 420 493 (file ∷ []) ≡ ok archive)
    × (extract
          (suc (length (made (pos 5) 420 493 (file ∷ [])).entries))
          (λ h. h.file_size ∷ [])
          (Reader.new archive)
        ≡ (
          ok (map (planned (λ h. h.file_size ∷ [])) (made (pos 5) 420 493 (file ∷ [])).entries),
          ended,
        ))
archive_roundtrip_example =
    archive_roundtrip (λ h. h.file_size ∷ []) (pos 5) 420 493 (file ∷ []) (omega arith)
      (omega arith) (file-IsNewFile, tt) (omega (arith, made_entries))

abbrev done : OdcBuilder
done = record (builder settings empty) { finished = true }

abbrev seen : OdcBuilder
seen = record (builder settings empty) { seen_dirs = (46 ∷ []) ∷ (46 ∷ 47 ∷ 100 ∷ []) ∷ [] }

read_next_returns_example : ((read_next no_archive).0 ≢ panic) × ((read_next no_archive).0 ≢ stuck)
read_next_returns_example = read_next_returns no_archive

append_header_with_reader_outcome_example :
    append_header_with_reader example_header (1 ∷ []) done
    ≡ (err size_mismatch, raw_written example_header (1 ∷ []) done)
append_header_with_reader_outcome_example =
    append_header_with_reader_outcome example_header (1 ∷ []) done example_header-IsWritable

abbrev on_disk : File
on_disk = record { is_file = true; len = 3; is_executable = true; content = bytes }

abbrev file_system : ℕ → Outcome Error File
file_system n = if n == 4 then ok on_disk else err no_entry

append_file_from_path-Adds_example :
    Adds settings
      (append_file_from_path file_system (λ mode. mode + 73) path 4)
      empty
      (add_file settings (new_file file) empty)
append_file_from_path-Adds_example =
    append_file_from_path-Adds file_system (λ mode. mode + 73) settings path 4 on_disk empty refl
      refl refl settings-IsSettings file-IsNewFile (omega (arith, three_entries))

-- Only "." was seen: the header of "./d" is written, in 80 bytes.
abbrev root_seen : OdcBuilder
root_seen = record (builder settings empty) { seen_dirs = (46 ∷ []) ∷ [] }

emit_parent_directories-Seen_example :
    Seen (emit_parent_directories (46 ∷ 47 ∷ path) root_seen).1 (46 ∷ 47 ∷ 100 ∷ [])
    ↔ (Seen root_seen (46 ∷ 47 ∷ 100 ∷ []) ⊎ IsParent (46 ∷ 47 ∷ 100 ∷ []) (46 ∷ 47 ∷ path))
emit_parent_directories-Seen_example =
    emit_parent_directories-Seen (46 ∷ 47 ∷ path) (46 ∷ 47 ∷ 100 ∷ []) root_seen
      (emit_parent_directories (46 ∷ 47 ∷ path) root_seen).1 80 emitted
  where
    emitted :
        emit_parent_directories (46 ∷ 47 ∷ path) root_seen
        ≡ (ok 80, (emit_parent_directories (46 ∷ 47 ∷ path) root_seen).1)
    emitted =
        unfold emit_parent_directories emit_directories emit_directory parent_directories prefixes
          split join contains same write_directory next_header on_writer write write_octal
          octal_digits format_octal write_all i64_pattern in
        refl
