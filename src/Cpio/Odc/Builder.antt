-- ===== src/Cpio/Odc/Builder.antt =====
-- `OdcBuilder` of odc.rs, writing into memory.
pub mod Listing
pub mod Refinement
pub mod Build
pub mod Again
pub mod Raw
pub mod Parents
use apple_platform_rs.Base.{
  ℕ, suc, ◌+◌, ◌%◌, ◌^◌, Bool, true, false, not, List, [], ◌∷◌, ◌++◌, ◌==◌, if◌then◌else◌, length,
  Bytes, ok, err, contains, ℤ, i64_pattern,
}
use apple_platform_rs.Base.Fallible.{Outcome}
use apple_platform_rs.Cpio.Error.{Error, size_mismatch, not_a_file}
use apple_platform_rs.Cpio.Io.{M, ◌>>=◌, ◌>>◌, pure, lift, write_all}
use apple_platform_rs.Cpio.Odc.Header.{OdcHeader, trailer, write}
use apple_platform_rs.Cpio.Odc.Path.{normalize_archive_path, parent_directories}

-- `default_mtime` is its Unix timestamp; `seen_dirs` is the set as a list.
pub record OdcBuilder : Type 0 where
  pub writer : Bytes
  pub default_uid : ℕ
  pub default_gid : ℕ
  pub default_mtime : ℤ
  pub default_mode_file : ℕ
  pub default_mode_dir : ℕ
  pub auto_write_dirs : Bool
  pub seen_dirs : List Bytes
  pub entry_count : ℕ
  pub finished : Bool

-- The clock and the modes, made of the constants of `simple_file_manifest`, are parameters.
unfoldable pub new : ℤ → ℕ → ℕ → Bytes → OdcBuilder
new now mode_file mode_dir writer = record {
  writer = writer;
  default_uid = 0;
  default_gid = 0;
  default_mtime = now;
  default_mode_file = mode_file;
  default_mode_dir = mode_dir;
  auto_write_dirs = true;
  seen_dirs = [];
  entry_count = 0;
  finished = false;
}

unfoldable pub default_mode_file : ℕ → M OdcBuilder (Unit {0})
default_mode_file mode s = (ok tt, record s { default_mode_file = mode })

unfoldable pub default_mode_directory : ℕ → M OdcBuilder (Unit {0})
default_mode_directory mode s = (ok tt, record s { default_mode_dir = mode })

unfoldable pub default_user_id : ℕ → M OdcBuilder (Unit {0})
default_user_id uid s = (ok tt, record s { default_uid = uid })

unfoldable pub default_group_id : ℕ → M OdcBuilder (Unit {0})
default_group_id gid s = (ok tt, record s { default_gid = gid })

unfoldable pub default_mtime : ℤ → M OdcBuilder (Unit {0})
default_mtime mtime s = (ok tt, record s { default_mtime = mtime })

unfoldable pub auto_write_dirs : Bool → M OdcBuilder (Unit {0})
auto_write_dirs value s = (ok tt, record s { auto_write_dirs = value })

-- A method of the writer.
unfoldable pub on_writer : {A : Type 0} → M Bytes A → M OdcBuilder A
on_writer m s = ((m s.writer).0, record s { writer = (m s.writer).1 })

-- The count wraps, as in a release build.
unfoldable pub next_header : M OdcBuilder OdcHeader
next_header s = (
  ok record {
    dev = 0;
    inode = s.entry_count;
    mode = s.default_mode_file;
    uid = s.default_uid;
    gid = s.default_gid;
    nlink = 0;
    rdev = 0;
    mtime = i64_pattern s.default_mtime % 2 ^ 32;
    file_size = 0;
    name = [];
  },
  record s { entry_count = (s.entry_count + 1) % 2 ^ 32 },
)

abbrev mark_seen : Bytes → M OdcBuilder (Unit {0})
mark_seen dir s = (ok tt, record s { seen_dirs = dir ∷ s.seen_dirs })

unfoldable pub write_directory : Bytes → M OdcBuilder ℕ
write_directory dir s =
    (do
      header ← next_header
      count ← on_writer (write (record header { mode = s.default_mode_dir; name = dir }))
      mark_seen dir
      pure count)
      s

-- The body of the loop of `emit_parent_directories`.
unfoldable pub emit_directory : Bytes → M OdcBuilder ℕ
emit_directory dir s = if contains s.seen_dirs dir then (ok 0, s) else write_directory dir s

unfoldable pub emit_directories : List Bytes → M OdcBuilder ℕ
emit_directories [] = pure 0
emit_directories (dir ∷ dirs) = do
  count ← emit_directory dir
  rest ← emit_directories dirs
  pure (count + rest)

unfoldable pub emit_parent_directories : Bytes → M OdcBuilder ℕ
emit_parent_directories file_path = emit_directories (parent_directories file_path)

unfoldable pub append_header_with_data : OdcHeader → Bytes → M OdcBuilder ℕ
append_header_with_data header bytes =
    if not (header.file_size == length bytes) then lift (err size_mismatch) else do
      written ← on_writer (write header)
      on_writer (write_all bytes)
      pure (written + length bytes)

-- The reader holds `bytes`, and `std::io::copy` copies them all.
unfoldable pub append_header_with_reader : OdcHeader → Bytes → M OdcBuilder ℕ
append_header_with_reader header bytes = do
  written ← on_writer (write header)
  on_writer (write_all bytes)
  if length bytes == header.file_size
      then pure (written + length bytes)
      else lift (err size_mismatch)

unfoldable pub append_file_from_data : Bytes → Bytes → ℕ → M OdcBuilder ℕ
append_file_from_data archive_path bytes mode = do
  let name = normalize_archive_path archive_path
  parents ← emit_parent_directories name
  header ← next_header
  written ← on_writer (write (record header { name = name; file_size = length bytes; mode = mode }))
  on_writer (write_all bytes)
  pure (parents + written + length bytes)

-- An opened file: what its metadata say of it, whether it is executable, and its bytes.
pub record File : Type 0 where
  pub is_file : Bool
  pub len : ℕ
  pub is_executable : Bool
  pub content : Bytes

-- `open_file` stands for the file system, and `add_execute` for `mode | S_IXUSR | S_IXGRP | S_IXOTH`.
unfoldable pub append_file_from_path :
    {FilePath : Type 0}
    → (FilePath → Outcome Error File)
    → (ℕ → ℕ)
    → Bytes
    → FilePath
    → M OdcBuilder ℕ
append_file_from_path open_file add_execute archive_path path = do
  let name = normalize_archive_path archive_path
  fh ← lift (open_file path)
  lift (if fh.is_file then ok tt else err not_a_file)
  parents ← emit_parent_directories name
  header ← next_header
  let mode = if fh.is_executable then add_execute header.mode else header.mode
  written ← on_writer (write (record header { name = name; file_size = fh.len; mode = mode }))
  on_writer (write_all fh.content)
  pure (parents + written + length fh.content)

-- An entry of a `FileManifest`, whose content may fail to resolve.
pub record ManifestEntry : Type 0 where
  pub path : Bytes
  pub is_executable : Bool
  pub resolve_content : Outcome Error Bytes

-- The modes are 0o755 and 0o644.
unfoldable pub append_file_manifest : List ManifestEntry → M OdcBuilder ℕ
append_file_manifest [] = pure 0
append_file_manifest (entry ∷ entries) = do
  bytes ← lift entry.resolve_content
  count ← append_file_from_data entry.path bytes (if entry.is_executable then 493 else 420)
  rest ← append_file_manifest entries
  pure (count + rest)

abbrev mark_finished : M OdcBuilder (Unit {0})
mark_finished s = (ok tt, record s { finished = true })

unfoldable pub finish : M OdcBuilder ℕ
finish s =
    if s.finished
    then (ok 0, s)
    else (do
      header ← next_header
      count ← on_writer (write (record header { name = trailer }))
      mark_finished
      pure count)
        s

unfoldable pub into_inner : M OdcBuilder Bytes
into_inner s = (do count ← finish; λ s. (ok s.writer, s)) s
