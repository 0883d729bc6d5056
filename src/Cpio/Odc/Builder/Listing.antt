-- ===== src/Cpio/Odc/Builder/Listing.antt =====
-- The contract of `OdcBuilder` of odc.rs, without bytes: the entries in their order, and the directories.
use apple_platform_rs.Base.{
  ℕ, ◌+◌, ◌%◌, ◌^◌, ◌<◌, ◌≤◌, ◌≡◌, ◌≢◌, Bool, true, false, if◌then◌else◌, List, [], ◌∷◌, ◌++◌,
  length, All, Bytes, arith, contains, is_utf8, ℤ, i64_pattern, length-append, append_assoc,
  append-nil, inl, inr,
}
use apple_platform_rs.Base.Tests.{Bool-cases}
use apple_platform_rs.Cpio.Odc.Header.{OdcHeader, trailer}
use apple_platform_rs.Cpio.Odc.Header.RoundTrip.{encoded}
use apple_platform_rs.Cpio.Odc.Path.{normalize_archive_path, parent_directories}
use apple_platform_rs.Cpio.Odc.Reader.Archive.{ArchiveEntry, entries_bytes}
use apple_platform_rs.Cpio.Odc.Builder.{OdcBuilder}

pub record Settings : Type 0 where
  pub uid : ℕ
  pub gid : ℕ
  pub mtime : ℤ
  pub mode_file : ℕ
  pub mode_dir : ℕ
  pub auto : Bool

pub record IsSettings (d : Settings) : Type 0 where
  pub uid_fits : d.uid < 8 ^ 6
  pub gid_fits : d.gid < 8 ^ 6
  pub mode_file_fits : d.mode_file < 8 ^ 6
  pub mode_dir_fits : d.mode_dir < 8 ^ 6

-- Text without a NUL that fits its field and is not the name of the trailer.
pub record IsName (name : Bytes) : Type 0 where
  pub fits : length name + 1 < 8 ^ 6
  pub text : is_utf8 name ≡ true
  pub whole : All (λ b. b ≢ 0) name
  pub other : name ≢ trailer

pub record Listing : Type 0 where
  pub entries : List ArchiveEntry
  pub dirs : List Bytes

abbrev pub empty : Listing
empty = record { entries = []; dirs = [] }

-- The builder that has written the listing.
abbrev pub builder : Settings → Listing → OdcBuilder
builder d l = record {
  writer = entries_bytes l.entries;
  default_uid = d.uid;
  default_gid = d.gid;
  default_mtime = d.mtime;
  default_mode_file = d.mode_file;
  default_mode_dir = d.mode_dir;
  auto_write_dirs = d.auto;
  seen_dirs = l.dirs;
  entry_count = length l.entries;
  finished = false;
}

abbrev pub header_of : Settings → ℕ → ℕ → Bytes → ℕ → OdcHeader
header_of d inode mode name size = record {
  dev = 0;
  inode = inode;
  mode = mode;
  uid = d.uid;
  gid = d.gid;
  nlink = 0;
  rdev = 0;
  mtime = i64_pattern d.mtime % 2 ^ 32;
  file_size = size;
  name = name;
}

-- One more entry, numbered by its place.
abbrev pub add_entry : Settings → ℕ → Bytes → Bytes → Listing → Listing
add_entry d mode name bytes l = record l {
  entries =
      l.entries
      ++ (record { header = header_of d (length l.entries) mode name (length bytes); data' = bytes }
          ∷ []);
}

abbrev pub see : Bytes → Listing → Listing
see dir l = record l { dirs = dir ∷ l.dirs }

unfoldable pub add_directory : Settings → Bytes → Listing → Listing
add_directory d dir l = if contains l.dirs dir then l else see dir (add_entry d d.mode_dir dir [] l)

unfoldable pub add_directories : Settings → List Bytes → Listing → Listing
add_directories d [] l = l
add_directories d (dir ∷ dirs) l = add_directories d dirs (add_directory d dir l)

-- A file to be added.
pub record NewFile : Type 0 where
  pub path : Bytes
  pub bytes : Bytes
  pub mode : ℕ

-- The directories of the path that are missing, then the file.
unfoldable pub add_file : Settings → NewFile → Listing → Listing
add_file d f l =
    add_entry d f.mode (normalize_archive_path f.path) f.bytes
      (add_directories d (parent_directories (normalize_archive_path f.path)) l)

unfoldable pub add_files : Settings → List NewFile → Listing → Listing
add_files d [] l = l
add_files d (f ∷ fs) l = add_files d fs (add_file d f l)

pub record IsNewFile (f : NewFile) : Type 0 where
  pub mode_fits : f.mode < 8 ^ 6
  pub size_fits : length f.bytes < 8 ^ 11
  pub name_fits : IsName (normalize_archive_path f.path)
  pub parents_fit : All IsName (parent_directories (normalize_archive_path f.path))

pub entries_bytes-append :
    (es : List ArchiveEntry) (e : ArchiveEntry)
    → entries_bytes (es ++ (e ∷ [])) ≡ entries_bytes es ++ (encoded e.header ++ e.data')
unfolding entries_bytes
entries_bytes-append [] e = rw (append-nil e.data')
entries_bytes-append (x ∷ es) e = rw (entries_bytes-append es e) (simp append_assoc)

-- The number of entries only grows.
pub add_directory-grows :
    (d : Settings) (dir : Bytes) (l : Listing)
    → length l.entries ≤ length (add_directory d dir l).entries
unfolding add_directory
add_directory-grows d dir l = elim (Bool-cases (contains l.dirs dir)) [
  | inl e ↦ rw e (omega arith)
  | inr e ↦ rw e (
      omega (
        arith,
        length-append l.entries
            (record { header = header_of d (length l.entries) d.mode_dir dir 0; data' = [] } ∷ []),
      ))
]

pub add_directories-grows :
    (d : Settings) (dirs : List Bytes) (l : Listing)
    → length l.entries ≤ length (add_directories d dirs l).entries
unfolding add_directories
add_directories-grows d [] l = omega arith
add_directories-grows d (dir ∷ dirs) l =
    omega (arith, add_directory-grows d dir l, add_directories-grows d dirs (add_directory d dir l))

pub add_file-grows :
    (d : Settings) (f : NewFile) (l : Listing)
    → length (add_directories d (parent_directories (normalize_archive_path f.path)) l).entries
      ≤ length (add_file d f l).entries
unfolding add_file
add_file-grows d f l = omega (
  arith,
  length-append (add_directories d (parent_directories (normalize_archive_path f.path)) l).entries (
      record {
        header =
            header_of d
              (length
                (add_directories d (parent_directories (normalize_archive_path f.path)) l).entries)
              f.mode (normalize_archive_path f.path) (length f.bytes);
        data' = f.bytes;
      }
      ∷ []),
)

pub add_files-grows :
    (d : Settings) (fs : List NewFile) (l : Listing)
    → length l.entries ≤ length (add_files d fs l).entries
unfolding add_files
add_files-grows d [] l = omega arith
add_files-grows d (f ∷ fs) l = omega (
  arith,
  add_directories-grows d (parent_directories (normalize_archive_path f.path)) l,
  add_file-grows d f l,
  add_files-grows d fs (add_file d f l),
)
