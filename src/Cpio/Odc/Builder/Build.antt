-- ===== src/Cpio/Odc/Builder/Build.antt =====
-- From the files of a manifest to an archive and back: `append_file_manifest`, `into_inner` and
-- `OdcReader` of odc.rs.
use apple_platform_rs.Base.{
  ℕ, suc, ◌+◌, ◌^◌, ◌<◌, ◌≤◌, ◌≡◌, refl, Bool, true, if◌then◌else◌, List, [], ◌∷◌, ◌++◌, length,
  map, All, All-append, ok, Bytes, ℤ, arith, is_utf8, contains, length-append, append-nil, inl, inr,
}
use apple_platform_rs.Base.Tests.{Bool-cases}
use apple_platform_rs.Base.Fallible.{Outcome}
use apple_platform_rs.Cpio.Error.{Error}
use apple_platform_rs.Cpio.Io.{◌>>=◌}
use apple_platform_rs.Cpio.Odc.Header.{OdcHeader, trailer}
use apple_platform_rs.Cpio.Odc.Header.RoundTrip.{IsWritable, encoded, write-encoded}
use apple_platform_rs.Cpio.Odc.Path.{normalize_archive_path, parent_directories}
use apple_platform_rs.Cpio.Odc.Reader
use apple_platform_rs.Cpio.Odc.Reader.Entry.{ended}
use apple_platform_rs.Cpio.Odc.Reader.Archive.{
  ArchiveEntry, IsEntry, entries_bytes, extract, extract_archive, planned,
}
use apple_platform_rs.Cpio.Odc.Builder.{
  new, next_header, on_writer, ManifestEntry, append_file_manifest, finish, into_inner,
}
use apple_platform_rs.Cpio.Odc.Builder.Listing.{
  Settings, IsSettings, IsName, Listing, empty, builder, header_of, add_entry, add_directory,
  add_directories, NewFile, add_file, add_files, IsNewFile, add_files-grows, add_directories-grows,
}
use apple_platform_rs.Cpio.Odc.Builder.Refinement.{
  Adds, append_file_from_data-Adds, header_of-IsWritable,
}

-- A file of a manifest, whose content resolves.
pub record ManifestFile : Type 0 where
  pub path : Bytes
  pub executable : Bool
  pub bytes : Bytes

abbrev pub manifest_entry : ManifestFile → ManifestEntry
manifest_entry f = record {
  path = f.path;
  is_executable = f.executable;
  resolve_content = ok f.bytes;
}

abbrev pub new_file : ManifestFile → NewFile
new_file f = record { path = f.path; bytes = f.bytes; mode = if f.executable then 493 else 420 }

-- append_file_manifest refines adding the files of the manifest to the listing one after the
-- other, with mode 0o755 or 0o644, and returns the number of bytes it wrote, provided every
-- content resolves, the settings, files and paths fit their fields, and no more than 8^6 entries
-- arise.
pub append_file_manifest-Adds :
    (d : Settings) (fs : List ManifestFile) (l : Listing)
    → IsSettings d
    → All (λ f. IsNewFile (new_file f)) fs
    → length (add_files d (map new_file fs) l).entries ≤ 8 ^ 6
    → Adds d (append_file_manifest (map manifest_entry fs)) l (add_files d (map new_file fs) l)
unfolding append_file_manifest add_files
append_file_manifest-Adds d [] l s files fits = (0, refl, omega arith)
append_file_manifest-Adds d (f ∷ fs) l s files fits =
    let (n, step, count) =
      append_file_from_data-Adds d (new_file f) l s files.0
        (omega (arith, add_files-grows d (map new_file fs) (add_file d (new_file f) l))) in
    let (m, rest, count') =
      append_file_manifest-Adds d fs (add_file d (new_file f) l) s files.1 fits in
    (n + m, rw (step, rest), omega arith)

-- Every entry of a listing can be read back.
add_entry-IsEntry :
    (d : Settings) (mode : ℕ) (name bytes : Bytes) (l : Listing)
    → IsSettings d
    → length (add_entry d mode name bytes l).entries ≤ 8 ^ 6
    → mode < 8 ^ 6
    → IsName name
    → length bytes < 8 ^ 11
    → All IsEntry l.entries
    → All IsEntry (add_entry d mode name bytes l).entries
add_entry-IsEntry d mode name bytes l s fits m n z all = All-append IsEntry l.entries _ all (
  record {
    writable =
        header_of-IsWritable d (length l.entries) mode name (length bytes) s
          (omega (arith, length-append l.entries (e ∷ []))) m n z;
    sized = refl;
    named = n.other;
  },
  tt,
)
  where
    e : ArchiveEntry
    e = record { header = header_of d (length l.entries) mode name (length bytes); data' = bytes }

add_directory-IsEntry :
    (d : Settings) (dir : Bytes) (l : Listing)
    → IsSettings d
    → IsName dir
    → length (add_directory d dir l).entries ≤ 8 ^ 6
    → All IsEntry l.entries
    → All IsEntry (add_directory d dir l).entries
unfolding add_directory
add_directory-IsEntry d dir l s n fits all = elim (Bool-cases (contains l.dirs dir)) [
  | inl e ↦ rw e all
  | inr e ↦
      rw e (
        add_entry-IsEntry d d.mode_dir dir [] l s (rw e at fits) s.mode_dir_fits n (omega arith)
          all)
]

add_directories-IsEntry :
    (d : Settings) (dirs : List Bytes) (l : Listing)
    → IsSettings d
    → All IsName dirs
    → length (add_directories d dirs l).entries ≤ 8 ^ 6
    → All IsEntry l.entries
    → All IsEntry (add_directories d dirs l).entries
unfolding add_directories
add_directories-IsEntry d [] l s names fits all = all
add_directories-IsEntry d (dir ∷ dirs) l s names fits all =
    add_directories-IsEntry d dirs (add_directory d dir l) s names.1 fits (
      add_directory-IsEntry d dir l s names.0
        (omega (arith, add_directories-grows d dirs (add_directory d dir l))) all)

add_file-IsEntry :
    (d : Settings) (f : NewFile) (l : Listing)
    → IsSettings d
    → IsNewFile f
    → length (add_file d f l).entries ≤ 8 ^ 6
    → All IsEntry l.entries
    → All IsEntry (add_file d f l).entries
unfolding add_file
add_file-IsEntry d f l s fit fits all =
    let dirs : Listing = add_directories d (parent_directories (normalize_archive_path f.path)) l in
    add_entry-IsEntry d f.mode (normalize_archive_path f.path) f.bytes dirs s fits fit.mode_fits
      fit.name_fits fit.size_fits
      (add_directories-IsEntry d (parent_directories (normalize_archive_path f.path)) l s
        fit.parents_fit
        (omega (
          arith,
          length-append dirs.entries (
              record {
                header =
                    header_of d (length dirs.entries) f.mode (normalize_archive_path f.path)
                      (length f.bytes);
                data' = f.bytes;
              }
              ∷ []),
        ))
        all)

add_files-IsEntry :
    (d : Settings) (fs : List NewFile) (l : Listing)
    → IsSettings d
    → All IsNewFile fs
    → length (add_files d fs l).entries ≤ 8 ^ 6
    → All IsEntry l.entries
    → All IsEntry (add_files d fs l).entries
unfolding add_files
add_files-IsEntry d [] l s files fits all = all
add_files-IsEntry d (f ∷ fs) l s files fits all =
    add_files-IsEntry d fs (add_file d f l) s files.1 fits
      (add_file-IsEntry d f l s files.0 (omega (arith, add_files-grows d fs (add_file d f l))) all)

-- The header behind the entries.
abbrev pub end_of : Settings → Listing → OdcHeader
end_of d l = header_of d (length l.entries) d.mode_file trailer 0

end_of-IsWritable :
    (d : Settings) (l : Listing) → IsSettings d → length l.entries < 8 ^ 6 → IsWritable (end_of d l)
unfolding is_utf8
end_of-IsWritable d l s fits = record {
  dev_fits = omega arith;
  inode_fits = fits;
  mode_fits = s.mode_file_fits;
  uid_fits = s.uid_fits;
  gid_fits = s.gid_fits;
  nlink_fits = omega arith;
  rdev_fits = omega arith;
  mtime_fits = omega arith;
  size_fits = omega arith;
  name_fits = omega arith;
  name_text = refl;
  name_whole = (
    omega arith,
    (
      omega arith,
      (
        omega arith,
        (
          omega arith,
          (
            omega arith,
            (omega arith, (omega arith, (omega arith, (omega arith, (omega arith, tt))))),
          ),
        ),
      ),
    ),
  );
}

into_inner-builder :
    (d : Settings) (l : Listing)
    → IsSettings d
    → length l.entries < 8 ^ 6
    → (into_inner (builder d l)).0 ≡ ok (entries_bytes l.entries ++ encoded (end_of d l))
unfolding into_inner finish next_header on_writer
into_inner-builder d l s fits =
    rw (write-encoded (end_of d l) (entries_bytes l.entries) (end_of-IsWritable d l s fits))

-- The settings of a builder that was just made.
abbrev pub initial : ℤ → ℕ → ℕ → Settings
initial now mode_file mode_dir = record {
  uid = 0;
  gid = 0;
  mtime = now;
  mode_file = mode_file;
  mode_dir = mode_dir;
  auto = true;
}

-- The entries that the files make, and the archive that is written of them.
abbrev pub made : ℤ → ℕ → ℕ → List ManifestFile → Listing
made now mode_file mode_dir fs = add_files (initial now mode_file mode_dir) (map new_file fs) empty

abbrev pub build : ℤ → ℕ → ℕ → List ManifestFile → Outcome Error Bytes
build now mode_file mode_dir fs =
    ((append_file_manifest (map manifest_entry fs) >>= λ n. into_inner)
      (new now mode_file mode_dir [])).0

All-new_file :
    (fs : List ManifestFile)
    → All (λ f. IsNewFile (new_file f)) fs
    → All IsNewFile (map new_file fs)
All-new_file [] h = tt
All-new_file (f ∷ fs) h = (h.0, All-new_file fs h.1)

-- A new OdcBuilder that is given the files of a manifest and closed by into_inner returns an
-- archive, and an OdcReader over that archive yields exactly the entries of the contract (missing
-- parent directories in front of each file, numbered in order) and ends, each with the bytes that
-- the client asked for, in pieces of any sizes. The modes, sizes and names fit their fields, names
-- have no NUL, and fewer than 8^6 entries arise.
pub archive_roundtrip :
    (plan : OdcHeader → List ℕ) (now : ℤ) (mode_file mode_dir : ℕ) (fs : List ManifestFile)
    → mode_file < 8 ^ 6
    → mode_dir < 8 ^ 6
    → All (λ f. IsNewFile (new_file f)) fs
    → length (made now mode_file mode_dir fs).entries < 8 ^ 6
    → (archive : Bytes) × (build now mode_file mode_dir fs ≡ ok archive)
      × (extract (suc (length (made now mode_file mode_dir fs).entries)) plan (Reader.new archive)
          ≡ (ok (map (planned plan) (made now mode_file mode_dir fs).entries), ended))
unfolding new entries_bytes
archive_roundtrip plan now mode_file mode_dir fs m m' files fits =
    let (n, written, count) = append_file_manifest-Adds d fs empty s files (omega arith) in
    (
      entries_bytes l.entries ++ encoded (end_of d l),
      rw (build, written) (into_inner-builder d l s fits),
      rw (append-nil (encoded (end_of d l))) at (
          extract_archive plan l.entries (end_of d l) [] readable (end_of-IsWritable d l s fits)
            refl),
    )
  where
    d : Settings
    d = initial now mode_file mode_dir

    s : IsSettings d
    s = record {
      uid_fits = omega arith;
      gid_fits = omega arith;
      mode_file_fits = m;
      mode_dir_fits = m';
    }

    l : Listing
    l = made now mode_file mode_dir fs

    readable : All IsEntry l.entries
    readable =
        add_files-IsEntry d (map new_file fs) empty s (All-new_file fs files) (omega arith) tt
