-- ===== src/Cpio/Odc/Builder/Refinement.antt =====
-- `OdcBuilder` of odc.rs against the listing that it implements.
use apple_platform_rs.Base.{
  ℕ, ◌+◌, ◌*◌, ◌%◌, ◌^◌, ◌<◌, ◌≤◌, ◌≡◌, refl, false, List, [], ◌∷◌, ◌++◌, length, All, ok, Bytes,
  arith, contains, length-append, append_assoc, append-nil, inl, inr,
}
use apple_platform_rs.Base.Tests.{Bool-cases}
use apple_platform_rs.Cpio.Io.{M}
use apple_platform_rs.Cpio.Odc.Header.{OdcHeader}
use apple_platform_rs.Cpio.Odc.Header.RoundTrip.{IsWritable, encoded, write-encoded, length-encoded}
use apple_platform_rs.Cpio.Odc.Path.{normalize_archive_path, parent_directories}
use apple_platform_rs.Cpio.Odc.Reader.Archive.{ArchiveEntry, entries_bytes}
use apple_platform_rs.Cpio.Odc.Builder.{
  OdcBuilder, next_header, on_writer, write_directory, emit_directory, emit_directories,
  emit_parent_directories, append_file_from_data,
}
use apple_platform_rs.Cpio.Odc.Builder.Listing.{
  Settings, IsSettings, IsName, Listing, builder, header_of, add_entry, see, add_directory,
  add_directories, NewFile, add_file, IsNewFile, entries_bytes-append, add_directories-grows,
}

-- From the first listing, `op` succeeds, writes the second and returns the number of bytes.
abbrev pub Adds : Settings → M OdcBuilder ℕ → Listing → Listing → Type 0
Adds d op l l' =
    (n : ℕ) × (op (builder d l) ≡ (ok n, builder d l'))
    × (length (entries_bytes l.entries) + n ≡ length (entries_bytes l'.entries))

pub header_of-IsWritable :
    (d : Settings) (inode mode : ℕ) (name : Bytes) (size : ℕ)
    → IsSettings d
    → inode < 8 ^ 6
    → mode < 8 ^ 6
    → IsName name
    → size < 8 ^ 11
    → IsWritable (header_of d inode mode name size)
header_of-IsWritable d inode mode name size s i m n z = record {
  dev_fits = omega arith;
  inode_fits = i;
  mode_fits = m;
  uid_fits = s.uid_fits;
  gid_fits = s.gid_fits;
  nlink_fits = omega arith;
  rdev_fits = omega arith;
  mtime_fits = omega arith;
  size_fits = z;
  name_fits = n.fits;
  name_text = n.text;
  name_whole = n.whole;
}

write_directory-Adds :
    (d : Settings) (dir : Bytes) (l : Listing)
    → IsSettings d
    → IsName dir
    → length l.entries < 8 ^ 6
    → Adds d (write_directory dir) l (see dir (add_entry d d.mode_dir dir [] l))
unfolding write_directory next_header on_writer
write_directory-Adds d dir l s n fits = (
  9 * 6 + 11 * 2 + length dir + 1,
  rw (
    write-encoded h (entries_bytes l.entries) w,
    entries_bytes-append l.entries e,
    append-nil (encoded h),
    length-append l.entries (e ∷ []),
    counted,
  ),
  rw (entries_bytes-append l.entries e, append-nil (encoded h))
      (omega (arith, length-append (entries_bytes l.entries) (encoded h), length-encoded h)),
)
  where
    h : OdcHeader
    h = header_of d (length l.entries) d.mode_dir dir 0

    e : ArchiveEntry
    e = record { header = h; data' = [] }

    w : IsWritable h
    w =
        header_of-IsWritable d (length l.entries) d.mode_dir dir 0 s fits s.mode_dir_fits n
          (omega arith)

    counted : (length l.entries + 1) % 2 ^ 32 ≡ length l.entries + 1
    counted = omega arith

emit_directory-Adds :
    (d : Settings) (dir : Bytes) (l : Listing)
    → IsSettings d
    → IsName dir
    → length (add_directory d dir l).entries ≤ 8 ^ 6
    → Adds d (emit_directory dir) l (add_directory d dir l)
unfolding emit_directory add_directory
emit_directory-Adds d dir l s n fits = elim (Bool-cases (contains l.dirs dir)) [
  | inl seen ↦ rw seen (0, refl, omega arith)
  | inr new_one ↦ rw new_one (write_directory-Adds d dir l s n (omega (arith, one_more new_one)))
]
  where
    one_more :
        contains l.dirs dir ≡ false → length (add_directory d dir l).entries ≡ length l.entries + 1
    one_more e = rw e (length-append l.entries _)

pub emit_directories-Adds :
    (d : Settings) (dirs : List Bytes) (l : Listing)
    → IsSettings d
    → All IsName dirs
    → length (add_directories d dirs l).entries ≤ 8 ^ 6
    → Adds d (emit_directories dirs) l (add_directories d dirs l)
unfolding emit_directories add_directories
emit_directories-Adds d [] l s names fits = (0, refl, omega arith)
emit_directories-Adds d (dir ∷ dirs) l s names fits =
    let (n, step, count) =
      emit_directory-Adds d dir l s names.0
        (omega (arith, add_directories-grows d dirs (add_directory d dir l))) in
    let (m, rest, count') = emit_directories-Adds d dirs (add_directory d dir l) s names.1 fits in
    (n + m, rw (step, rest), omega arith)

-- append_file_from_data refines adding a file to the abstract listing: from a builder that has
-- written a listing it succeeds, leaves the builder that has written the listing with the missing
-- parent directories and the file, and returns the number of bytes it wrote. This holds whatever
-- auto_write_dirs is. The settings, the file and its path fit their fields, and no more than 8^6
-- entries arise.
pub append_file_from_data-Adds :
    (d : Settings) (f : NewFile) (l : Listing)
    → IsSettings d
    → IsNewFile f
    → length (add_file d f l).entries ≤ 8 ^ 6
    → Adds d (append_file_from_data f.path f.bytes f.mode) l (add_file d f l)
unfolding append_file_from_data emit_parent_directories next_header on_writer add_file
append_file_from_data-Adds d f l s fit fits =
    let (n, parents, count) =
      emit_directories-Adds d (parent_directories name) l s fit.parents_fit
        (omega (arith, one_more)) in
    (
      n + (9 * 6 + 11 * 2 + length name + 1) + length f.bytes,
      rw (
        parents,
        write-encoded h (entries_bytes l'.entries) w,
        entries_bytes-append l'.entries e,
        length-append l'.entries (e ∷ []),
        counted,
        append_assoc (entries_bytes l'.entries) (encoded h) f.bytes,
      ),
      rw (entries_bytes-append l'.entries e) (
          omega (
            arith,
            length-append (entries_bytes l'.entries) (encoded h ++ f.bytes),
            length-append (encoded h) f.bytes,
            length-encoded h,
          )),
    )
  where
    name : Bytes
    name = normalize_archive_path f.path

    l' : Listing
    l' = add_directories d (parent_directories name) l

    h : OdcHeader
    h = header_of d (length l'.entries) f.mode name (length f.bytes)

    e : ArchiveEntry
    e = record { header = h; data' = f.bytes }

    one_more : length (l'.entries ++ (e ∷ [])) ≡ length l'.entries + 1
    one_more = length-append l'.entries (e ∷ [])

    w : IsWritable h
    w =
        header_of-IsWritable d (length l'.entries) f.mode name (length f.bytes) s
          (omega (arith, one_more)) fit.mode_fits fit.name_fits fit.size_fits

    counted : (length l'.entries + 1) % 2 ^ 32 ≡ length l'.entries + 1
    counted = omega (arith, one_more)
