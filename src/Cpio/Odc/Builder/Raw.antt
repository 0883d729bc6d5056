-- ===== src/Cpio/Odc/Builder/Raw.antt =====
-- The raw entries of `OdcBuilder` of odc.rs, and files from the file system.
use apple_platform_rs.Base.{
  ℕ, ◌+◌, ◌*◌, ◌^◌, ◌≤◌, ◌≡◌, refl, true, ◌==◌, if◌then◌else◌, ◌++◌, length, ok, err, Bytes, arith,
  append_assoc, inl, inr,
}
use apple_platform_rs.Base.Tests.{Bool-cases}
use apple_platform_rs.Base.Fallible.{Outcome}
use apple_platform_rs.Cpio.Error.{Error, size_mismatch}
use apple_platform_rs.Cpio.Odc.Header.{OdcHeader}
use apple_platform_rs.Cpio.Odc.Header.RoundTrip.{IsWritable, encoded, write-encoded}
use apple_platform_rs.Cpio.Odc.Path.{normalize_archive_path, parent_directories}
use apple_platform_rs.Cpio.Odc.Builder.{
  OdcBuilder, on_writer, next_header, emit_parent_directories, append_header_with_data,
  append_header_with_reader, append_file_from_path, append_file_from_data, File,
}
use apple_platform_rs.Cpio.Odc.Builder.Listing.{
  Settings, IsSettings, Listing, NewFile, IsNewFile, add_file, add_file-grows,
}
use apple_platform_rs.Cpio.Odc.Builder.Refinement.{
  Adds, emit_directories-Adds, append_file_from_data-Adds,
}

-- The count of a written header and its data, and the builder that wrote them.
abbrev pub raw_size : OdcHeader → Bytes → ℕ
raw_size h bytes = 9 * 6 + 11 * 2 + length h.name + 1 + length bytes

abbrev pub raw_written : OdcHeader → Bytes → OdcBuilder → OdcBuilder
raw_written h bytes s = record s { writer = s.writer ++ (encoded h ++ bytes) }

module _ (h : OdcHeader) (bytes : Bytes) (s : OdcBuilder) (w : IsWritable h) where
  -- append_header_with_data on a header whose numbers and name fit their fields: if the stated
  -- size is the length of the data, header and data are written and counted, otherwise it is
  -- SizeMismatch and nothing was written.
  append_header_with_data_outcome : append_header_with_data h bytes s ≡ (
      if h.file_size == length bytes
      then (ok (raw_size h bytes), raw_written h bytes s)
      else (err size_mismatch, s))
  unfolding append_header_with_data on_writer
  append_header_with_data_outcome = elim (Bool-cases (h.file_size == length bytes)) [
    | inl e ↦ rw (e, write-encoded h s.writer w, append_assoc s.writer (encoded h) bytes)
    | inr e ↦ rw e refl
  ]

  -- append_header_with_reader on a header whose numbers and name fit their fields: header and all
  -- data of the reader are written in every case, and the result is their count, or SizeMismatch
  -- if the stated size is not the number of bytes copied.
  pub append_header_with_reader_outcome : append_header_with_reader h bytes s ≡ (
    if length bytes == h.file_size then ok (raw_size h bytes) else err size_mismatch,
    raw_written h bytes s,
  )
  unfolding append_header_with_reader on_writer
  append_header_with_reader_outcome = elim (Bool-cases (length bytes == h.file_size)) [
    | inl e ↦ rw (e, write-encoded h s.writer w, append_assoc s.writer (encoded h) bytes)
    | inr e ↦ rw (e, write-encoded h s.writer w, append_assoc s.writer (encoded h) bytes)
  ]

module _ {FilePath : Type 0} (open_file : FilePath → Outcome Error File) (add_execute : ℕ → ℕ)
    (d : Settings) (archive_path : Bytes) (at_path : FilePath) (f : File) (l : Listing) where
  -- The file as the contract takes it.
  abbrev pub opened : NewFile
  opened = record {
    path = archive_path;
    bytes = f.content;
    mode = if f.is_executable then add_execute d.mode_file else d.mode_file;
  }

  -- append_file_from_path refines adding a file to the listing: when the path opens as a regular
  -- file whose metadata state its length, the file is added behind its missing parent directories
  -- with the default mode, made executable if the file is, and the number of bytes written is
  -- returned. The settings, the file and its path fit their fields, and no more than 8^6 entries
  -- arise.
  pub append_file_from_path-Adds :
      open_file at_path ≡ ok f
      → f.is_file ≡ true
      → f.len ≡ length f.content
      → IsSettings d
      → IsNewFile opened
      → length (add_file d opened l).entries ≤ 8 ^ 6
      → Adds d
          (append_file_from_path open_file add_execute archive_path at_path)
          l
          (add_file d opened l)
  unfolding append_file_from_path append_file_from_data emit_parent_directories next_header
      on_writer
  append_file_from_path-Adds found regular sized s fit fits =
      let (n, step, count) = append_file_from_data-Adds d opened l s fit fits in
      let (m, parents, _) =
        emit_directories-Adds d (parent_directories (normalize_archive_path archive_path)) l s
          fit.parents_fit (omega (arith, add_file-grows d opened l)) in
      (n, rw (found, regular, sized, parents) (rw parents at step), count)
