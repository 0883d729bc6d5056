-- ===== src/Codesign/Blob/SuperBlob/RoundTrip.antt =====
-- Round trip of `create_superblob` and `EmbeddedSignature::from_bytes`, embedded_signature.rs.
use apple_platform_rs.Base.{
  ℕ, ◌+◌, ◌*◌, ◌≡◌, refl, ap, List, [], ◌∷◌, ◌++◌, ok, Bytes, IsU32, length, u32_bytes, pread_u32,
  All, arith, append_assoc, length-append, pread_u32-append, pread_u32-u32_bytes,
  pread_u32-u32_bytes_next,
}
use apple_platform_rs.Codesign.Error.{scroll}
use apple_platform_rs.Codesign.Blob.CodeSigningMagic
use apple_platform_rs.Codesign.Blob.CodeSigningSlot
use apple_platform_rs.Codesign.Blob.CodeSigningSlot.{CodeSigningSlot, IsNormal}
use apple_platform_rs.Codesign.Blob.Header.{to_blob_bytes}
use apple_platform_rs.Codesign.Blob.SuperBlob.{
  BlobIndex, BlobEntry, write_indices, write_blobs, read_indices, read_entry, end_of, read_entries,
  first_offset, create_superblob, from_bytes, is_embedded_signature,
}
use apple_platform_rs.Codesign.Blob.SuperBlob.Entries.{
  Stored, IsStored, serialise, size, indices_from, entry, entries_from, length-to_blob_bytes,
  length-serialise, length-indices_from, place-serialise, indices_from-IsIndex,
  read_indices-write_indices, read_entry-to_blob_bytes,
}

end_of-indices_from :
    (blobs : List Stored) (offset : ℕ) (front blob : Bytes)
    → length front + length blob ≡ offset
    → offset ≡ end_of (front ++ (blob ++ write_blobs (serialise blobs))) (indices_from offset blobs)
unfolding end_of write_blobs
end_of-indices_from [] offset front blob h =
    omega (arith, length-append front (blob ++ []), length-append blob [])
end_of-indices_from ((slot, magic, payload) ∷ blobs) offset front blob h = refl

read_entries-serialise :
    (blobs : List Stored) (i offset : ℕ) (front : Bytes)
    → All IsStored blobs
    → IsU32 (offset + size blobs)
    → length front ≡ offset
    → read_entries (front ++ write_blobs (serialise blobs)) i (indices_from offset blobs)
      ≡ ok (entries_from i offset blobs)
unfolding read_entries write_blobs
read_entries-serialise [] i offset front s h w = refl
read_entries-serialise ((slot, magic, payload) ∷ blobs) i offset front (sb, s) h w = rw (
  first,
  others (
      read_entries-serialise blobs (i + 1) (offset + (length payload + 8)) (front ++ blob) s
        (omega arith) behind),
)
  where
    blob : Bytes
    blob = to_blob_bytes magic payload

    whole : Bytes
    whole = front ++ (blob ++ write_blobs (serialise blobs))

    behind : length (front ++ blob) ≡ offset + (length payload + 8)
    behind = omega (arith, length-append front blob, length-to_blob_bytes magic payload)

    end :
        offset + (length payload + 8)
        ≡ end_of whole (indices_from (offset + (length payload + 8)) blobs)
    end = end_of-indices_from blobs _ front blob (omega (arith, length-to_blob_bytes magic payload))

    first :
        read_entry whole i
          (record { typ = CodeSigningSlot.to_u32 slot; offset = offset })
          (end_of whole (indices_from (offset + (length payload + 8)) blobs))
        ≡ ok (entry i offset (slot, magic, payload))
    first =
        read_entry-to_blob_bytes i offset _ (slot, magic, payload) front _ sb (omega arith) w end

    rest_indices : List BlobIndex
    rest_indices = indices_from (offset + (length payload + 8)) blobs

    rest_entries : List BlobEntry
    rest_entries = entries_from (i + 1) (offset + (length payload + 8)) blobs

    others :
        read_entries ((front ++ blob) ++ write_blobs (serialise blobs)) (i + 1) rest_indices
          ≡ ok rest_entries
        → read_entries whole (i + 1) rest_indices ≡ ok rest_entries
    others ih = rw (← append_assoc front blob (write_blobs (serialise blobs))) ih

pub length-write_indices :
    (indices : List BlobIndex) → length (write_indices indices) ≡ 8 * length indices
unfolding write_indices u32_bytes
length-write_indices [] = refl
length-write_indices (index ∷ indices) = omega (arith, length-write_indices indices)

module _ (blobs : List Stored) (s : All IsStored blobs) where
  module _ (h : IsU32 (12 + 8 * length blobs + size blobs)) where
    first_offset-serialise : first_offset (serialise blobs) ≡ 12 + 8 * length blobs
    unfolding first_offset
    first_offset-serialise = rw length-serialise (omega arith)

    layout :
        create_superblob CodeSigningMagic.embedded_signature (serialise blobs)
        ≡ u32_bytes (CodeSigningMagic.to_u32 CodeSigningMagic.embedded_signature)
          ++ (u32_bytes (12 + 8 * length blobs + size blobs)
              ++ (u32_bytes (length blobs)
                  ++ (write_indices (indices_from (12 + 8 * length blobs) blobs)
                      ++ write_blobs (serialise blobs))))
    unfolding create_superblob
    layout = rw (
      first_offset-serialise,
      place-serialise (12 + 8 * length blobs) blobs h,
      length-indices_from,
    )

    magic_bytes : Bytes
    magic_bytes = u32_bytes (CodeSigningMagic.to_u32 CodeSigningMagic.embedded_signature)

    total_bytes : Bytes
    total_bytes = u32_bytes (12 + 8 * length blobs + size blobs)

    count_bytes : Bytes
    count_bytes = u32_bytes (length blobs)

    table : Bytes
    table = write_indices (indices_from (12 + 8 * length blobs) blobs)

    whole : Bytes
    unfolding magic_bytes total_bytes count_bytes table
    whole =
        magic_bytes ++ (total_bytes ++ (count_bytes ++ (table ++ write_blobs (serialise blobs))))

    head_width : length ((magic_bytes ++ total_bytes) ++ count_bytes) ≡ 12
    unfolding magic_bytes total_bytes count_bytes u32_bytes
    head_width = refl

    front_width :
        length (((magic_bytes ++ total_bytes) ++ count_bytes) ++ table) ≡ 12 + 8 * length blobs
    unfolding table
    front_width = omega (
      arith,
      head_width,
      length-append ((magic_bytes ++ total_bytes) ++ count_bytes) table,
      length-write_indices (indices_from (12 + 8 * length blobs) blobs),
      length-indices_from (12 + 8 * length blobs) blobs,
    )

    whole_at_table :
        whole
        ≡ ((magic_bytes ++ total_bytes) ++ count_bytes) ++ (table ++ write_blobs (serialise blobs))
    unfolding whole
    whole_at_table = simp append_assoc

    whole_at_blobs :
        whole
        ≡ (((magic_bytes ++ total_bytes) ++ count_bytes) ++ table) ++ write_blobs (serialise blobs)
    unfolding whole
    whole_at_blobs = simp append_assoc

    total_read : pread_u32 scroll whole 4 ≡ ok (12 + 8 * length blobs + size blobs)
    unfolding whole
    total_read = rw pread_u32-u32_bytes_next (ap ok (omega arith))

    count_read : pread_u32 scroll whole 8 ≡ ok (length blobs)
    unfolding whole
    count_read =
        rw
          (
            ← append_assoc magic_bytes total_bytes _,
            pread_u32-append scroll 8 (length blobs) (magic_bytes ++ total_bytes) _
                (unfold magic_bytes total_bytes u32_bytes in refl),
          )
          (ap ok (omega arith))

    indices_read :
        read_indices (length blobs) 12 whole ≡ ok (indices_from (12 + 8 * length blobs) blobs)
    indices_read = rw whole_at_table (
        unfold table in
        rw (length-indices_from (12 + 8 * length blobs) blobs) at (
          read_indices-write_indices (indices_from (12 + 8 * length blobs) blobs) 12 _
            (write_blobs (serialise blobs)) (indices_from-IsIndex _ blobs s h) head_width))

    entries_read :
        read_entries whole 0 (indices_from (12 + 8 * length blobs) blobs)
        ≡ ok (entries_from 0 (12 + 8 * length blobs) blobs)
    entries_read = rw whole_at_blobs (read_entries-serialise blobs 0 _ _ s h front_width)

    whole_read :
        from_bytes whole
        ≡ ok record {
          magic = CodeSigningMagic.embedded_signature;
          len = 12 + 8 * length blobs + size blobs;
          count = length blobs;
          bytes = whole;
          blobs = entries_from 0 (12 + 8 * length blobs) blobs;
        }
    unfolding from_bytes is_embedded_signature CodeSigningMagic.from_u32 CodeSigningMagic.to_u32
    whole_read = rw (magic_read, total_read, count_read, indices_read, entries_read)
      where
        magic_read : pread_u32 scroll whole 0 ≡ ok 0xfade0cc0
        magic_read = unfold whole in rw pread_u32-u32_bytes

    -- EmbeddedSignature::from_bytes reads the superblob that create_superblob writes of serialised
    -- blobs: the same number, and each entry with its index, slot, offset, magic, length and data.
    -- The slot number and the magic of each blob fit 32 bits, no slot is an Unknown of a number
    -- that has a name, and the total length fits 32 bits.
    pub from_bytes-create_superblob :
        from_bytes (create_superblob CodeSigningMagic.embedded_signature (serialise blobs))
        ≡ ok record {
          magic = CodeSigningMagic.embedded_signature;
          len = 12 + 8 * length blobs + size blobs;
          count = length blobs;
          bytes = create_superblob CodeSigningMagic.embedded_signature (serialise blobs);
          blobs = entries_from 0 (12 + 8 * length blobs) blobs;
        }
    from_bytes-create_superblob = rw layout (unfold whole in whole_read)
