-- ===== src/Codesign/Blob/SuperBlob/Entries.antt =====
-- The entries that a superblob over serialised blobs has, and the reading of each.
use apple_platform_rs.Base.{
  ℕ, suc, ◌+◌, ◌%◌, ◌^◌, ◌≡◌, refl, ap, List, [], ◌∷◌, ◌++◌, ok, Bytes, IsU32, length, u32_bytes,
  pread_u32, All, arith, append_assoc, length-append, length-u32_bytes, slice-append, ge→ltb,
  ==_refl, pread_u32-append,
}
use apple_platform_rs.Codesign.Error.{Error, scroll}
use apple_platform_rs.Codesign.Blob.CodeSigningMagic
use apple_platform_rs.Codesign.Blob.CodeSigningSlot
use apple_platform_rs.Codesign.Blob.CodeSigningSlot.{CodeSigningSlot, IsNormal}
use apple_platform_rs.Codesign.Blob.Header.{to_blob_bytes, read_blob_header-to_blob_bytes}
use apple_platform_rs.Codesign.Blob.SuperBlob.{
  BlobIndex, BlobEntry, place, write_indices, read_indices, cut_blob, read_entry,
}

-- A slot with the magic and the payload of the blob in it.
abbrev pub Stored : Type 0
Stored = CodeSigningSlot × ℕ × Bytes

abbrev pub IsStored : Stored → Type 0
IsStored (slot, magic, payload) = IsNormal slot × IsU32 (CodeSigningSlot.to_u32 slot) × IsU32 magic

abbrev pub serialise : List Stored → List (CodeSigningSlot × Bytes)
serialise [] = []
serialise ((slot, magic, payload) ∷ blobs) = (slot, to_blob_bytes magic payload) ∷ serialise blobs

-- The bytes of all blobs.
abbrev pub size : List Stored → ℕ
size [] = 0
size ((slot, magic, payload) ∷ blobs) = length payload + 8 + size blobs

abbrev pub indices_from : ℕ → List Stored → List BlobIndex
indices_from offset [] = []
indices_from offset ((slot, magic, payload) ∷ blobs) =
    record { typ = CodeSigningSlot.to_u32 slot; offset = offset }
    ∷ indices_from (offset + (length payload + 8)) blobs

abbrev pub entry : ℕ → ℕ → Stored → BlobEntry
entry i offset (slot, magic, payload) = record {
  index = i;
  slot = slot;
  offset = offset;
  magic = CodeSigningMagic.from_u32 magic;
  len = length payload + 8;
  bytes = to_blob_bytes magic payload;
}

-- The entries of the blobs, the first of them numbered `i` and at `offset`.
abbrev pub entries_from : ℕ → ℕ → List Stored → List BlobEntry
entries_from i offset [] = []
entries_from i offset ((slot, magic, payload) ∷ blobs) =
    entry i offset (slot, magic, payload)
    ∷ entries_from (i + 1) (offset + (length payload + 8)) blobs

pub length-to_blob_bytes :
    (magic : ℕ) (payload : Bytes) → length (to_blob_bytes magic payload) ≡ length payload + 8
unfolding to_blob_bytes u32_bytes
length-to_blob_bytes magic payload = omega arith

pub length-serialise : (blobs : List Stored) → length (serialise blobs) ≡ length blobs
length-serialise [] = refl
length-serialise ((slot, magic, payload) ∷ blobs) = ap suc (length-serialise blobs)

pub length-indices_from :
    (offset : ℕ) (blobs : List Stored) → length (indices_from offset blobs) ≡ length blobs
length-indices_from offset [] = refl
length-indices_from offset ((slot, magic, payload) ∷ blobs) =
    ap suc (length-indices_from (offset + (length payload + 8)) blobs)

pub place-serialise :
    (offset : ℕ) (blobs : List Stored)
    → IsU32 (offset + size blobs)
    → place offset (serialise blobs) ≡ (indices_from offset blobs, offset + size blobs)
unfolding place
place-serialise offset [] h = ground arith
place-serialise offset ((slot, magic, payload) ∷ blobs) h =
    rw
      (
        length-to_blob_bytes,
        step,
        place-serialise (offset + (length payload + 8)) blobs (omega arith),
      )
      (ground arith)
  where
    step : (offset + (length payload + 8) % 2 ^ 32) % 2 ^ 32 ≡ offset + (length payload + 8)
    step = omega arith

abbrev pub IsIndex : BlobIndex → Type 0
IsIndex index = IsU32 index.typ × IsU32 index.offset

pub indices_from-IsIndex :
    (offset : ℕ) (blobs : List Stored)
    → All IsStored blobs
    → IsU32 (offset + size blobs)
    → All IsIndex (indices_from offset blobs)
indices_from-IsIndex offset [] s h = tt
indices_from-IsIndex offset ((slot, magic, payload) ∷ blobs) s h = (
  (s.0.1, omega arith),
  indices_from-IsIndex (offset + (length payload + 8)) blobs s.1 (omega arith),
)

-- The index table is read back from the middle of the data.
pub read_indices-write_indices :
    (indices : List BlobIndex) (at : ℕ) (front rest : Bytes)
    → All IsIndex indices
    → length front ≡ at
    → read_indices (length indices) at (front ++ (write_indices indices ++ rest)) ≡ ok indices
unfolding read_indices write_indices
read_indices-write_indices [] at front rest h w = refl
read_indices-write_indices (index ∷ indices) at front rest ((typ_fits, offset_fits), h) w =
    rw (typ, start, more (read_indices-write_indices indices (at + 8) _ rest h offset_width))
  where
    typ_bytes : Bytes
    typ_bytes = u32_bytes index.typ

    offset_bytes : Bytes
    offset_bytes = u32_bytes index.offset

    whole : Bytes
    whole = front ++ ((typ_bytes ++ (offset_bytes ++ write_indices indices)) ++ rest)

    typ : pread_u32 scroll whole at ≡ ok index.typ
    typ =
        rw (append_assoc typ_bytes, pread_u32-append scroll at index.typ front _ w)
          (ap ok (omega arith))

    at_start : whole ≡ (front ++ typ_bytes) ++ (offset_bytes ++ (write_indices indices ++ rest))
    at_start = simp append_assoc

    at_next : whole ≡ ((front ++ typ_bytes) ++ offset_bytes) ++ (write_indices indices ++ rest)
    at_next = simp append_assoc

    typ_width : length (front ++ typ_bytes) ≡ at + 4
    typ_width = omega (arith, length-append front typ_bytes, length-u32_bytes index.typ)

    offset_width : length ((front ++ typ_bytes) ++ offset_bytes) ≡ at + 8
    offset_width = omega (
      arith,
      typ_width,
      length-append (front ++ typ_bytes) offset_bytes,
      length-u32_bytes index.offset,
    )

    start : pread_u32 scroll whole (at + 4) ≡ ok index.offset
    start =
        rw (at_start, pread_u32-append scroll (at + 4) index.offset _ _ typ_width)
          (ap ok (omega arith))

    more :
        read_indices
            (length indices)
            (at + 8)
            (((front ++ typ_bytes) ++ offset_bytes) ++ (write_indices indices ++ rest))
          ≡ ok indices
        → read_indices (length indices) (at + 8) whole ≡ ok indices
    more ih = rw at_next ih

pub read_entry-to_blob_bytes :
    (i offset end : ℕ) (stored : Stored) (front back : Bytes)
    → IsStored stored
    → IsU32 (length stored.2 + 8)
    → length front ≡ offset
    → offset + (length stored.2 + 8) ≡ end
    → read_entry
        (front ++ (to_blob_bytes stored.1 stored.2 ++ back))
        i
        (record { typ = CodeSigningSlot.to_u32 stored.0; offset = offset })
        end
      ≡ ok (entry i offset stored)
unfolding read_entry cut_blob
read_entry-to_blob_bytes i offset end (slot, magic, payload) front back (normal, _, hm) short w e =
    rw (
      slice-append {E = Error} offset end front (to_blob_bytes magic payload) back w width,
      read_blob_header-to_blob_bytes magic payload hm short,
      length-to_blob_bytes,
      ge→ltb (length payload + 8) (length payload + 8) (omega arith),
      ==_refl,
      normal,
    )
  where
    width : offset + length (to_blob_bytes magic payload) ≡ end
    width = rw (length-to_blob_bytes, e)
