-- ===== src/Codesign/Blob/SuperBlob.antt =====
-- The superblob of embedded_signature.rs, written by `create_superblob` and read by
-- `EmbeddedSignature::from_bytes`.
pub mod RoundTrip
pub mod Entries
pub mod Slots
pub mod Bounds
use apple_platform_rs.Base.{
  ℕ, zero, suc, ◌+◌, ◌*◌, ◌-◌, ◌%◌, ◌^◌, ◌<◌, ◌≤◌, ◌≡◌, refl, Bool, true, false, List, [], ◌∷◌,
  ◌++◌, Option, none, some, ok, err, ◌>>=◌, Bytes, length, u32_bytes, pread_u32, slice, ltb, ◌==◌,
  if◌then◌else◌, map, ℕ_discrete,
}
use mathlib.Core.Logic.{ite}
use apple_platform_rs.Codesign.Error.{Result, scroll, bad_magic, superblob_malformed}
use apple_platform_rs.Codesign.Blob.CodeSigningMagic
use apple_platform_rs.Codesign.Blob.CodeSigningMagic.{CodeSigningMagic}
use apple_platform_rs.Codesign.Blob.CodeSigningSlot
use apple_platform_rs.Codesign.Blob.CodeSigningSlot.{CodeSigningSlot}
use apple_platform_rs.Codesign.Blob.Header.{read_blob_header}

pub record BlobIndex : Type 0 where
  pub typ : ℕ
  pub offset : ℕ

-- The loop over the blobs: the indices from a total length on, and the total length behind them.
-- The u32 sums wrap.
unfoldable pub place : ℕ → List (CodeSigningSlot × Bytes) → List BlobIndex × ℕ
place total_length [] = ([], total_length)
place total_length ((slot, blob) ∷ blobs) =
    let (indices, end) = place ((total_length + length blob % 2 ^ 32) % 2 ^ 32) blobs in
    (record { typ = CodeSigningSlot.to_u32 slot; offset = total_length } ∷ indices, end)

unfoldable pub write_indices : List BlobIndex → Bytes
write_indices [] = []
write_indices (index ∷ indices) =
    u32_bytes index.typ ++ (u32_bytes index.offset ++ write_indices indices)

unfoldable pub write_blobs : List (CodeSigningSlot × Bytes) → Bytes
write_blobs [] = []
write_blobs ((slot, blob) ∷ blobs) = blob ++ write_blobs blobs

-- Magic, total length and count, then 8 bytes for each blob index.
unfoldable pub first_offset : List (CodeSigningSlot × Bytes) → ℕ
first_offset blobs = (4 + 4 + 4 + 8 * (length blobs % 2 ^ 32)) % 2 ^ 32

unfoldable pub create_superblob : CodeSigningMagic → List (CodeSigningSlot × Bytes) → Bytes
create_superblob magic blobs =
    let (indices, total_length) = place (first_offset blobs) blobs in
    u32_bytes (CodeSigningMagic.to_u32 magic)
    ++ (u32_bytes total_length
        ++ (u32_bytes (length indices) ++ (write_indices indices ++ write_blobs blobs)))

pub record BlobEntry : Type 0 where
  pub index : ℕ
  pub slot : CodeSigningSlot
  pub offset : ℕ
  pub magic : CodeSigningMagic
  pub len : ℕ
  pub bytes : Bytes

pub record EmbeddedSignature : Type 0 where
  pub magic : CodeSigningMagic
  pub len : ℕ
  pub count : ℕ
  pub bytes : Bytes
  pub blobs : List BlobEntry

unfoldable pub read_indices : ℕ → ℕ → Bytes → Result (List BlobIndex)
read_indices zero offset data' = ok []
read_indices (suc count) offset data' = do
  typ ← pread_u32 scroll data' offset
  start ← pread_u32 scroll data' (offset + 4)
  rest ← read_indices count (offset + 8) data'
  ok (record { typ = typ; offset = start } ∷ rest)

-- The self-reported length of a blob cuts the slice up to the next blob.
unfoldable pub cut_blob : ℕ → Bytes → Result Bytes
cut_blob blob_length full_slice =
    if ltb (length full_slice) blob_length
    then err superblob_malformed
    else if blob_length == length full_slice
    then ok full_slice
    else slice 0 blob_length full_slice

unfoldable pub read_entry : Bytes → ℕ → BlobIndex → ℕ → Result BlobEntry
read_entry data' i index end_offset = do
  full_slice ← slice index.offset end_offset data'
  (magic, blob_length, _) ← read_blob_header full_slice
  blob_data ← cut_blob blob_length full_slice
  ok record {
    index = i;
    slot = CodeSigningSlot.from_u32 index.typ;
    offset = index.offset;
    magic = CodeSigningMagic.from_u32 magic;
    len = blob_length;
    bytes = blob_data;
  }

-- A blob ends where the next one starts, the last one at the end of the data.
unfoldable pub end_of : Bytes → List BlobIndex → ℕ
end_of data' [] = length data'
end_of data' (next ∷ _) = next.offset

unfoldable pub read_entries : Bytes → ℕ → List BlobIndex → Result (List BlobEntry)
read_entries data' i [] = ok []
read_entries data' i (index ∷ indices) = do
  entry ← read_entry data' i index (end_of data' indices)
  rest ← read_entries data' (i + 1) indices
  ok (entry ∷ rest)

-- `magic == CodeSigningMagic::EmbeddedSignature`
unfoldable pub is_embedded_signature : CodeSigningMagic → Bool
is_embedded_signature CodeSigningMagic.embedded_signature = true
is_embedded_signature _ = false

unfoldable pub from_bytes : Bytes → Result EmbeddedSignature
from_bytes data' = do
  raw ← pread_u32 scroll data' 0
  let magic = CodeSigningMagic.from_u32 raw
  let parse = do
    len ← pread_u32 scroll data' 4
    count ← pread_u32 scroll data' 8
    indices ← read_indices count 12 data'
    blobs ← read_entries data' 0 indices
    ok (record { magic = magic; len = len; count = count; bytes = data'; blobs = blobs })
  if is_embedded_signature magic then parse else err (bad_magic "embedded signature super blob")

-- `==` on slots.
pub CodeSigningSlot-discrete : Discrete CodeSigningSlot
CodeSigningSlot-discrete = hlevel ℕ_discrete

unfoldable pub find_blob : CodeSigningSlot → List BlobEntry → Option BlobEntry
find_blob slot [] = none
find_blob slot (entry ∷ entries) =
    ite (CodeSigningSlot-discrete entry.slot slot) (some entry) (find_blob slot entries)

-- The first blob of a slot.
unfoldable pub find_slot : EmbeddedSignature → CodeSigningSlot → Option BlobEntry
find_slot signature slot = find_blob slot signature.blobs
