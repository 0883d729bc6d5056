-- ===== src/Codesign/Signature/Found.antt =====
-- The code directory that `code_directory` of embedded_signature.rs finds in a written superblob.
use apple_platform_rs.Base.{
  ◌+◌, ◌*◌, some, List, ◌∷◌, ◌++◌, ok, ◌>>=◌, ◌≡◌, ◌≢◌, refl, sym, ap, ◌∙◌, Bytes, IsU32, length,
  All,
}
use apple_platform_rs.Codesign.Blob.CodeSigningMagic
use apple_platform_rs.Codesign.Blob.CodeSigningSlot
use apple_platform_rs.Codesign.Blob.Header
use apple_platform_rs.Codesign.Blob.SuperBlob.{EmbeddedSignature, create_superblob, from_bytes}
use apple_platform_rs.Codesign.Blob.SuperBlob.Entries.{Stored, IsStored, serialise, size}
use apple_platform_rs.Codesign.Blob.SuperBlob.Slots.{find_slot-create_superblob}
use apple_platform_rs.Codesign.CodeDirectory.Data.{CodeDirectoryBlob}
use apple_platform_rs.Codesign.CodeDirectory.Serialize.{serialize_payload}
use apple_platform_rs.Codesign.CodeDirectory.Serialize
use apple_platform_rs.Codesign.CodeDirectory.RoundTrip.{IsWritable, normalised}
use apple_platform_rs.Codesign.BlobData
use apple_platform_rs.Codesign.BlobData.RoundTrip.{from_blob_bytes-to_blob_bytes_data}
use apple_platform_rs.Codesign.Signature.{
  into_parsed_blob, parse_found, find_slot_parsed, take_slot, in_slot, as_code_directory,
  code_directory,
}

-- A code directory in its slot, with its magic.
abbrev pub stored_directory : Bytes → Stored
stored_directory payload = (
  CodeSigningSlot.code_directory,
  CodeSigningMagic.to_u32 CodeSigningMagic.code_directory,
  payload,
)

parsed_directory :
    (cd : CodeDirectoryBlob) (payload : Bytes)
    → IsWritable cd
    → serialize_payload cd ≡ ok payload
    → BlobData.from_blob_bytes
        (Header.to_blob_bytes (CodeSigningMagic.to_u32 CodeSigningMagic.code_directory) payload)
      ≡ ok (BlobData.code_directory (normalised cd))
parsed_directory cd payload w e =
    ap (λ r. r >>= BlobData.from_blob_bytes) (sym written)
    ∙ from_blob_bytes-to_blob_bytes_data (BlobData.code_directory cd) w
  where
    written :
        BlobData.to_blob_bytes (BlobData.code_directory cd)
        ≡ ok
            (Header.to_blob_bytes (CodeSigningMagic.to_u32 CodeSigningMagic.code_directory) payload)
    written = unfold BlobData.to_blob_bytes Serialize.to_blob_bytes in rw e refl

-- In a superblob that create_superblob wrote with a serialised code directory in the primary slot,
-- behind blobs of other slots only, the signature read from it has that code directory, in its
-- normal form, provided it can be written and read back, slot numbers, magics and the total length
-- fit 32 bits, and no slot is an Unknown of a number that has a name.
pub code_directory-create_superblob :
    (front back : List Stored) (cd : CodeDirectoryBlob) (payload : Bytes)
    (signature : EmbeddedSignature)
    → IsWritable cd
    → serialize_payload cd ≡ ok payload
    → All IsStored (front ++ (stored_directory payload ∷ back))
    → IsU32 (
        12
        + 8 * length (front ++ (stored_directory payload ∷ back))
        + size (front ++ (stored_directory payload ∷ back)))
    → All (λ other. other.0 ≢ CodeSigningSlot.code_directory) front
    → from_bytes (
        create_superblob CodeSigningMagic.embedded_signature
          (serialise (front ++ (stored_directory payload ∷ back))))
      ≡ ok signature
    → code_directory signature ≡ ok (some (normalised cd))
unfolding code_directory in_slot find_slot_parsed parse_found into_parsed_blob take_slot
    as_code_directory
code_directory-create_superblob front back cd payload signature w e stored fits first read = rw (
  find_slot-create_superblob front back (stored_directory payload) signature stored fits first read,
  parsed_directory cd payload w e,
)
