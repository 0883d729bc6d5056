-- ===== src/Codesign/Signature/Tests.antt =====
-- Runs of the blob types and of the accessors of embedded_signature.rs at concrete inputs.
use mathlib.Core.Logic.{if_neg}
use apple_platform_rs.Base.{
  ◌+◌, ◌*◌, ◌≡◌, ◌≢◌, refl, List, [], ◌∷◌, ◌++◌, some, none, ok, ◌>>=◌, arith, All, length,
}
use apple_platform_rs.Codesign.Blob.CodeSigningMagic
use apple_platform_rs.Codesign.Blob.CodeSigningSlot
use apple_platform_rs.Codesign.Blob.CodeSigningSlot.{CodeSigningSlot}
use apple_platform_rs.Codesign.Blob.SuperBlob.{
  EmbeddedSignature, create_superblob, from_bytes, find_slot, find_blob,
}
use apple_platform_rs.Codesign.Blob.SuperBlob.Entries.{
  Stored, IsStored, serialise, entries_from, size,
}
use apple_platform_rs.Codesign.Blob.SuperBlob.RoundTrip.{from_bytes-create_superblob}
use apple_platform_rs.Codesign.Requirement.RequirementType
use apple_platform_rs.Codesign.RequirementSet
use apple_platform_rs.Codesign.RequirementSet.{RequirementSetBlob}
use apple_platform_rs.Codesign.RequirementSet.RoundTrip.{
  HasNumber, from_blob_bytes-to_blob_bytes_set,
}
use apple_platform_rs.Codesign.CodeDirectory.Sample.{
  directory, directory-IsWritable, length-directory,
}
use apple_platform_rs.Codesign.CodeDirectory.RoundTrip.{normalised, layout}
use apple_platform_rs.Codesign.CodeDirectory.RoundTrip.Written.{serialize_payload-layout}
use apple_platform_rs.Codesign.BlobData
use apple_platform_rs.Codesign.BlobData.{BlobData}
use apple_platform_rs.Codesign.BlobData.RoundTrip.{from_blob_bytes-to_blob_bytes_data}
use apple_platform_rs.Codesign.Signature.{
  Directories, code_directory, all_code_directories, alternate_code_directories,
  preferred_code_directory, directories_in, in_slot, find_slot_parsed, parse_found, take_slot,
  push_found,
}
use apple_platform_rs.Codesign.Signature.Found.{stored_directory, code_directory-create_superblob}
use apple_platform_rs.Codesign.Signature.Preferred.{
  IsPreferred, preferred_code_directory-IsPreferred,
}

-- Two requirements, under a known and under an unknown type.
abbrev requirements : RequirementSetBlob
requirements =
    (RequirementType.designated, 1 ∷ 2 ∷ 3 ∷ []) ∷ (RequirementType.unknown 9, 4 ∷ []) ∷ []

requirements-HasNumber : All HasNumber requirements
unfolding RequirementType.from_u32 RequirementType.to_u32
requirements-HasNumber = ((refl, omega arith), ((refl, omega arith), tt))

from_blob_bytes-to_blob_bytes_set_example :
    RequirementSet.from_blob_bytes (RequirementSet.to_blob_bytes requirements) ≡ ok requirements
from_blob_bytes-to_blob_bytes_set_example =
    from_blob_bytes-to_blob_bytes_set requirements (((λ e. cc), tt), (tt, tt))
      requirements-HasNumber (omega arith)

from_blob_bytes-to_blob_bytes_data_example :
    (BlobData.to_blob_bytes (BlobData.code_directory directory) >>= BlobData.from_blob_bytes)
    ≡ ok (BlobData.code_directory (normalised directory))
from_blob_bytes-to_blob_bytes_data_example =
    from_blob_bytes-to_blob_bytes_data (BlobData.code_directory directory) directory-IsWritable

-- A signature with requirements in front of the code directory.
abbrev other : Stored
other = (CodeSigningSlot.requirement_set, 0xfade0c01, 0 ∷ 0 ∷ 0 ∷ 0 ∷ [])

abbrev blobs : List Stored
blobs = (other ∷ []) ++ (stored_directory (layout directory) ∷ [])

blobs-IsStored : All IsStored blobs
unfolding CodeSigningSlot.from_u32 CodeSigningSlot.to_u32 CodeSigningMagic.to_u32
blobs-IsStored = ((refl, omega arith, omega arith), ((refl, omega arith, omega arith), tt))

abbrev signature : EmbeddedSignature
signature = record {
  magic = CodeSigningMagic.embedded_signature;
  len = 12 + 8 * length blobs + size blobs;
  count = length blobs;
  bytes = create_superblob CodeSigningMagic.embedded_signature (serialise blobs);
  blobs = entries_from 0 (12 + 8 * length blobs) blobs;
}

written :
    from_bytes (create_superblob CodeSigningMagic.embedded_signature (serialise blobs))
    ≡ ok signature
written = from_bytes-create_superblob blobs blobs-IsStored (omega (arith, length-directory))

code_directory-create_superblob_example :
    code_directory signature ≡ ok (some (normalised directory))
code_directory-create_superblob_example =
    code_directory-create_superblob (other ∷ []) [] directory (layout directory) signature
      directory-IsWritable (serialize_payload-layout directory directory-IsWritable) blobs-IsStored
      (omega (arith, length-directory)) ((λ e. cc), tt) written

abbrev directories : Directories
directories = (CodeSigningSlot.code_directory, normalised directory) ∷ []

found_directory : code_directory signature ≡ ok (some (normalised directory))
found_directory =
    code_directory-create_superblob (other ∷ []) [] directory (layout directory) signature
      directory-IsWritable (serialize_payload-layout directory directory-IsWritable) blobs-IsStored
      (omega (arith, length-directory)) ((λ e. cc), tt) written

nothing_in :
    (slot : CodeSigningSlot)
    → CodeSigningSlot.requirement_set ≢ slot
    → CodeSigningSlot.code_directory ≢ slot
    → find_slot signature slot ≡ none
unfolding find_slot find_blob
nothing_in slot n m = rw (if_neg _ n, if_neg _ m) refl

all_directories : all_code_directories signature ≡ ok directories
unfolding all_code_directories alternate_code_directories directories_in in_slot find_slot_parsed
    parse_found take_slot push_found
all_directories = rw (
  found_directory,
  nothing_in CodeSigningSlot.alternate_code_directory0 (λ e. cc) (λ e. cc),
  nothing_in CodeSigningSlot.alternate_code_directory1 (λ e. cc) (λ e. cc),
  nothing_in CodeSigningSlot.alternate_code_directory2 (λ e. cc) (λ e. cc),
  nothing_in CodeSigningSlot.alternate_code_directory3 (λ e. cc) (λ e. cc),
  nothing_in CodeSigningSlot.alternate_code_directory4 (λ e. cc) (λ e. cc),
)

preferred_code_directory-IsPreferred_example :
    IsPreferred directories (preferred_code_directory signature)
preferred_code_directory-IsPreferred_example =
    preferred_code_directory-IsPreferred signature directories all_directories
