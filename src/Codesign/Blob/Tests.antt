-- ===== src/Codesign/Blob/Tests.antt =====
-- Runs of the superblob code at concrete inputs, and its theorems there.
use apple_platform_rs.Base.{◌≡◌, refl, List, [], ◌∷◌, some, ok, arith, All}
use apple_platform_rs.Codesign.Blob.CodeSigningMagic
use apple_platform_rs.Codesign.Blob.CodeSigningSlot
use apple_platform_rs.Codesign.Blob.CodeSigningSlot.{CodeSigningSlot, specials_exclusive}
use apple_platform_rs.Codesign.Blob.SuperBlob
use apple_platform_rs.Codesign.Blob.SuperBlob.{EmbeddedSignature, BlobEntry}
use apple_platform_rs.Codesign.Blob.SuperBlob.Entries.{
  Stored, IsStored, serialise, entry, entries_from,
}
use apple_platform_rs.Codesign.Blob.SuperBlob.RoundTrip.{from_bytes-create_superblob}
use apple_platform_rs.Codesign.Blob.SuperBlob.Slots.{find_slot-create_superblob}
use apple_platform_rs.Codesign.Blob.SuperBlob.Bounds.{IsSound, from_bytes-IsSound}

-- A requirement set, and an empty CMS signature.
abbrev requirements : Stored
requirements = (CodeSigningSlot.requirement_set, 0xfade0c01, 0 ∷ 0 ∷ 0 ∷ 0 ∷ [])

abbrev cms : Stored
cms = (CodeSigningSlot.signature, 0xfade0b01, [])

abbrev stored : List Stored
stored = requirements ∷ cms ∷ []

stored-IsStored : All IsStored stored
unfolding CodeSigningSlot.from_u32 CodeSigningSlot.to_u32
stored-IsStored = ((refl, omega arith, omega arith), ((refl, omega arith, omega arith), tt))

abbrev stored_signature : EmbeddedSignature
stored_signature = record {
  magic = CodeSigningMagic.embedded_signature;
  len = 48;
  count = 2;
  bytes = SuperBlob.create_superblob CodeSigningMagic.embedded_signature (serialise stored);
  blobs = entries_from 0 28 stored;
}

from_bytes-create_superblob_example :
    SuperBlob.from_bytes
      (SuperBlob.create_superblob CodeSigningMagic.embedded_signature (serialise stored))
    ≡ ok stored_signature
from_bytes-create_superblob_example =
    from_bytes-create_superblob stored stored-IsStored (omega arith)

find_slot-create_superblob_example :
    SuperBlob.find_slot stored_signature CodeSigningSlot.signature ≡ some (entry 1 40 cms)
find_slot-create_superblob_example =
    find_slot-create_superblob (requirements ∷ []) [] cms stored_signature stored-IsStored
      (omega arith) ((λ e. cc), tt) from_bytes-create_superblob_example

from_bytes-IsSound_example :
    IsSound
      (SuperBlob.create_superblob CodeSigningMagic.embedded_signature (serialise stored))
      stored_signature
from_bytes-IsSound_example =
    from_bytes-IsSound
      (SuperBlob.create_superblob CodeSigningMagic.embedded_signature (serialise stored))
      stored_signature from_bytes-create_superblob_example
