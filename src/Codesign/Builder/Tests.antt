-- ===== src/Codesign/Builder/Tests.antt =====
-- Runs of the builder of embedded_signature_builder.rs at concrete inputs.
use apple_platform_rs.Base.{
  All, is_utf8, ◌>>=◌, ◌%◌, ◌≡◌, refl, [], ◌∷◌, some, ok, panic, Bytes, length, true, u32_bytes,
  arith,
}
use apple_platform_rs.Codesign.DigestType.{Hasher, digest_data, as_hasher, truncate_hash}
use apple_platform_rs.Codesign.Blob.CodeSigningSlot
use apple_platform_rs.Codesign.Blob.CodeSigningSlot.{
  is_code_directory_specials_expressible, is_alternative_code_directory, le,
}
use apple_platform_rs.Codesign.Blob.SuperBlob
use apple_platform_rs.Codesign.Blob.CodeSigningMagic
use apple_platform_rs.Codesign.Blob.Header
use apple_platform_rs.Codesign.CodeDirectory.Data.{CodeDirectoryBlob}
use apple_platform_rs.Codesign.CodeDirectory.Sample.{
  directory, directory-IsWritable, length-directory,
}
use apple_platform_rs.Codesign.CodeDirectory.Slots.{insert, get, set_slot_digest}
use apple_platform_rs.Codesign.BlobData
use apple_platform_rs.Codesign.BlobData.{BlobData}
use apple_platform_rs.Codesign.Builder.{
  signature_added, new_for_stapling, Blobs, EmbeddedSignatureBuilder, Signer, special_added,
  code_directory_added, default, add_blob, add_code_directory, add_alternative_code_directory,
  add_notarization_ticket, create_empty_cms_signature, create_superblob, accepts_blobs, is_reserved,
  is_signature_added, seal_slots, seal_slot, digest_with, register_code_directory, with_primary,
  code_directory, expect_code_directory, is_code_directory_slot, alternative_slot, next_alternative,
  register_signature, blobs_bytes,
}
use apple_platform_rs.Codesign.Builder.Ascending.{IsAscending}
use apple_platform_rs.Codesign.Builder.Sealed.{IsSealed}
use apple_platform_rs.Codesign.Builder.Stapling.{
  IsEntry, normal_blobs, new_for_stapling-create_superblob,
}
use apple_platform_rs.Codesign.Builder.Steps.{Step, Reaches, Reaches-IsSealed}
use apple_platform_rs.Codesign.Builder.Alternative.{
  SlotOutcome, HasNormalKeys, alternative-SlotOutcome,
}

-- A short hash: the length of the data.
abbrev hasher : Hasher
hasher algorithm bytes = length bytes % 256 ∷ 7 ∷ []

abbrev signer : Signer
signer content cdhashes attributes = ok (length cdhashes ∷ [])

-- Entitlements of two bytes, and what a code directory says of them.
abbrev plist : BlobData
plist = BlobData.entitlements (97 ∷ 98 ∷ [])

abbrev with_blob : EmbeddedSignatureBuilder
with_blob = record { state = special_added; blobs = (CodeSigningSlot.entitlements, plist) ∷ [] }

abbrev written : CodeDirectoryBlob
written = record directory {
  special_digests = insert CodeSigningSlot.entitlements (10 ∷ 7 ∷ []) directory.special_digests;
}

abbrev with_directory : EmbeddedSignatureBuilder
with_directory = record {
  state = code_directory_added;
  blobs =
      (CodeSigningSlot.code_directory, BlobData.code_directory written)
      ∷ (CodeSigningSlot.entitlements, plist)
      ∷ [];
}

with_blob_added : add_blob CodeSigningSlot.entitlements plist default ≡ ok with_blob
unfolding add_blob accepts_blobs is_reserved default insert
with_blob_added = refl

with_directory_added :
    add_code_directory hasher CodeSigningSlot.code_directory directory with_blob
    ≡ ok (with_directory, written)
unfolding add_code_directory is_signature_added seal_slots seal_slot
    is_code_directory_specials_expressible le CodeSigningSlot.to_u32 digest_with digest_data
    as_hasher truncate_hash BlobData.to_blob_bytes Header.to_blob_bytes set_slot_digest
    register_code_directory insert get with_primary code_directory expect_code_directory
    CodeSigningMagic.to_u32 u32_bytes
with_directory_added = refl

directory_slot : is_code_directory_slot CodeSigningSlot.code_directory ≡ true
unfolding is_code_directory_slot
directory_slot = refl

reached : Reaches hasher signer (add_notarization_ticket (1 ∷ []) with_directory)
reached =
    Reaches.next
      (Reaches.next
        (Reaches.next Reaches.start
          (Step.blob_added CodeSigningSlot.entitlements plist default with_blob with_blob_added))
        (Step.directory_added CodeSigningSlot.code_directory directory written with_blob
          with_directory directory_slot with_directory_added))
      (Step.ticket_added (1 ∷ []) with_directory)

directory_found :
    get CodeSigningSlot.code_directory (add_notarization_ticket (1 ∷ []) with_directory).blobs
    ≡ some (BlobData.code_directory written)
unfolding add_notarization_ticket insert get CodeSigningSlot.to_u32
directory_found = refl

Reaches-IsSealed_example :
    IsSealed hasher (add_notarization_ticket (1 ∷ []) with_directory).blobs written
Reaches-IsSealed_example =
    Reaches-IsSealed CodeSigningSlot.code_directory written reached directory_found

-- Alternative slots 0 and 2 are taken.
abbrev taken : Blobs
taken =
    (CodeSigningSlot.alternate_code_directory0, BlobData.code_directory written)
    ∷ (CodeSigningSlot.alternate_code_directory2, BlobData.code_directory written)
    ∷ []

taken-HasNormalKeys : HasNormalKeys taken
unfolding CodeSigningSlot.from_u32 CodeSigningSlot.to_u32
taken-HasNormalKeys = (refl, (refl, tt))

taken-IsAscending : IsAscending taken
unfolding CodeSigningSlot.to_u32
taken-IsAscending = ((omega arith, tt), (tt, tt))

alternative-SlotOutcome_example :
    SlotOutcome (get CodeSigningSlot.alternate_code_directory4 taken) taken
alternative-SlotOutcome_example =
    alternative-SlotOutcome taken taken-HasNormalKeys taken-IsAscending

-- An alternative code directory without a primary one is inserted, and then the primary one is
-- expected.
alternative_without_primary : add_alternative_code_directory hasher directory with_blob ≡ panic
unfolding add_alternative_code_directory alternative_slot next_alternative
    is_alternative_code_directory add_code_directory is_signature_added seal_slots seal_slot
    is_code_directory_specials_expressible le CodeSigningSlot.to_u32 digest_with digest_data
    as_hasher truncate_hash BlobData.to_blob_bytes Header.to_blob_bytes set_slot_digest
    register_code_directory insert get with_primary code_directory expect_code_directory
alternative_without_primary = refl

-- An empty signature alone is enough for a superblob without a code directory.
superblob_without_directory :
    (bytes : Bytes) × (create_superblob (create_empty_cms_signature default) ≡ ok bytes)
unfolding create_superblob create_empty_cms_signature register_signature default accepts_blobs
    insert blobs_bytes BlobData.to_blob_bytes
superblob_without_directory = (
  SuperBlob.create_superblob CodeSigningMagic.embedded_signature (
      (
        CodeSigningSlot.signature,
        Header.to_blob_bytes (CodeSigningMagic.to_u32 CodeSigningMagic.blob_wrapper) [],
      )
      ∷ []),
  refl,
)

-- A code directory, entitlements and an empty signature.
abbrev signed : EmbeddedSignatureBuilder
signed = record {
  state = signature_added;
  blobs =
      (CodeSigningSlot.code_directory, BlobData.code_directory directory)
      ∷ (CodeSigningSlot.entitlements, plist)
      ∷ (CodeSigningSlot.signature, BlobData.blob_wrapper [])
      ∷ [];
}

signed-IsEntry : All IsEntry signed.blobs
unfolding CodeSigningSlot.from_u32 CodeSigningSlot.to_u32 is_utf8
signed-IsEntry = (
  (refl, omega arith, directory-IsWritable),
  ((refl, omega arith, (omega arith, refl)), ((refl, omega arith, omega arith), tt)),
)

signed-IsAscending : IsAscending signed.blobs
unfolding CodeSigningSlot.to_u32
signed-IsAscending = ((omega arith, (omega arith, tt)), ((omega arith, tt), (tt, tt)))

new_for_stapling-create_superblob_example :
    (create_superblob signed >>= SuperBlob.from_bytes >>= new_for_stapling)
    ≡ ok (record { state = code_directory_added; blobs = normal_blobs signed.blobs })
new_for_stapling-create_superblob_example =
    new_for_stapling-create_superblob signed (unfold accepts_blobs in refl) signed-IsEntry
      signed-IsAscending (omega (arith, length-directory))
