-- ===== src/Codesign/Builder/Stapling.antt =====
-- A superblob that the builder of embedded_signature_builder.rs wrote, opened again for stapling.
use apple_platform_rs.Base.{
  ℕ, ◌+◌, ◌*◌, ◌<◌, ◌≡◌, refl, sym, ap, ◌∙◌, false, List, [], ◌∷◌, ◌++◌, ok, ◌>>=◌, Bytes, IsU32,
  length, All, All-append, arith, append_assoc, append-nil,
}
use apple_platform_rs.Codesign.Blob.CodeSigningMagic
use apple_platform_rs.Codesign.Blob.CodeSigningMagic.{CodeSigningMagic}
use apple_platform_rs.Codesign.Blob.CodeSigningSlot
use apple_platform_rs.Codesign.Blob.CodeSigningSlot.{CodeSigningSlot, IsNormal}
use apple_platform_rs.Codesign.Blob.Header
use apple_platform_rs.Codesign.Blob.SuperBlob
use apple_platform_rs.Codesign.Blob.SuperBlob.{EmbeddedSignature}
use apple_platform_rs.Codesign.Blob.SuperBlob.Entries.{
  Stored, IsStored, serialise, size, entries_from,
}
use apple_platform_rs.Codesign.Blob.SuperBlob.RoundTrip.{from_bytes-create_superblob}
use apple_platform_rs.Codesign.Requirement.Set.{requirement_to_blob_bytes}
use apple_platform_rs.Codesign.RequirementSet
use apple_platform_rs.Codesign.CodeDirectory.Slots.{insert}
use apple_platform_rs.Codesign.CodeDirectory.Serialize
use apple_platform_rs.Codesign.CodeDirectory.RoundTrip.{layout}
use apple_platform_rs.Codesign.CodeDirectory.RoundTrip.Written.{serialize_payload-layout}
use apple_platform_rs.Codesign.BlobData
use apple_platform_rs.Codesign.BlobData.{BlobData}
use apple_platform_rs.Codesign.BlobData.RoundTrip.{
  IsFormed, normal, from_blob_bytes-to_blob_bytes_data,
}
use apple_platform_rs.Codesign.Signature.{into_parsed_blob}
use apple_platform_rs.Codesign.Builder.Ascending.{IsAbove, IsAscending}
use apple_platform_rs.Codesign.Builder.{
  Blobs, EmbeddedSignatureBuilder, code_directory_added, accepts_blobs, collect_parsed,
  new_for_stapling, blobs_bytes, create_superblob,
}

-- What is written of a blob: the magic and what stands behind the header.
abbrev kind : BlobData → CodeSigningMagic
kind (BlobData.requirement _) = CodeSigningMagic.requirement
kind (BlobData.requirement_set _) = CodeSigningMagic.requirement_set
kind (BlobData.code_directory _) = CodeSigningMagic.code_directory
kind (BlobData.embedded_signature _) = CodeSigningMagic.embedded_signature
kind (BlobData.embedded_signature_old _) = CodeSigningMagic.embedded_signature_old
kind (BlobData.entitlements _) = CodeSigningMagic.entitlements
kind (BlobData.entitlements_der _) = CodeSigningMagic.entitlements_der
kind (BlobData.constraints_der _) = CodeSigningMagic.environment_contraints_der
kind (BlobData.detached_signature _) = CodeSigningMagic.detached_signature
kind (BlobData.blob_wrapper _) = CodeSigningMagic.blob_wrapper
kind (BlobData.other b) = CodeSigningMagic.unknown b.magic

abbrev payload_of : BlobData → Bytes
payload_of (BlobData.requirement b) = b
payload_of (BlobData.requirement_set b) = RequirementSet.serialize_payload b
payload_of (BlobData.code_directory b) = layout b
payload_of (BlobData.embedded_signature b) = b
payload_of (BlobData.embedded_signature_old b) = b
payload_of (BlobData.entitlements b) = b
payload_of (BlobData.entitlements_der b) = b
payload_of (BlobData.constraints_der b) = b
payload_of (BlobData.detached_signature b) = b
payload_of (BlobData.blob_wrapper b) = b
payload_of (BlobData.other b) = b.bytes

abbrev magic_of : BlobData → ℕ
magic_of blob = CodeSigningMagic.to_u32 (kind blob)

to_blob_bytes-payload_of :
    (blob : BlobData)
    → IsFormed blob
    → BlobData.to_blob_bytes blob ≡ ok (Header.to_blob_bytes (magic_of blob) (payload_of blob))
unfolding BlobData.to_blob_bytes requirement_to_blob_bytes RequirementSet.to_blob_bytes
    Serialize.to_blob_bytes
to_blob_bytes-payload_of (BlobData.requirement b) f = refl
to_blob_bytes-payload_of (BlobData.requirement_set b) f = refl
to_blob_bytes-payload_of (BlobData.code_directory b) f = rw (serialize_payload-layout b f) refl
to_blob_bytes-payload_of (BlobData.embedded_signature b) f = refl
to_blob_bytes-payload_of (BlobData.embedded_signature_old b) f = refl
to_blob_bytes-payload_of (BlobData.entitlements b) f = refl
to_blob_bytes-payload_of (BlobData.entitlements_der b) f = refl
to_blob_bytes-payload_of (BlobData.constraints_der b) f = refl
to_blob_bytes-payload_of (BlobData.detached_signature b) f = refl
to_blob_bytes-payload_of (BlobData.blob_wrapper b) f = refl
to_blob_bytes-payload_of (BlobData.other b) f = unfold CodeSigningMagic.to_u32 in refl

magic_of-IsU32 : (blob : BlobData) → IsFormed blob → IsU32 (magic_of blob)
unfolding CodeSigningMagic.to_u32
magic_of-IsU32 (BlobData.requirement b) f = omega arith
magic_of-IsU32 (BlobData.requirement_set b) f = omega arith
magic_of-IsU32 (BlobData.code_directory b) f = omega arith
magic_of-IsU32 (BlobData.embedded_signature b) f = omega arith
magic_of-IsU32 (BlobData.embedded_signature_old b) f = omega arith
magic_of-IsU32 (BlobData.entitlements b) f = omega arith
magic_of-IsU32 (BlobData.entitlements_der b) f = omega arith
magic_of-IsU32 (BlobData.constraints_der b) f = omega arith
magic_of-IsU32 (BlobData.detached_signature b) f = omega arith
magic_of-IsU32 (BlobData.blob_wrapper b) f = omega arith
magic_of-IsU32 (BlobData.other b) f = f.0

-- A slot and a blob that can be written and read back.
abbrev pub IsEntry : CodeSigningSlot × BlobData → Type 0
IsEntry (slot, blob) = IsNormal slot × IsU32 (CodeSigningSlot.to_u32 slot) × IsFormed blob

abbrev pub stored_blobs : Blobs → List Stored
stored_blobs [] = []
stored_blobs ((slot, blob) ∷ blobs) = (slot, magic_of blob, payload_of blob) ∷ stored_blobs blobs

-- What is read back of the blobs.
abbrev pub normal_blobs : Blobs → Blobs
normal_blobs [] = []
normal_blobs ((slot, blob) ∷ blobs) = (slot, normal blob) ∷ normal_blobs blobs

blobs_bytes-stored_blobs :
    (blobs : Blobs) → All IsEntry blobs → blobs_bytes blobs ≡ ok (serialise (stored_blobs blobs))
unfolding blobs_bytes
blobs_bytes-stored_blobs [] h = refl
blobs_bytes-stored_blobs ((slot, blob) ∷ blobs) h =
    rw (to_blob_bytes-payload_of blob h.0.2, blobs_bytes-stored_blobs blobs h.1) refl

stored_blobs-IsStored : (blobs : Blobs) → All IsEntry blobs → All IsStored (stored_blobs blobs)
stored_blobs-IsStored [] h = tt
stored_blobs-IsStored ((slot, blob) ∷ blobs) h =
    ((h.0.0, h.0.1, magic_of-IsU32 blob h.0.2), stored_blobs-IsStored blobs h.1)

parsed_blob :
    (blob : BlobData)
    → IsFormed blob
    → BlobData.from_blob_bytes (Header.to_blob_bytes (magic_of blob) (payload_of blob))
      ≡ ok (normal blob)
parsed_blob blob f =
    ap (λ r. r >>= BlobData.from_blob_bytes) (sym (to_blob_bytes-payload_of blob f))
    ∙ from_blob_bytes-to_blob_bytes_data blob f

-- Every slot of a map is below a number.
abbrev IsBelow : Blobs → CodeSigningSlot × BlobData → Type 0
IsBelow done (slot, _) =
    All (λ entry. CodeSigningSlot.to_u32 entry.0 < CodeSigningSlot.to_u32 slot) done

insert_last :
    (slot : CodeSigningSlot) (blob : BlobData) (done : Blobs)
    → IsBelow done (slot, blob)
    → insert slot blob done ≡ done ++ ((slot, blob) ∷ [])
unfolding insert
insert_last slot blob [] h = refl
insert_last slot blob ((key, value) ∷ done) h =
    let below = h.0 in ground (arith, insert_last slot blob done h.1)

IsBelow-next :
    (slot : CodeSigningSlot) (blob : BlobData) (done blobs : Blobs)
    → All (IsBelow done) blobs
    → IsAbove (CodeSigningSlot.to_u32 slot) blobs
    → All (IsBelow (done ++ ((slot, blob) ∷ []))) blobs
IsBelow-next slot blob done [] h a = tt
IsBelow-next slot blob done ((key, value) ∷ blobs) h a =
    (All-append _ done ((slot, blob) ∷ []) h.0 (a.0, tt), IsBelow-next slot blob done blobs h.1 a.1)

collect_parsed-entries_from :
    (i offset : ℕ) (done blobs : Blobs)
    → All IsEntry blobs
    → IsAscending blobs
    → All (IsBelow done) blobs
    → collect_parsed done (entries_from i offset (stored_blobs blobs))
      ≡ ok (done ++ normal_blobs blobs)
unfolding collect_parsed into_parsed_blob
collect_parsed-entries_from i offset done [] f a b = ap ok (sym (append-nil done))
collect_parsed-entries_from i offset done ((slot, blob) ∷ blobs) f a b =
    rw (parsed_blob blob f.0.2, insert_last slot (normal blob) done b.0)
      (collect_parsed-entries_from (i + 1) (offset + (length (payload_of blob) + 8))
          (done ++ ((slot, normal blob) ∷ [])) blobs f.1 a.1
          (IsBelow-next slot (normal blob) done blobs b.1 a.0)
        ∙ ap ok (append_assoc done ((slot, normal blob) ∷ []) (normal_blobs blobs)))

nothing-IsBelow : (blobs : Blobs) → All (IsBelow []) blobs
nothing-IsBelow [] = tt
nothing-IsBelow ((slot, blob) ∷ blobs) = (tt, nothing-IsBelow blobs)

-- The superblob that a builder writes is read by EmbeddedSignature::from_bytes and opened by
-- new_for_stapling as a builder with the same blobs in the same slots, code directories in their
-- normal form, in the state of a code directory that was added, provided the state of the builder
-- lets it write, its slots ascend, none of them is an Unknown of a number that has a name, slot
-- numbers and the total length fit 32 bits, and each blob can be written and read back.
pub new_for_stapling-create_superblob :
    (b : EmbeddedSignatureBuilder)
    → accepts_blobs b.state ≡ false
    → All IsEntry b.blobs
    → IsAscending b.blobs
    → IsU32 (12 + 8 * length (stored_blobs b.blobs) + size (stored_blobs b.blobs))
    → (create_superblob b >>= SuperBlob.from_bytes >>= new_for_stapling)
      ≡ ok (record { state = code_directory_added; blobs = normal_blobs b.blobs })
unfolding create_superblob new_for_stapling
new_for_stapling-create_superblob b closed f a fits =
    rw
      (
        closed,
        blobs_bytes-stored_blobs b.blobs f,
        from_bytes-create_superblob (stored_blobs b.blobs) (stored_blobs-IsStored b.blobs f) fits,
        collect_parsed-entries_from 0 (12 + 8 * length (stored_blobs b.blobs)) [] b.blobs f a
            (nothing-IsBelow b.blobs),
      )
      refl
