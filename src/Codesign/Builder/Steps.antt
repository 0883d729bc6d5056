-- ===== src/Codesign/Builder/Steps.antt =====
-- The histories of a builder of embedded_signature_builder.rs, as steps of its operations.
use apple_platform_rs.Base.{◌≡◌, true, [], some, ok, Bytes}
use apple_platform_rs.Codesign.DigestType.{Hasher}
use apple_platform_rs.Codesign.Blob.CodeSigningSlot.{CodeSigningSlot}
use apple_platform_rs.Codesign.CodeDirectory.Data.{CodeDirectoryBlob}
use apple_platform_rs.Codesign.CodeDirectory.Slots.{get}
use apple_platform_rs.Codesign.BlobData.{BlobData}
use apple_platform_rs.Codesign.Builder.Sealed.{IsSealed}
use apple_platform_rs.Codesign.Builder.{
  EmbeddedSignatureBuilder, Signer, default, add_blob, add_code_directory,
  add_alternative_code_directory, create_cms_signature, create_empty_cms_signature,
  add_notarization_ticket, is_code_directory_slot,
}
use apple_platform_rs.Codesign.Builder.Consistent.{
  IsConsistent, add_blob-IsConsistent, add_code_directory-IsConsistent,
  register_signature-IsConsistent, add_notarization_ticket-IsConsistent,
  add_alternative_code_directory-IsConsistent, create_cms_signature-ok_parts,
}

-- An operation that succeeds. A code directory is added to one of the slots for them.
pub data Step (hasher : Hasher) (signer : Signer)
    : EmbeddedSignatureBuilder → EmbeddedSignatureBuilder → Type 0 where
  blob_added :
      (slot : CodeSigningSlot) (blob : BlobData) (b b' : EmbeddedSignatureBuilder)
      → add_blob slot blob b ≡ ok b'
      → Step hasher signer b b'
  directory_added :
      (slot : CodeSigningSlot) (cd primary : CodeDirectoryBlob) (b b' : EmbeddedSignatureBuilder)
      → is_code_directory_slot slot ≡ true
      → add_code_directory hasher slot cd b ≡ ok (b', primary)
      → Step hasher signer b b'
  alternative_added :
      (cd primary : CodeDirectoryBlob) (b b' : EmbeddedSignatureBuilder)
      → add_alternative_code_directory hasher cd b ≡ ok (b', primary)
      → Step hasher signer b b'
  signed :
      (b b' : EmbeddedSignatureBuilder)
      → create_cms_signature hasher signer b ≡ ok b'
      → Step hasher signer b b'
  left_unsigned :
      (b : EmbeddedSignatureBuilder) → Step hasher signer b (create_empty_cms_signature b)
  ticket_added :
      (ticket_data : Bytes) (b : EmbeddedSignatureBuilder)
      → Step hasher signer b (add_notarization_ticket ticket_data b)

-- The builders that come of `EmbeddedSignatureBuilder::default()`.
pub data Reaches (hasher : Hasher) (signer : Signer) : EmbeddedSignatureBuilder → Type 0 where
  start : Reaches hasher signer default
  next :
      {b b' : EmbeddedSignatureBuilder}
      → Reaches hasher signer b
      → Step hasher signer b b'
      → Reaches hasher signer b'

Step-IsConsistent :
    {hasher : Hasher} {signer : Signer} {b b' : EmbeddedSignatureBuilder}
    → Step hasher signer b b'
    → IsConsistent hasher b
    → IsConsistent hasher b'
unfolding create_empty_cms_signature
Step-IsConsistent {hasher = hasher} (blob_added slot blob b b' e) h =
    add_blob-IsConsistent hasher slot blob b b' e h
Step-IsConsistent {hasher = hasher} (directory_added slot cd primary b b' s e) h =
    add_code_directory-IsConsistent hasher slot cd primary b b' s e h
Step-IsConsistent {hasher = hasher} (alternative_added cd primary b b' e) h =
    add_alternative_code_directory-IsConsistent hasher cd primary b b' e h
Step-IsConsistent {hasher = hasher} {signer = signer} (signed b b' e) h =
    let (der, changed) = create_cms_signature-ok_parts hasher signer b b' e in
    rw changed (register_signature-IsConsistent hasher der b h)
Step-IsConsistent {hasher = hasher} (left_unsigned b) h =
    register_signature-IsConsistent hasher [] b h
Step-IsConsistent {hasher = hasher} (ticket_added ticket_data b) h =
    add_notarization_ticket-IsConsistent hasher ticket_data b h

Reaches-IsConsistent :
    {hasher : Hasher} {signer : Signer} {b : EmbeddedSignatureBuilder}
    → Reaches hasher signer b
    → IsConsistent hasher b
unfolding default get
Reaches-IsConsistent start = (tt, (λ _ slot blob e. cc), (λ slot cd e. cc))
Reaches-IsConsistent (next before step) = Step-IsConsistent step (Reaches-IsConsistent before)

-- In every builder that comes of the default one by operations that succeed, code directories
-- being added only to the primary or an alternative slot, each code directory holds, for each blob
-- in a slot that a code directory can express, the digest of that blob's bytes by the type of the
-- code directory.
pub Reaches-IsSealed :
    {hasher : Hasher} {signer : Signer} {b : EmbeddedSignatureBuilder} (slot : CodeSigningSlot)
    (cd : CodeDirectoryBlob)
    → Reaches hasher signer b
    → get slot b.blobs ≡ some (BlobData.code_directory cd)
    → IsSealed hasher b.blobs cd
Reaches-IsSealed slot cd reached e = (Reaches-IsConsistent reached).2 slot cd e
