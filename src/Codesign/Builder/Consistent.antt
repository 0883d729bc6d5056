-- ===== src/Codesign/Builder/Consistent.antt =====
-- What the operations of the builder of embedded_signature_builder.rs keep: ascending slots, no
-- code directory before one is added, and seals.
use apple_platform_rs.Base.{
  ◌≡◌, ◌⊎◌, refl, sym, ap, subst, ◌∙◌, true, false, some, ok, ok-bind, ◌>>=◌, ◌==◌, if◌then◌else◌,
  Bytes, arith, Bool-cases, inl, inr,
}
use apple_platform_rs.Codesign.Error.{Result}
use apple_platform_rs.Codesign.DigestType.{Hasher}
use apple_platform_rs.Codesign.Blob.CodeSigningSlot
use apple_platform_rs.Codesign.Blob.CodeSigningSlot.{
  CodeSigningSlot, is_code_directory_specials_expressible, is_alternative_code_directory, le,
}
use apple_platform_rs.Codesign.CodeDirectory.Data.{CodeDirectoryBlob}
use apple_platform_rs.Codesign.CodeDirectory.Serialize
use apple_platform_rs.Codesign.CodeDirectory.Slots.{insert, get}
use apple_platform_rs.Codesign.CodeDirectory.Slots.Laws.{get-insert}
use apple_platform_rs.Codesign.BlobData.{BlobData}
use apple_platform_rs.Codesign.Builder.Ascending.{IsAscending, insert-IsAscending}
use apple_platform_rs.Codesign.Builder.Alternative.{alternative_slot-alternative}
use apple_platform_rs.Codesign.Builder.Sealed.{IsSealed, IsSealed-insert, seal_slots-IsLoop}
use apple_platform_rs.Codesign.Builder.{
  Blobs, EmbeddedSignatureBuilder, Signer, special_added, accepts_blobs, is_reserved, add_blob,
  seal_slots, add_code_directory, add_alternative_code_directory, alternative_slot,
  create_cms_signature, add_notarization_ticket, register_signature, register_code_directory,
  expect, with_primary, code_directory, is_signature_added, is_code_directory_slot,
  require_code_directory, signed_digests,
}

abbrev pub IsUnreserved : Blobs → Type 0
IsUnreserved blobs =
    (slot : CodeSigningSlot) (blob : BlobData)
    → get slot blobs ≡ some blob
    → is_reserved blob ≡ false

-- Every code directory in the map is sealed.
abbrev pub AreSealed : Hasher → Blobs → Type 0
AreSealed hasher blobs =
    (slot : CodeSigningSlot) (cd : CodeDirectoryBlob)
    → get slot blobs ≡ some (BlobData.code_directory cd)
    → IsSealed hasher blobs cd

abbrev pub IsConsistent : Hasher → EmbeddedSignatureBuilder → Type 0
IsConsistent hasher b =
    IsAscending b.blobs
    × (accepts_blobs b.state ≡ true → IsUnreserved b.blobs)
    × AreSealed hasher b.blobs

-- A blob in a slot that no code directory expresses, itself no code directory or a sealed one.
pub AreSealed-insert :
    (hasher : Hasher) (slot : CodeSigningSlot) (blob : BlobData) (blobs : Blobs)
    → is_code_directory_specials_expressible slot ≡ false
    → ((cd : CodeDirectoryBlob) → blob ≡ BlobData.code_directory cd → IsSealed hasher blobs cd)
    → AreSealed hasher blobs
    → AreSealed hasher (insert slot blob blobs)
AreSealed-insert hasher slot blob blobs out new old other cd e =
    IsSealed-insert hasher slot blob blobs cd out
      (elim (Bool-cases (CodeSigningSlot.to_u32 other == CodeSigningSlot.to_u32 slot)) [
        | inl same ↦ new cd (let there = (rw same at here) in cc)
        | inr differ ↦ old other cd (rw differ at here)
      ])
  where
    here :
        (if CodeSigningSlot.to_u32 other == CodeSigningSlot.to_u32 slot
          then some blob
          else get other blobs)
        ≡ some (BlobData.code_directory cd)
    here = sym (get-insert slot other blob blobs) ∙ e

pub add_blob-ok_parts :
    (slot : CodeSigningSlot) (blob : BlobData) (b b' : EmbeddedSignatureBuilder)
    → add_blob slot blob b ≡ ok b'
    → (accepts_blobs b.state ≡ true)
      × (is_reserved blob ≡ false)
      × (b' ≡ record { state = special_added; blobs = insert slot blob b.blobs })
unfolding add_blob
add_blob-ok_parts slot blob b b' e = ground arith

pub IsUnreserved-insert :
    (slot : CodeSigningSlot) (blob : BlobData) (blobs : Blobs)
    → is_reserved blob ≡ false
    → IsUnreserved blobs
    → IsUnreserved (insert slot blob blobs)
IsUnreserved-insert slot blob blobs new old other found e =
    elim (Bool-cases (CodeSigningSlot.to_u32 other == CodeSigningSlot.to_u32 slot)) [
      | inl same ↦
          let it : blob ≡ found = (let there = (rw same at here) in cc) in
          ap is_reserved (sym it) ∙ new
      | inr differ ↦ old other found (rw differ at here)
    ]
  where
    here :
        (if CodeSigningSlot.to_u32 other == CodeSigningSlot.to_u32 slot
          then some blob
          else get other blobs)
        ≡ some found
    here = sym (get-insert slot other blob blobs) ∙ e

-- Where there is no code directory, every one is sealed.
pub IsUnreserved-AreSealed :
    (hasher : Hasher) (blobs : Blobs) → IsUnreserved blobs → AreSealed hasher blobs
unfolding is_reserved
IsUnreserved-AreSealed hasher blobs h slot cd e =
    let impossible = h slot (BlobData.code_directory cd) e in cc

pub add_blob-IsConsistent :
    (hasher : Hasher) (slot : CodeSigningSlot) (blob : BlobData) (b b' : EmbeddedSignatureBuilder)
    → add_blob slot blob b ≡ ok b'
    → IsConsistent hasher b
    → IsConsistent hasher b'
add_blob-IsConsistent hasher slot blob b b' e h =
    let (accepts, new, changed) = add_blob-ok_parts slot blob b b' e in
    let unreserved = IsUnreserved-insert slot blob b.blobs new (h.1 accepts) in
    rw changed (
      insert-IsAscending slot blob b.blobs h.0,
      (λ _. unreserved),
      IsUnreserved-AreSealed hasher (insert slot blob b.blobs) unreserved,
    )

pub add_code_directory-ok_parts :
    (hasher : Hasher) (slot : CodeSigningSlot) (cd primary : CodeDirectoryBlob)
    (b b' : EmbeddedSignatureBuilder)
    → add_code_directory hasher slot cd b ≡ ok (b', primary)
    → (written : CodeDirectoryBlob) × (seal_slots hasher b.blobs cd ≡ ok written)
      × (b' ≡ register_code_directory slot written b)
unfolding add_code_directory with_primary
add_code_directory-ok_parts hasher slot cd primary b b' e =
    let (written, sealed, e1) =
      ok-bind (seal_slots hasher b.blobs cd) register
        (sealing (Bool-cases (is_signature_added b.state))) in
    let (registered, _, e2) =
      ok-bind (code_directory (register_code_directory slot written b))
        (λ r. expect r >>= λ p. ok (register_code_directory slot written b, p)) e1 in
    let (_, _, e3) =
      ok-bind (expect registered) (λ p. ok (register_code_directory slot written b, p)) e2 in
    (written, sealed, cc)
  where
    register : CodeDirectoryBlob → Result (EmbeddedSignatureBuilder × CodeDirectoryBlob)
    register written = with_primary (register_code_directory slot written b)

    sealing :
        (is_signature_added b.state ≡ true) ⊎ (is_signature_added b.state ≡ false)
        → (seal_slots hasher b.blobs cd >>= register) ≡ ok (b', primary)
    sealing (inl added) = (let refused = (rw added at e) in cc)
    sealing (inr free) = rw free at e

pub code_directory_slot_out :
    (slot : CodeSigningSlot)
    → is_code_directory_slot slot ≡ true
    → is_code_directory_specials_expressible slot ≡ false
unfolding is_code_directory_slot is_alternative_code_directory
    is_code_directory_specials_expressible le CodeSigningSlot.to_u32
code_directory_slot_out slot e = ground arith

-- The state after an insertion in a slot that no code directory expresses.
pub registered-IsConsistent :
    (hasher : Hasher) (slot : CodeSigningSlot) (blob : BlobData) (b b' : EmbeddedSignatureBuilder)
    → is_code_directory_specials_expressible slot ≡ false
    → ((cd : CodeDirectoryBlob) → blob ≡ BlobData.code_directory cd → IsSealed hasher b.blobs cd)
    → accepts_blobs b'.state ≡ false
    → b'.blobs ≡ insert slot blob b.blobs
    → IsConsistent hasher b
    → IsConsistent hasher b'
registered-IsConsistent hasher slot blob b b' out new closed e h = rw e (
  insert-IsAscending slot blob b.blobs h.0,
  (λ accepts. cc),
  AreSealed-insert hasher slot blob b.blobs out new h.2,
)

pub add_code_directory-IsConsistent :
    (hasher : Hasher) (slot : CodeSigningSlot) (cd primary : CodeDirectoryBlob)
    (b b' : EmbeddedSignatureBuilder)
    → is_code_directory_slot slot ≡ true
    → add_code_directory hasher slot cd b ≡ ok (b', primary)
    → IsConsistent hasher b
    → IsConsistent hasher b'
unfolding register_code_directory accepts_blobs
add_code_directory-IsConsistent hasher slot cd primary b b' s e h =
    let (written, sealed, changed) = add_code_directory-ok_parts hasher slot cd primary b b' e in
    let loop = seal_slots-IsLoop hasher b.blobs cd written h.0 sealed in
    registered-IsConsistent hasher slot (BlobData.code_directory written) b b'
      (code_directory_slot_out slot s)
      (λ cd' same. subst (IsSealed hasher b.blobs) (directory_inj same) loop.1)
      (ap (λ x. accepts_blobs x.state) changed) (ap (λ x. x.blobs) changed) h
  where
    directory_inj :
        {cd1 cd2 : CodeDirectoryBlob}
        → BlobData.code_directory cd1 ≡ BlobData.code_directory cd2
        → cd1 ≡ cd2
    directory_inj e = cc

pub signature_out : is_code_directory_specials_expressible CodeSigningSlot.signature ≡ false
unfolding is_code_directory_specials_expressible le CodeSigningSlot.to_u32
signature_out = refl

pub ticket_out : is_code_directory_specials_expressible CodeSigningSlot.ticket ≡ false
unfolding is_code_directory_specials_expressible le CodeSigningSlot.to_u32
ticket_out = refl

pub register_signature-IsConsistent :
    (hasher : Hasher) (der : Bytes) (b : EmbeddedSignatureBuilder)
    → IsConsistent hasher b
    → IsConsistent hasher (register_signature der b)
unfolding register_signature accepts_blobs
register_signature-IsConsistent hasher der b h =
    registered-IsConsistent hasher CodeSigningSlot.signature (BlobData.blob_wrapper der) b
      (register_signature der b) signature_out (λ cd e. cc) refl refl h

pub add_notarization_ticket-IsConsistent :
    (hasher : Hasher) (ticket_data : Bytes) (b : EmbeddedSignatureBuilder)
    → IsConsistent hasher b
    → IsConsistent hasher (add_notarization_ticket ticket_data b)
unfolding add_notarization_ticket accepts_blobs
add_notarization_ticket-IsConsistent hasher ticket_data b h =
    registered-IsConsistent hasher CodeSigningSlot.ticket (BlobData.blob_wrapper ticket_data) b
      (add_notarization_ticket ticket_data b) ticket_out (λ cd e. cc) refl refl h

pub alternative_is_directory :
    (slot : CodeSigningSlot)
    → is_alternative_code_directory slot ≡ true
    → is_code_directory_slot slot ≡ true
unfolding is_code_directory_slot is_alternative_code_directory
alternative_is_directory slot e = ground arith

pub add_alternative_code_directory-IsConsistent :
    (hasher : Hasher) (cd primary : CodeDirectoryBlob) (b b' : EmbeddedSignatureBuilder)
    → add_alternative_code_directory hasher cd b ≡ ok (b', primary)
    → IsConsistent hasher b
    → IsConsistent hasher b'
unfolding add_alternative_code_directory
add_alternative_code_directory-IsConsistent hasher cd primary b b' e h =
    let (slot, found, added) =
      ok-bind (alternative_slot CodeSigningSlot.alternate_code_directory0 b.blobs)
        (λ slot. add_code_directory hasher slot cd b) e in
    let alternative =
      alternative_slot-alternative CodeSigningSlot.alternate_code_directory0 slot b.blobs
        (unfold is_alternative_code_directory in refl) found in
    add_code_directory-IsConsistent hasher slot cd primary b b'
      (alternative_is_directory slot alternative) added h

pub create_cms_signature-ok_parts :
    (hasher : Hasher) (signer : Signer) (b b' : EmbeddedSignatureBuilder)
    → create_cms_signature hasher signer b ≡ ok b'
    → (der : Bytes) × (b' ≡ register_signature der b)
unfolding create_cms_signature
create_cms_signature-ok_parts hasher signer b b' e =
    let (registered, _, e1) = ok-bind (code_directory b) _ e in
    let (main_cd, _, e2) = ok-bind (require_code_directory registered) _ e1 in
    let ((cdhashes, attributes), _, e3) = ok-bind (signed_digests hasher b.blobs) _ e2 in
    let (content, _, e4) = ok-bind (Serialize.to_blob_bytes main_cd) _ e3 in
    let (der, _, e5) = ok-bind (signer content cdhashes attributes) _ e4 in (der, cc)
