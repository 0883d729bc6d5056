-- ===== src/Codesign/Builder/Sealed.antt =====
-- The code directories of the builder of embedded_signature_builder.rs hold the digests of the
-- other blobs.
use apple_platform_rs.Base.{
  ◌≡◌, refl, sym, ap, subst, ◌∙◌, true, false, none, some, [], ◌∷◌, ok, ok-bind, ◌==◌, Bytes, arith,
  Bool-cases, inl, inr,
}
use apple_platform_rs.Codesign.DigestType.{Hasher}
use apple_platform_rs.Codesign.Blob.CodeSigningSlot
use apple_platform_rs.Codesign.Blob.CodeSigningSlot.{
  CodeSigningSlot, is_code_directory_specials_expressible, le, info, library_constraints,
}
use apple_platform_rs.Codesign.CodeDirectory.Data.{CodeDirectoryBlob}
use apple_platform_rs.Codesign.CodeDirectory.Slots.{insert, get, set_slot_digest, slot_digest}
use apple_platform_rs.Codesign.CodeDirectory.Slots.Laws.{get-insert, set_slot_digest-ok_parts}
use apple_platform_rs.Codesign.BlobData.{BlobData}
use apple_platform_rs.Codesign.Builder.Ascending.{IsAbove, IsAscending, get-IsAbove, get_same}
use apple_platform_rs.Codesign.Builder.{Blobs, seal_slot, seal_slots, digest_with}

-- What the loop leaves as the digest of a slot.
abbrev pub HasDigest : Hasher → BlobData → CodeSigningSlot → CodeDirectoryBlob → Type 0
HasDigest hasher blob slot cd =
    (digest : Bytes) × (digest_with hasher blob cd.digest_type ≡ ok digest)
    × (slot_digest cd slot ≡ some digest)

-- The code directory has the digest, by its own type, of each blob in a slot that it can express.
abbrev pub IsSealed : Hasher → Blobs → CodeDirectoryBlob → Type 0
IsSealed hasher blobs cd =
    (slot : CodeSigningSlot) (blob : BlobData)
    → is_code_directory_specials_expressible slot ≡ true
    → get slot blobs ≡ some blob
    → HasDigest hasher blob slot cd

-- An entry that the builder puts in a slot that no code directory can express breaks no seal.
pub IsSealed-insert :
    (hasher : Hasher) (slot : CodeSigningSlot) (blob : BlobData) (blobs : Blobs)
    (cd : CodeDirectoryBlob)
    → is_code_directory_specials_expressible slot ≡ false
    → IsSealed hasher blobs cd
    → IsSealed hasher (insert slot blob blobs) cd
IsSealed-insert hasher slot blob blobs cd out s other b expressible e =
    s other b expressible (sym apart ∙ e)
  where
    differ : CodeSigningSlot.to_u32 other == CodeSigningSlot.to_u32 slot ≡ false
    differ = unfold is_code_directory_specials_expressible le CodeSigningSlot.to_u32 in ground arith

    apart : get other (insert slot blob blobs) ≡ get other blobs
    apart = get-insert slot other blob blobs ∙ rw differ refl

-- What one turn of the loop does.
abbrev IsTurn : Hasher → CodeSigningSlot → BlobData → CodeDirectoryBlob → CodeDirectoryBlob → Type 0
IsTurn hasher slot blob cd cd' =
    (cd'.digest_type ≡ cd.digest_type)
    × (is_code_directory_specials_expressible slot ≡ true → HasDigest hasher blob slot cd')
    × ((other : CodeSigningSlot)
        → CodeSigningSlot.to_u32 other == CodeSigningSlot.to_u32 slot ≡ false
        → slot_digest cd' other ≡ slot_digest cd other)

set-IsTurn :
    (hasher : Hasher) (slot : CodeSigningSlot) (blob : BlobData) (cd cd' : CodeDirectoryBlob)
    (digest : Bytes)
    → digest_with hasher blob cd.digest_type ≡ ok digest
    → set_slot_digest cd slot digest ≡ ok cd'
    → IsTurn hasher slot blob cd cd'
unfolding slot_digest
set-IsTurn hasher slot blob cd cd' digest d e =
    let (_, _, changed) = set_slot_digest-ok_parts cd cd' slot digest e in
    rw changed (
      refl,
      (λ _. (digest, d, here)),
      (λ other o. get-insert slot other digest cd.special_digests ∙ rw o refl),
    )
  where
    self : CodeSigningSlot.to_u32 slot == CodeSigningSlot.to_u32 slot ≡ true
    self = ground arith

    here : get slot (insert slot digest cd.special_digests) ≡ some digest
    here = get-insert slot slot digest cd.special_digests ∙ rw self refl

seal_slot-IsTurn :
    (hasher : Hasher) (slot : CodeSigningSlot) (blob : BlobData) (cd cd' : CodeDirectoryBlob)
    → seal_slot hasher slot blob cd ≡ ok cd'
    → IsTurn hasher slot blob cd cd'
unfolding seal_slot
seal_slot-IsTurn hasher slot blob cd cd' e =
    elim (Bool-cases (is_code_directory_specials_expressible slot)) [
      | inl expressible ↦
          let (digest, d, set) =
            ok-bind (digest_with hasher blob cd.digest_type) (set_slot_digest cd slot)
              (rw expressible at e) in
          set-IsTurn hasher slot blob cd cd' digest d set
      | inr out ↦
          let kept : cd ≡ cd' = (let step = (rw out at e) in cc) in
          rw (← kept) (refl, (λ expressible. cc), (λ other o. refl))
    ]

-- What the loop over ascending blobs does.
abbrev IsLoop : Hasher → Blobs → CodeDirectoryBlob → CodeDirectoryBlob → Type 0
IsLoop hasher blobs cd cd' =
    (cd'.digest_type ≡ cd.digest_type)
    × IsSealed hasher blobs cd'
    × ((other : CodeSigningSlot)
        → get other blobs ≡ none
        → slot_digest cd' other ≡ slot_digest cd other)

expressible_same :
    (slot other : CodeSigningSlot)
    → CodeSigningSlot.to_u32 other ≡ CodeSigningSlot.to_u32 slot
    → is_code_directory_specials_expressible other ≡ true
    → is_code_directory_specials_expressible slot ≡ true
unfolding is_code_directory_specials_expressible le
expressible_same slot other e h = rw e at h

-- A turn at a slot and the loop behind it, at that slot.
HasDigest-behind :
    (hasher : Hasher) (slot other : CodeSigningSlot) (blob : BlobData) (blobs : Blobs)
    (next cd' : CodeDirectoryBlob)
    → CodeSigningSlot.to_u32 other ≡ CodeSigningSlot.to_u32 slot
    → IsAbove (CodeSigningSlot.to_u32 slot) blobs
    → HasDigest hasher blob slot next
    → IsLoop hasher blobs next cd'
    → HasDigest hasher blob other cd'
HasDigest-behind hasher slot other blob blobs next cd' e above (digest, d, found) loop = (
  digest,
  ap (digest_with hasher blob) loop.0 ∙ d,
  loop.2 other (get-IsAbove (CodeSigningSlot.to_u32 slot) other blobs (omega arith) above)
      ∙ (same_digest ∙ found),
)
  where
    same_digest : slot_digest next other ≡ slot_digest next slot
    same_digest = unfold slot_digest in get_same slot other next.special_digests e

pub seal_slots-IsLoop :
    (hasher : Hasher) (blobs : Blobs) (cd cd' : CodeDirectoryBlob)
    → IsAscending blobs
    → seal_slots hasher blobs cd ≡ ok cd'
    → IsLoop hasher blobs cd cd'
unfolding seal_slots get
seal_slots-IsLoop hasher [] cd cd' h e =
    let kept : cd ≡ cd' = cc in
    rw (← kept) (refl, (λ slot blob expressible found. cc), (λ other o. refl))
seal_slots-IsLoop hasher ((slot, blob) ∷ blobs) cd cd' h e =
    let (next, turn_ok, loop_ok) =
      ok-bind (seal_slot hasher slot blob cd) (seal_slots hasher blobs) e in
    let turn = seal_slot-IsTurn hasher slot blob cd next turn_ok in
    let loop = seal_slots-IsLoop hasher blobs next cd' h.1 loop_ok in
    (
      loop.0 ∙ turn.0,
      (λ other b expressible found.
          elim (Bool-cases (CodeSigningSlot.to_u32 other == CodeSigningSlot.to_u32 slot)) [
            | inl same ↦
                let number : CodeSigningSlot.to_u32 other ≡ CodeSigningSlot.to_u32 slot =
                  ground arith in
                let it : blob ≡ b = (let there = (rw same at found) in cc) in
                subst (λ x. HasDigest hasher x other cd') it
                  (HasDigest-behind hasher slot other blob blobs next cd' number h.0
                    (turn.1 (expressible_same slot other number expressible)) loop)
            | inr differ ↦ loop.1 other b expressible (rw differ at found)
          ]),
      (λ other missing.
          elim (Bool-cases (CodeSigningSlot.to_u32 other == CodeSigningSlot.to_u32 slot)) [
            | inl same ↦ (let there = (rw same at missing) in cc)
            | inr differ ↦ loop.2 other (rw differ at missing) ∙ turn.2 other differ
          ]),
    )
