-- ===== src/Codesign/CodeDirectory/Slots/Laws.antt =====
-- Laws of the special digests of code_directory.rs.
use apple_platform_rs.Base.{
  List, ℕ, ◌≤◌, ◌≡◌, ◌↔◌, refl, ap, ◌∙◌, true, some, [], ◌∷◌, ltb, ◌==◌, if◌then◌else◌, ok, length,
  All, arith, Bool-cases, inl, inr,
}
use apple_platform_rs.Codesign.Blob.CodeSigningSlot
use apple_platform_rs.Codesign.Blob.CodeSigningSlot.{
  CodeSigningSlot, is_code_directory_specials_expressible, le, info, library_constraints,
}
use apple_platform_rs.Codesign.CodeDirectory.Data.{SlotDigests, Digest, CodeDirectoryBlob}
use apple_platform_rs.Codesign.CodeDirectory.Slots.{insert, get, slot_digest, set_slot_digest}

-- Every digest has a length.
abbrev pub HasLength : ℕ → SlotDigests → Type 0
HasLength size = All (λ entry. length entry.1 ≡ size)

pub get-HasLength :
    (size : ℕ) (slot : CodeSigningSlot) (specials : SlotDigests) (digest : Digest)
    → HasLength size specials
    → get slot specials ≡ some digest
    → length digest ≡ size
unfolding get
get-HasLength size slot [] digest h e = cc
get-HasLength size slot ((key, value) ∷ entries) digest h e =
    elim (Bool-cases (CodeSigningSlot.to_u32 slot == CodeSigningSlot.to_u32 key)) [
      | inl same ↦ ap length (cc) ∙ h.0
      | inr other ↦ get-HasLength size slot entries digest h.1 (rw other at e)
    ]

-- Looking up behind an insertion: what was inserted at the slot, and what was there at another number.
pub get-insert {ℓ} :
    {A : Type ℓ} (slot other : CodeSigningSlot) (a : A) (map' : List (CodeSigningSlot × A))
    → get other (insert slot a map') ≡ (
        if CodeSigningSlot.to_u32 other == CodeSigningSlot.to_u32 slot
        then some a
        else get other map')
unfolding get insert
get-insert slot other a [] = refl
get-insert slot other a ((key, value) ∷ entries) = ground (arith, get-insert slot other a entries)

-- What the writer of code directories asserts of an entry.
abbrev pub IsExpressible : ℕ → CodeSigningSlot × Digest → Type 0
IsExpressible size (slot, digest) =
    (1 ≤ CodeSigningSlot.to_u32 slot) × (CodeSigningSlot.to_u32 slot ≤ 11) × (length digest ≡ size)

insert-IsExpressible :
    (size : ℕ) (slot : CodeSigningSlot) (digest : Digest) (specials : SlotDigests)
    → IsExpressible size (slot, digest)
    → All (IsExpressible size) specials
    → All (IsExpressible size) (insert slot digest specials)
unfolding insert
insert-IsExpressible size slot digest [] e h = (e, tt)
insert-IsExpressible size slot digest ((key, value) ∷ entries) e h =
    elim (Bool-cases (ltb (CodeSigningSlot.to_u32 slot) (CodeSigningSlot.to_u32 key))) [
      | inl before ↦ rw before (e, h)
      | inr after ↦ elim (Bool-cases (CodeSigningSlot.to_u32 slot == CodeSigningSlot.to_u32 key)) [
        | inl same ↦ rw (after, same) ((h.0.0, h.0.1, e.2), h.1)
        | inr other ↦ rw (after, other) (h.0, insert-IsExpressible size slot digest entries e h.1)
      ]
    ]

pub is_expressible_lem :
    (slot : CodeSigningSlot)
    → (is_code_directory_specials_expressible slot ≡ true)
      ↔ ((1 ≤ CodeSigningSlot.to_u32 slot) × (CodeSigningSlot.to_u32 slot ≤ 11))
unfolding is_code_directory_specials_expressible le CodeSigningSlot.to_u32
is_expressible_lem slot = ground arith

pub set_slot_digest-ok_parts :
    (b b' : CodeDirectoryBlob) (slot : CodeSigningSlot) (digest : Digest)
    → set_slot_digest b slot digest ≡ ok b'
    → (is_code_directory_specials_expressible slot ≡ true)
      × (length digest ≡ b.digest_size)
      × (b' ≡ record b { special_digests = insert slot digest b.special_digests })
unfolding set_slot_digest
set_slot_digest-ok_parts b b' slot digest e = ground arith

-- When set_slot_digest succeeds, every special digest is still of a slot from 1 to 11 and has the
-- stated size, if it was so before, the slot has the new digest, and every other slot has the
-- digest that it had.
pub set_slot_digest-ok :
    (b b' : CodeDirectoryBlob) (slot other : CodeSigningSlot) (digest : Digest)
    → set_slot_digest b slot digest ≡ ok b'
    → All (IsExpressible b.digest_size) b.special_digests
    → (All (IsExpressible b'.digest_size) b'.special_digests)
      × (slot_digest b' other ≡ (
          if CodeSigningSlot.to_u32 other == CodeSigningSlot.to_u32 slot
          then some digest
          else slot_digest b other))
unfolding slot_digest
set_slot_digest-ok b b' slot other digest e h =
    let (expressible, width, changed) = set_slot_digest-ok_parts b b' slot digest e in
    let (lowest, highest) = (is_expressible_lem slot).0 expressible in
    rw changed (
      insert-IsExpressible b.digest_size slot digest b.special_digests (lowest, highest, width) h,
      get-insert slot other digest b.special_digests,
    )
