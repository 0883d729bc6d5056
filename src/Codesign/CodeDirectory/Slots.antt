-- ===== src/Codesign/CodeDirectory/Slots.antt =====
-- A `BTreeMap` of slots, and the special digests of code_directory.rs: such a map, and the methods
-- that read and set a digest of a slot.
pub mod Laws
use apple_platform_rs.Base.{
  ℕ, Bool, true, false, Option, none, some, List, [], ◌∷◌, ltb, ◌==◌, if◌then◌else◌, ok, err, ◌>>=◌,
  ◌>>◌, guard, length, max,
}
use apple_platform_rs.Codesign.Error.{Result, logic_error}
use apple_platform_rs.Codesign.Blob.CodeSigningSlot
use apple_platform_rs.Codesign.Blob.CodeSigningSlot.{
  CodeSigningSlot, is_code_directory_specials_expressible,
}
use apple_platform_rs.Codesign.CodeDirectory.Data.{SlotDigests, Digest, CodeDirectoryBlob}

-- `BTreeMap::insert`: the key of an entry is kept and its value replaced.
unfoldable pub insert {ℓ} :
    {A : Type ℓ} → CodeSigningSlot → A → List (CodeSigningSlot × A) → List (CodeSigningSlot × A)
insert slot a [] = (slot, a) ∷ []
insert slot a ((key, value) ∷ entries) =
    let rest = insert slot a entries in
    if ltb (CodeSigningSlot.to_u32 slot) (CodeSigningSlot.to_u32 key)
    then (slot, a) ∷ (key, value) ∷ entries
    else if CodeSigningSlot.to_u32 slot == CodeSigningSlot.to_u32 key
    then (key, a) ∷ entries
    else (key, value) ∷ rest

-- `BTreeMap::get`
unfoldable pub get {ℓ} : {A : Type ℓ} → CodeSigningSlot → List (CodeSigningSlot × A) → Option A
get slot [] = none
get slot ((key, value) ∷ entries) =
    let rest = get slot entries in
    if CodeSigningSlot.to_u32 slot == CodeSigningSlot.to_u32 key then some value else rest

-- `keys().map(|slot| u32::from(*slot)).max().unwrap_or(0)`
unfoldable pub highest_slot : SlotDigests → ℕ
highest_slot [] = 0
highest_slot ((key, _) ∷ entries) = max (CodeSigningSlot.to_u32 key) (highest_slot entries)

unfoldable pub slot_digest : CodeDirectoryBlob → CodeSigningSlot → Option Digest
slot_digest b slot = get slot b.special_digests

unfoldable pub set_slot_digest :
    CodeDirectoryBlob → CodeSigningSlot → Digest → Result CodeDirectoryBlob
set_slot_digest b slot digest = do
  guard (is_code_directory_specials_expressible slot)
      (logic_error "slot cannot have its digest expressed on code directories")
  guard (length digest == b.digest_size) (
      logic_error
        "attempt to assign digest whose length does not match code directory digest length")
  ok (record b { special_digests = insert slot digest b.special_digests })
