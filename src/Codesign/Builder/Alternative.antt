-- ===== src/Codesign/Builder/Alternative.antt =====
-- The slot that `add_alternative_code_directory` of embedded_signature_builder.rs picks.
use apple_platform_rs.Base.{
  ◌+◌, ◌≤◌, ◌≡◌, refl, sym, ap, ◌∙◌, true, false, Option, none, some, [], ◌∷◌, ok, err, ok-bind,
  ◌==◌, All, arith, Bool-cases, inl, inr,
}
use apple_platform_rs.Codesign.Blob.CodeSigningSlot
use apple_platform_rs.Codesign.Blob.CodeSigningSlot.{
  CodeSigningSlot, is_alternative_code_directory, IsNormal, to_u32-from_u32,
}
use apple_platform_rs.Codesign.CodeDirectory.Slots.{get}
use apple_platform_rs.Codesign.BlobData.{BlobData}
use apple_platform_rs.Codesign.Builder.Ascending.{IsAbove, IsAscending}
use apple_platform_rs.Codesign.Builder.{Blobs, next_alternative, alternative_slot}
use apple_platform_rs.Codesign.Builder.Turns.{
  above, is_alternative_numbers, next_alternative_below, next_alternative_last, last_number,
  not_last, differ_by_kind, no_more, next_alternative_cases, key_is_last,
  next_alternative-alternative,
}

-- Every alternative slot of the map leads to a slot that is not below ours.
abbrev IsAhead : CodeSigningSlot → Blobs → Type 0
IsAhead our blobs =
    All
      (λ entry.
        is_alternative_code_directory entry.0 ≡ true
        → CodeSigningSlot.to_u32 our ≤ CodeSigningSlot.to_u32 entry.0 + 1)
      blobs

first-IsAhead : (blobs : Blobs) → IsAhead CodeSigningSlot.alternate_code_directory0 blobs
unfolding CodeSigningSlot.to_u32
first-IsAhead [] = tt
first-IsAhead ((slot, blob) ∷ blobs) =
    ((λ e. let low = (is_alternative_numbers slot e).0 in omega arith), first-IsAhead blobs)

above-IsAhead :
    (slot : CodeSigningSlot) (blobs : Blobs)
    → IsAbove (CodeSigningSlot.to_u32 slot) blobs
    → IsAhead (above slot) blobs
unfolding above
above-IsAhead slot [] h = tt
above-IsAhead slot ((key, blob) ∷ blobs) h =
    ((λ e. let low = h.0 in rw to_u32-from_u32 (omega arith)), above-IsAhead slot blobs h.1)

abbrev pub HasNormalKeys : Blobs → Type 0
HasNormalKeys blobs = All (λ entry. IsNormal entry.0) blobs

-- A slot that is found, not below ours.
abbrev IsFound : CodeSigningSlot → Blobs → Type 0
IsFound our blobs =
    (slot : CodeSigningSlot) × (alternative_slot our blobs ≡ ok slot)
    × (is_alternative_code_directory slot ≡ true)
    × (CodeSigningSlot.to_u32 our ≤ CodeSigningSlot.to_u32 slot)
    × (get slot blobs ≡ none)

get-none_parts :
    (slot key : CodeSigningSlot) (blob : BlobData) (blobs : Blobs)
    → get slot ((key, blob) ∷ blobs) ≡ none
    → (CodeSigningSlot.to_u32 slot == CodeSigningSlot.to_u32 key ≡ false) × (get slot blobs ≡ none)
unfolding get
get-none_parts slot key blob blobs e = ground arith

get_past :
    (slot key : CodeSigningSlot) (blob : BlobData) (blobs : Blobs)
    → CodeSigningSlot.to_u32 slot == CodeSigningSlot.to_u32 key ≡ false
    → get slot ((key, blob) ∷ blobs) ≡ get slot blobs
unfolding get
get_past slot key blob blobs e = rw e refl

alternative_slot-IsFound :
    (our : CodeSigningSlot) (blobs : Blobs)
    → is_alternative_code_directory our ≡ true
    → HasNormalKeys blobs
    → IsAscending blobs
    → IsAhead our blobs
    → get CodeSigningSlot.alternate_code_directory4 blobs ≡ none
    → IsFound our blobs
unfolding alternative_slot get
alternative_slot-IsFound our [] o n h ahead last = (our, refl, o, omega arith, refl)
alternative_slot-IsFound our ((key, blob) ∷ blobs) o n h ahead last =
    elim (Bool-cases (is_alternative_code_directory key)) [
      | inl alternative ↦
          let (step, next) =
            next_alternative_below our key alternative (not_last key alternative parts.0) in
          let (slot, run, found, low, free) =
            alternative_slot-IsFound (above key) blobs next n.1 h.1 (above-IsAhead key blobs h.0)
              parts.1 in
          let behind = (rw above_number at low) in
          let near = ahead.0 alternative in
          (
            slot,
            rw step run,
            found,
            omega arith,
            get_past slot key blob blobs (ground arith) ∙ free,
          )
      | inr other ↦
          let (slot, run, found, low, free) =
            alternative_slot-IsFound our blobs o n.1 h.1 ahead.1 parts.1 in
          (
            slot,
            rw (stays other) run,
            found,
            low,
            get_past slot key blob blobs (differ_by_kind slot key n.0 found other) ∙ free,
          )
    ]
  where
    parts :
        (CodeSigningSlot.to_u32 CodeSigningSlot.alternate_code_directory4
            == CodeSigningSlot.to_u32 key
          ≡ false)
        × (get CodeSigningSlot.alternate_code_directory4 blobs ≡ none)
    parts = get-none_parts CodeSigningSlot.alternate_code_directory4 key blob blobs last

    above_number : CodeSigningSlot.to_u32 (above key) ≡ CodeSigningSlot.to_u32 key + 1
    above_number = unfold above in to_u32-from_u32 (CodeSigningSlot.to_u32 key + 1)

    stays : is_alternative_code_directory key ≡ false → next_alternative our key ≡ ok our
    stays e = unfold next_alternative in rw e refl

alternative_slot_full :
    (our : CodeSigningSlot) (blob : BlobData) (blobs : Blobs)
    → HasNormalKeys blobs
    → get CodeSigningSlot.alternate_code_directory4 blobs ≡ some blob
    → alternative_slot our blobs ≡ err no_more
unfolding alternative_slot get
alternative_slot_full our blob [] n e = cc
alternative_slot_full our blob ((key, value) ∷ blobs) n e =
    elim (Bool-cases (
      CodeSigningSlot.to_u32 CodeSigningSlot.alternate_code_directory4
      == CodeSigningSlot.to_u32 key)) [
        | inl same ↦
            let number : CodeSigningSlot.to_u32 key ≡ 0x1004 =
              (let equal = (rw last_number at same) in ground arith) in
            rw (key_is_last key n.0 number, next_alternative_last our) refl
        | inr differ ↦ elim (next_alternative_cases our key) [
          | inl (next, step) ↦ rw step (alternative_slot_full next blob blobs n.1 (rw differ at e))
          | inr refused ↦ rw refused refl
        ]
      ]

-- What `add_alternative_code_directory` gets, by what is in the last alternative slot.
abbrev pub SlotOutcome : Option BlobData → Blobs → Type 0
SlotOutcome (some _) blobs =
    alternative_slot CodeSigningSlot.alternate_code_directory0 blobs ≡ err no_more
SlotOutcome none blobs =
    (slot : CodeSigningSlot) × (alternative_slot CodeSigningSlot.alternate_code_directory0 blobs
      ≡ ok slot)
    × (is_alternative_code_directory slot ≡ true)
    × (get slot blobs ≡ none)

-- Over blobs by ascending slots, none of them an Unknown of a number that has a name, the slot
-- picked for an alternative code directory is one of the five alternative slots and is free, if
-- the last of them is free; otherwise the error that no more slots are available is returned.
pub alternative-SlotOutcome :
    (blobs : Blobs)
    → HasNormalKeys blobs
    → IsAscending blobs
    → SlotOutcome (get CodeSigningSlot.alternate_code_directory4 blobs) blobs
alternative-SlotOutcome blobs n h =
    outcome (get CodeSigningSlot.alternate_code_directory4 blobs) refl
  where
    outcome :
        (last : Option BlobData)
        → get CodeSigningSlot.alternate_code_directory4 blobs ≡ last
        → SlotOutcome last blobs
    outcome (some blob) e =
        alternative_slot_full CodeSigningSlot.alternate_code_directory0 blob blobs n e
    outcome none e =
        let (slot, run, found, _, free) =
          alternative_slot-IsFound CodeSigningSlot.alternate_code_directory0 blobs
            (unfold is_alternative_code_directory in refl) n h (first-IsAhead blobs) e in
        (slot, run, found, free)

pub alternative_slot-alternative :
    (our slot : CodeSigningSlot) (blobs : Blobs)
    → is_alternative_code_directory our ≡ true
    → alternative_slot our blobs ≡ ok slot
    → is_alternative_code_directory slot ≡ true
unfolding alternative_slot
alternative_slot-alternative our slot [] o e =
    let same : our ≡ slot = cc in ap is_alternative_code_directory (sym same) ∙ o
alternative_slot-alternative our slot ((key, blob) ∷ blobs) o e =
    let (next, step, rest) =
      ok-bind (next_alternative our key) (λ next. alternative_slot next blobs) e in
    alternative_slot-alternative next slot blobs (next_alternative-alternative our key next o step)
      rest
