-- ===== src/Codesign/Builder/Turns.antt =====
-- A turn of the loop of `add_alternative_code_directory` of embedded_signature_builder.rs.
use apple_platform_rs.Base.{
  ℕ, ◌+◌, ◌<◌, ◌≤◌, ◌≡◌, ◌⊎◌, refl, sym, ap, ◌∙◌, true, false, ok, err, ◌==◌, arith, Bool-cases,
  inl, inr,
}
use apple_platform_rs.Codesign.Error.{Error, signature_builder}
use apple_platform_rs.Codesign.Blob.CodeSigningSlot
use apple_platform_rs.Codesign.Blob.CodeSigningSlot.{
  CodeSigningSlot, is_alternative_code_directory, IsNormal, to_u32-from_u32,
}
use apple_platform_rs.Codesign.Builder.{next_alternative}

unfoldable pub above : CodeSigningSlot → CodeSigningSlot
above slot = CodeSigningSlot.from_u32 (CodeSigningSlot.to_u32 slot + 1)

pub is_alternative_numbers :
    (slot : CodeSigningSlot)
    → is_alternative_code_directory slot ≡ true
    → (0x1000 ≤ CodeSigningSlot.to_u32 slot) × (CodeSigningSlot.to_u32 slot ≤ 0x1004)
unfolding is_alternative_code_directory CodeSigningSlot.to_u32
is_alternative_numbers slot e = ground arith

pub numbers_is_alternative :
    (n : ℕ)
    → 0x1000 ≤ n
    → n ≤ 0x1004
    → is_alternative_code_directory (CodeSigningSlot.from_u32 n) ≡ true
unfolding is_alternative_code_directory CodeSigningSlot.from_u32
numbers_is_alternative n l h = ground arith

pub next_alternative_below :
    (our slot : CodeSigningSlot)
    → is_alternative_code_directory slot ≡ true
    → CodeSigningSlot.to_u32 slot < 0x1004
    → (next_alternative our slot ≡ ok (above slot))
      × (is_alternative_code_directory (above slot) ≡ true)
unfolding next_alternative above
next_alternative_below our slot e below = (rw (e, next) refl, next)
  where
    next : is_alternative_code_directory (above slot) ≡ true
    next =
        unfold above in
        let low = (is_alternative_numbers slot e).0 in
        numbers_is_alternative (CodeSigningSlot.to_u32 slot + 1) (omega arith) (omega arith)

pub next_alternative_last :
    (our : CodeSigningSlot)
    → next_alternative our CodeSigningSlot.alternate_code_directory4
      ≡ err (signature_builder "no more available alternative code directory slots")
unfolding next_alternative is_alternative_code_directory CodeSigningSlot.to_u32
    CodeSigningSlot.from_u32
next_alternative_last our = refl

pub last_number : CodeSigningSlot.to_u32 CodeSigningSlot.alternate_code_directory4 ≡ 0x1004
unfolding CodeSigningSlot.to_u32
last_number = refl

pub not_last :
    (key : CodeSigningSlot)
    → is_alternative_code_directory key ≡ true
    → CodeSigningSlot.to_u32 CodeSigningSlot.alternate_code_directory4 == CodeSigningSlot.to_u32 key
      ≡ false
    → CodeSigningSlot.to_u32 key < 0x1004
not_last key alternative e =
    let high = (is_alternative_numbers key alternative).1 in
    let differ = (rw last_number at e) in ground arith

-- An alternative slot has not the number of a slot of another kind.
pub differ_by_kind :
    (slot key : CodeSigningSlot)
    → IsNormal key
    → is_alternative_code_directory slot ≡ true
    → is_alternative_code_directory key ≡ false
    → CodeSigningSlot.to_u32 slot == CodeSigningSlot.to_u32 key ≡ false
differ_by_kind slot key normal alternative other =
    elim (Bool-cases (CodeSigningSlot.to_u32 slot == CodeSigningSlot.to_u32 key)) [
      | inl same ↦
          let (low, high) = is_alternative_numbers slot alternative in
          let number : CodeSigningSlot.to_u32 slot ≡ CodeSigningSlot.to_u32 key = ground arith in
          let also =
            ap is_alternative_code_directory (sym normal)
            ∙ numbers_is_alternative (CodeSigningSlot.to_u32 key) (omega arith) (omega arith) in
          cc
      | inr differ ↦ differ
    ]

abbrev pub no_more : Error
no_more = signature_builder "no more available alternative code directory slots"

pub next_alternative_cases :
    (our slot : CodeSigningSlot)
    → ((next : CodeSigningSlot) × (next_alternative our slot ≡ ok next))
      ⊎ (next_alternative our slot ≡ err no_more)
unfolding next_alternative
next_alternative_cases our slot = elim (Bool-cases (is_alternative_code_directory slot)) [
  | inl alternative ↦
      elim (Bool-cases (
        is_alternative_code_directory
          (CodeSigningSlot.from_u32 (CodeSigningSlot.to_u32 slot + 1)))) [
            | inl more ↦ inl (above slot, unfold above in rw (alternative, more) refl)
            | inr last ↦ inr (rw (alternative, last) refl)
          ]
  | inr other ↦ inl (our, rw other refl)
]

pub key_is_last :
    (key : CodeSigningSlot)
    → IsNormal key
    → CodeSigningSlot.to_u32 key ≡ 0x1004
    → key ≡ CodeSigningSlot.alternate_code_directory4
unfolding CodeSigningSlot.from_u32
key_is_last key normal number = sym normal ∙ ap CodeSigningSlot.from_u32 number

pub next_alternative-alternative :
    (our slot next : CodeSigningSlot)
    → is_alternative_code_directory our ≡ true
    → next_alternative our slot ≡ ok next
    → is_alternative_code_directory next ≡ true
unfolding next_alternative
next_alternative-alternative our slot next o e =
    elim (Bool-cases (is_alternative_code_directory slot)) [
      | inl alternative ↦
          elim (Bool-cases (
            is_alternative_code_directory
              (CodeSigningSlot.from_u32 (CodeSigningSlot.to_u32 slot + 1)))) [
                | inl more ↦
                    let same : above slot ≡ next =
                      unfold above in (let there = (rw (alternative, more) at e) in cc) in
                    ap is_alternative_code_directory (sym same) ∙ (unfold above in more)
                | inr last ↦ (let there = (rw (alternative, last) at e) in cc)
              ]
      | inr other ↦
          let same : our ≡ next = (let there = (rw other at e) in cc) in
          ap is_alternative_code_directory (sym same) ∙ o
    ]
