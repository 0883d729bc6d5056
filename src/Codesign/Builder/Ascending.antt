-- ===== src/Codesign/Builder/Ascending.antt =====
-- The maps of slots of embedded_signature_builder.rs, in the ascending order of a `BTreeMap`.
use apple_platform_rs.Base.{
  ℕ, ◌<◌, ◌≤◌, ◌≡◌, refl, none, List, [], ◌∷◌, ltb, ◌==◌, All, arith, Bool-cases, inl, inr,
}
use apple_platform_rs.Codesign.Blob.CodeSigningSlot
use apple_platform_rs.Codesign.Blob.CodeSigningSlot.{
  CodeSigningSlot, is_code_directory_specials_expressible, le, info, library_constraints,
}
use apple_platform_rs.Codesign.CodeDirectory.Slots.{insert, get}

-- The keys of a map ascend.
abbrev pub IsAbove {ℓ} : {A : Type ℓ} → ℕ → List (CodeSigningSlot × A) → Type 0
IsAbove n entries = All (λ entry. n < CodeSigningSlot.to_u32 entry.0) entries

abbrev pub IsAscending {ℓ} : {A : Type ℓ} → List (CodeSigningSlot × A) → Type 0
IsAscending [] = Unit
IsAscending ((slot, _) ∷ entries) =
    IsAbove (CodeSigningSlot.to_u32 slot) entries × IsAscending entries

insert-IsAbove {ℓ} :
    {A : Type ℓ} (n : ℕ) (slot : CodeSigningSlot) (a : A) (entries : List (CodeSigningSlot × A))
    → n < CodeSigningSlot.to_u32 slot
    → IsAbove n entries
    → IsAbove n (insert slot a entries)
unfolding insert
insert-IsAbove n slot a [] l h = (l, tt)
insert-IsAbove n slot a ((key, value) ∷ entries) l h =
    elim (Bool-cases (ltb (CodeSigningSlot.to_u32 slot) (CodeSigningSlot.to_u32 key))) [
      | inl before ↦ rw before (l, h)
      | inr after ↦ elim (Bool-cases (CodeSigningSlot.to_u32 slot == CodeSigningSlot.to_u32 key)) [
        | inl same ↦ rw (after, same) h
        | inr other ↦ rw (after, other) (h.0, insert-IsAbove n slot a entries l h.1)
      ]
    ]

IsAbove-weaken {ℓ} :
    {A : Type ℓ} (m n : ℕ) (entries : List (CodeSigningSlot × A))
    → m < n
    → IsAbove n entries
    → IsAbove m entries
IsAbove-weaken m n [] l h = tt
IsAbove-weaken m n ((key, value) ∷ entries) l h = (omega arith, IsAbove-weaken m n entries l h.1)

pub insert-IsAscending {ℓ} :
    {A : Type ℓ} (slot : CodeSigningSlot) (a : A) (entries : List (CodeSigningSlot × A))
    → IsAscending entries
    → IsAscending (insert slot a entries)
unfolding insert
insert-IsAscending slot a [] h = (tt, tt)
insert-IsAscending slot a ((key, value) ∷ entries) h =
    elim (Bool-cases (ltb (CodeSigningSlot.to_u32 slot) (CodeSigningSlot.to_u32 key))) [
      | inl before ↦ rw before (
        (
          ground arith,
          IsAbove-weaken (CodeSigningSlot.to_u32 slot) (CodeSigningSlot.to_u32 key) entries
              (ground arith) h.0,
        ),
        h,
      )
      | inr after ↦ elim (Bool-cases (CodeSigningSlot.to_u32 slot == CodeSigningSlot.to_u32 key)) [
        | inl same ↦ rw (after, same) h
        | inr other ↦
            rw (after, other)
              (
                insert-IsAbove (CodeSigningSlot.to_u32 key) slot a entries (ground arith) h.0,
                insert-IsAscending slot a entries h.1,
              )
      ]
    ]

pub get-IsAbove {ℓ} :
    {A : Type ℓ} (n : ℕ) (slot : CodeSigningSlot) (entries : List (CodeSigningSlot × A))
    → CodeSigningSlot.to_u32 slot ≤ n
    → IsAbove n entries
    → get slot entries ≡ none
unfolding get
get-IsAbove n slot [] l h = refl
get-IsAbove n slot ((key, value) ∷ entries) l h =
    let above = h.0 in ground (arith, get-IsAbove n slot entries l h.1)

-- Slots of one number are one slot of a map.
pub get_same {ℓ} :
    {A : Type ℓ} (slot other : CodeSigningSlot) (entries : List (CodeSigningSlot × A))
    → CodeSigningSlot.to_u32 other ≡ CodeSigningSlot.to_u32 slot
    → get other entries ≡ get slot entries
unfolding get
get_same slot other [] e = refl
get_same slot other ((key, value) ∷ entries) e = rw (e, get_same slot other entries e) refl
