-- ===== src/Codesign/CodeDirectory/RoundTrip/Variable.antt =====
-- The head of a code directory of code_directory.rs and what stands behind its fields, as written.
use apple_platform_rs.Base.{
  ℕ, zero, suc, ◌+◌, ◌-◌, ◌%◌, ◌^◌, ◌≤◌, ◌≡◌, refl, sym, ap, ◌∙◌, true, Option, none, some, List,
  [], ◌∷◌, ◌++◌, ok, Bytes, length, All, All-mono, arith, length-append, append_assoc, append-nil,
  u32_bytes, Bool-cases, inl, inr,
}
use apple_platform_rs.Base.Gread.{u8_bytes}
use apple_platform_rs.Codesign.Blob.CodeSigningSlot
use apple_platform_rs.Codesign.Blob.CodeSigningSlot.{
  specials_exclusive, is_code_directory_specials_expressible, to_u32-from_u32,
}
use apple_platform_rs.Codesign.CodeDirectory.Data.{
  CodeDirectoryBlob, Digest, SlotDigests, supports_team_id,
}
use apple_platform_rs.Codesign.CodeDirectory.Slots.{highest_slot}
use apple_platform_rs.Codesign.CodeDirectory.Slots.Laws.{IsExpressible, HasLength, get-HasLength}
use apple_platform_rs.Codesign.CodeDirectory.Serialize.{
  supports, trailing_zeros, write_counts, write_team, special_bytes, write_specials, write_digests,
  write_head, write_variable,
}
use apple_platform_rs.Codesign.CodeDirectory.RoundTrip.Sections.{at_position, team_position}
use apple_platform_rs.Codesign.CodeDirectory.RoundTrip.{
  fixed_bytes, text_or_none, team_text, ident_at, team_at, special_digests_of, digests_at,
  tail_bytes, concat, specials_down, digest_or_zeros, or_zeros,
}

write_digests-lem :
    (ds : List Digest) (cursor : Bytes) → write_digests ds cursor ≡ cursor ++ concat ds
unfolding write_digests concat
write_digests-lem [] cursor = sym (append-nil cursor)
write_digests-lem (d ∷ ds) cursor =
    write_digests-lem ds (cursor ++ d) ∙ append_assoc cursor d (concat ds)

special_bytes-ok :
    (b : CodeDirectoryBlob) (found : Option Digest)
    → ((digest : Digest) → found ≡ some digest → length digest ≡ b.digest_size)
    → special_bytes b.digest_size found ≡ ok (or_zeros b found)
unfolding special_bytes
special_bytes-ok b none h = refl
special_bytes-ok b (some digest) h = rw (at_position b.digest_size digest (h digest refl)) refl

pub write_specials-lem :
    (b : CodeDirectoryBlob) (n : ℕ) (cursor : Bytes)
    → n ≤ 11
    → HasLength b.digest_size b.special_digests
    → write_specials n b.digest_size b.special_digests cursor
      ≡ ok (cursor ++ concat (specials_down b n))
unfolding write_specials concat specials_down digest_or_zeros
write_specials-lem b zero cursor h k = ap ok (sym (append-nil cursor))
write_specials-lem b (suc n) cursor h k =
    rw
      (
        expressible,
        special_bytes-ok b _
            (λ digest e. get-HasLength b.digest_size _ b.special_digests digest k e),
      )
      (write_specials-lem b n (cursor ++ digest_or_zeros b (suc n)) (omega arith) k
        ∙ ap ok (append_assoc cursor (digest_or_zeros b (suc n)) (concat (specials_down b n))))
  where
    expressible : is_code_directory_specials_expressible (CodeSigningSlot.from_u32 (suc n)) ≡ true
    expressible = (specials_exclusive (suc n)).0.1 (omega arith, omega arith)

pub highest_slot_bound :
    (size : ℕ) (specials : SlotDigests)
    → All (IsExpressible size) specials
    → highest_slot specials ≤ 11
unfolding highest_slot
highest_slot_bound size [] h = omega arith
highest_slot_bound size ((key, value) ∷ entries) h =
    omega (arith, highest_slot_bound size entries h.1, h.0.1)

write_team-lem :
    (b : CodeDirectoryBlob) (cursor : Bytes)
    → write_team (team_position b) b.team_name cursor ≡ cursor ++ team_text b
unfolding write_team team_position team_text
write_team-lem b cursor = elim (Bool-cases (supports supports_team_id b.version)) [
  | inl e ↦ rw e (go b.team_name)
  | inr e ↦ rw e (sym (append-nil cursor))
]
  where
    go : (name : Option Bytes) → write_team (some 0x28) name cursor ≡ cursor ++ text_or_none name
    go none = sym (append-nil cursor)
    go (some name) = refl

pub write_head-lem :
    (b : CodeDirectoryBlob)
    → write_head b
      ≡ ok (
        fixed_bytes b 0 0
            (highest_slot b.special_digests)
            (length b.code_digests)
            (trailing_zeros 32 b.page_size),
        8,
        12,
      )
unfolding write_head write_counts fixed_bytes u32_bytes u8_bytes
write_head-lem b = refl

pub IsExpressible-HasLength :
    (size : ℕ) (specials : SlotDigests)
    → All (IsExpressible size) specials
    → HasLength size specials
IsExpressible-HasLength size specials h = All-mono specials (λ entry e. e.2) h

pub write_variable-lem :
    (b : CodeDirectoryBlob) (cursor : Bytes)
    → All (IsExpressible b.digest_size) b.special_digests
    → length cursor + 8 ≡ ident_at b
    → write_variable b (team_position b) cursor
      ≡ ok (cursor ++ tail_bytes b, length cursor, team_at b - 8, digests_at b - 8)
unfolding write_variable tail_bytes special_digests_of
write_variable-lem b cursor w h = rw (
  write_team-lem b (cursor ++ text),
  slots,
  write_specials-lem b (highest_slot b.special_digests) ((cursor ++ text) ++ team_text b) bound
      (IsExpressible-HasLength b.digest_size b.special_digests w),
  write_digests-lem b.code_digests,
  bytes,
  team,
  digests,
)
  where
    text : Bytes
    text = b.ident ++ (0 ∷ [])

    specials : Bytes
    specials = concat (specials_down b (highest_slot b.special_digests))

    bound : highest_slot b.special_digests ≤ 11
    bound = highest_slot_bound b.digest_size b.special_digests w

    slots : (highest_slot b.special_digests + 1) % 2 ^ 32 - 1 ≡ highest_slot b.special_digests
    slots = omega (arith, bound)

    bytes :
        (((cursor ++ text) ++ team_text b) ++ specials) ++ concat b.code_digests
        ≡ cursor ++ (text ++ (team_text b ++ (specials ++ concat b.code_digests)))
    bytes = rw (append_assoc, append_assoc, append_assoc) refl

    team : length (cursor ++ text) ≡ team_at b - 8
    team =
        unfold team_at in
        omega (arith, h, length-append cursor text, length-append b.ident (0 ∷ []))

    digests : length (((cursor ++ text) ++ team_text b) ++ specials) ≡ digests_at b - 8
    digests =
        unfold digests_at special_digests_of team_at in
        omega (
          arith,
          h,
          length-append cursor text,
          length-append b.ident (0 ∷ []),
          length-append (cursor ++ text) (team_text b),
          length-append ((cursor ++ text) ++ team_text b) specials,
        )
