-- ===== src/Codesign/CodeDirectory/RoundTrip/Bounds.antt =====
-- Lengths and offsets in the bytes of a code directory of code_directory.rs.
use apple_platform_rs.Base.{
  ℕ, ◌+◌, ◌<◌, ◌≤◌, ◌≡◌, refl, [], ◌∷◌, ◌++◌, length, arith, length-append, IsU32, u32_bytes,
  Bool-cases, inl, inr,
}
use apple_platform_rs.Base.Gread.{u8_bytes}
use apple_platform_rs.Codesign.CodeDirectory.Data.{CodeDirectoryBlob, supports_team_id}
use apple_platform_rs.Codesign.CodeDirectory.Slots.{highest_slot}
use apple_platform_rs.Codesign.CodeDirectory.Serialize.{supports, trailing_zeros}
use apple_platform_rs.Codesign.CodeDirectory.RoundTrip.{
  fixed_bytes, scatter_bytes, team_bytes, limit_bytes, exec_seg_bytes, runtime_bytes, linkage_bytes,
  optional_bytes, team_text, ident_at, team_at, team_field, special_digests_of, digests_at,
  tail_bytes, layout, concat,
}

pub length-fixed_bytes :
    (b : CodeDirectoryBlob) (d i h c p : ℕ) → length (fixed_bytes b d i h c p) ≡ 0x24
unfolding fixed_bytes u8_bytes u32_bytes
length-fixed_bytes b d i h c p = refl

pub length-team_bytes :
    (b : CodeDirectoryBlob) (t : ℕ) → length (team_bytes b t) ≡ length (team_bytes b 0)
unfolding team_bytes u32_bytes
length-team_bytes b t = elim (Bool-cases (supports supports_team_id b.version)) [
  | inl e ↦ rw e refl
  | inr e ↦ rw e refl
]

-- The offsets do not change what they count.
pub length-optional_bytes :
    (b : CodeDirectoryBlob) (t : ℕ) → length (optional_bytes b t) ≡ length (optional_bytes b 0)
unfolding optional_bytes
length-optional_bytes b t =
    let later = limit_bytes b ++ (exec_seg_bytes b ++ (runtime_bytes b ++ linkage_bytes b)) in
    omega (
      arith,
      length-append (scatter_bytes b) (team_bytes b t ++ later),
      length-append (scatter_bytes b) (team_bytes b 0 ++ later),
      length-append (team_bytes b t) later,
      length-append (team_bytes b 0) later,
      length-team_bytes b t,
    )

-- The code digests are the end of the blob.
pub length-layout :
    (b : CodeDirectoryBlob) → length (layout b) + 8 ≡ digests_at b + length (concat b.code_digests)
unfolding layout tail_bytes digests_at team_at ident_at
length-layout b =
    let text = b.ident ++ (0 ∷ []) in
    let specials = concat (special_digests_of b) in
    let codes = concat b.code_digests in
    omega (
      arith,
      length-append (fixed_bytes b _ _ _ _ _) (optional_bytes b (team_field b) ++ tail_bytes b),
      length-fixed_bytes b (digests_at b) (ident_at b) (highest_slot b.special_digests)
          (length b.code_digests) (trailing_zeros 32 b.page_size),
      length-append (optional_bytes b (team_field b)) (tail_bytes b),
      length-optional_bytes b (team_field b),
      length-append text (team_text b ++ (specials ++ codes)),
      length-append b.ident (0 ∷ []),
      length-append (team_text b) (specials ++ codes),
      length-append specials codes,
    )

pub record InBounds (b : CodeDirectoryBlob) : Type 0 where
  pub ident_low : 44 ≤ ident_at b
  pub ident_team : ident_at b < team_at b
  pub team_digests : team_at b ≤ digests_at b
  pub digests_high : IsU32 (digests_at b)

pub layout-InBounds : (b : CodeDirectoryBlob) → IsU32 (length (layout b) + 8) → InBounds b
unfolding ident_at team_at digests_at
layout-InBounds b h = record {
  ident_low = omega arith;
  ident_team = omega arith;
  team_digests = omega arith;
  digests_high = omega (arith, length-layout b);
}
