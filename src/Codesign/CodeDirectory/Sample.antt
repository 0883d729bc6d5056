-- ===== src/Codesign/CodeDirectory/Sample.antt =====
-- A code directory of code_directory.rs that can be written, for the tests.
use apple_platform_rs.Base.{
  ◌≡◌, refl, none, some, [], ◌∷◌, Bytes, arith, All, is_utf8, u32_bytes, u64_bytes, length, subst,
}
use apple_platform_rs.Base.Gread.{u8_bytes, u16_bytes}
use apple_platform_rs.Codesign.DigestType
use apple_platform_rs.Codesign.Blob.CodeSigningSlot
use apple_platform_rs.Codesign.Blob.CodeSigningSlot.{info, requirement_set, entitlements}
use apple_platform_rs.Codesign.CodeDirectory.Data
use apple_platform_rs.Codesign.CodeDirectory.Data.{CodeDirectoryBlob}
use apple_platform_rs.Codesign.CodeDirectory.Slots.Laws.{IsExpressible}
use apple_platform_rs.Codesign.CodeDirectory.Serialize.{trailing_zeros, supports}
use apple_platform_rs.Codesign.CodeDirectory.Slots.{get, highest_slot}
use apple_platform_rs.Codesign.CodeDirectory.RoundTrip.{
  IsWritable, IsText, IsInRange, layout, fixed_bytes, scatter_bytes, team_bytes, limit_bytes,
  exec_seg_bytes, runtime_bytes, linkage_bytes, optional_bytes, team_text, ident_at, team_at,
  team_field, special_digests_of, digests_at, tail_bytes, concat, specials_down, digest_or_zeros,
}

-- A directory of version 0x20400 with a team, two code digests and digests of two slots.
abbrev pub directory : CodeDirectoryBlob
directory = record {
  version = 0x20400;
  flags = 0x10002;
  code_limit = 0x8000;
  digest_size = 2;
  digest_type = DigestType.sha256;
  platform = 0;
  page_size = 4096;
  spare2 = 0;
  scatter_offset = none;
  spare3 = none;
  code_limit_64 = none;
  exec_seg_base = some 0;
  exec_seg_limit = some 0x4000;
  exec_seg_flags = some 1;
  runtime = none;
  pre_encrypt_offset = none;
  linkage_hash_type = none;
  linkage_truncated = none;
  spare4 = none;
  linkage_offset = none;
  linkage_size = none;
  ident = 97 ∷ 46 ∷ 98 ∷ [];
  team_name = some (84 ∷ []);
  code_digests = (1 ∷ 2 ∷ []) ∷ (3 ∷ 4 ∷ []) ∷ [];
  special_digests = (info, 5 ∷ 6 ∷ []) ∷ (requirement_set, 7 ∷ 8 ∷ []) ∷ [];
}

pub specials_ok : All (IsExpressible 2) directory.special_digests
unfolding CodeSigningSlot.to_u32
specials_ok = ((omega arith, omega arith, refl), ((omega arith, omega arith, refl), tt))

one_letter : IsText (84 ∷ [])
one_letter = record { utf8 = unfold is_utf8 in refl; no_null = (omega arith, tt) }

directory_texts : (name : Bytes) → directory.team_name ≡ some name → IsText name
directory_texts name e = subst IsText same one_letter
  where
    same : 84 ∷ [] ≡ name
    same = cc

directory-IsInRange : IsInRange directory
unfolding DigestType.to_u8
directory-IsInRange = record {
  version = omega arith;
  flags = omega arith;
  code_limit = omega arith;
  digest_size = omega arith;
  digest_type = omega arith;
  platform = omega arith;
  spare2 = omega arith;
  spare3 = omega arith;
  code_limit_64 = omega arith;
  exec_seg_base = omega arith;
  exec_seg_limit = omega arith;
  exec_seg_flags = omega arith;
  runtime = omega arith;
  pre_encrypt_offset = omega arith;
  linkage_hash_type = omega arith;
  linkage_truncated = omega arith;
  spare4 = omega arith;
  linkage_offset = omega arith;
  linkage_size = omega arith;
}

pub length-directory : length (layout directory) ≡ 94
unfolding layout fixed_bytes scatter_bytes team_bytes limit_bytes exec_seg_bytes runtime_bytes
    linkage_bytes optional_bytes team_text ident_at team_at team_field special_digests_of digests_at
    tail_bytes concat specials_down digest_or_zeros get highest_slot trailing_zeros supports
    u32_bytes u64_bytes u8_bytes u16_bytes CodeSigningSlot.from_u32 CodeSigningSlot.to_u32
    Data.to_u32
length-directory = refl

pub directory-IsWritable : IsWritable directory
directory-IsWritable = record {
  range = directory-IsInRange;
  digest_type = unfold DigestType.from_u8 DigestType.to_u8 in refl;
  page = 12;
  page_bits = omega arith;
  page_size = refl;
  no_scatter = λ _. refl;
  ident = record {
    utf8 = unfold is_utf8 in refl;
    no_null = (omega arith, (omega arith, (omega arith, tt)));
  };
  team_name = directory_texts;
  positive = omega arith;
  code_digests = (refl, (refl, tt));
  special_digests = specials_ok;
  fits = omega (arith, length-directory);
}
