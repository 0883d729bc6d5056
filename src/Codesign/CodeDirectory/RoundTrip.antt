-- ===== src/Codesign/CodeDirectory/RoundTrip.antt =====
-- The bytes of a code directory of code_directory.rs laid out in one piece, and what the parser makes
-- of them.
pub mod Fields
pub mod Fixed
pub mod Digests
pub mod Sections
pub mod Bounds
pub mod Variable
pub mod Written
pub mod Texts
pub mod Positions
pub mod ReadBack
use apple_platform_rs.Base.{
  ℕ, zero, suc, ◌+◌, ◌*◌, ◌%◌, ◌^◌, ◌≤◌, ◌<◌, ◌≡◌, ◌≢◌, Bool, true, Option, none, some, List, [],
  ◌∷◌, ◌++◌, if◌then◌else◌, Bytes, IsU32, IsByte, length, replicate, All, u32_bytes, u64_bytes,
  is_utf8,
}
use apple_platform_rs.Base.Gread.{u8_bytes, u16_bytes}
use apple_platform_rs.Codesign.DigestType
use apple_platform_rs.Codesign.Blob.CodeSigningSlot
use apple_platform_rs.Codesign.Blob.CodeSigningSlot.{CodeSigningSlot}
use apple_platform_rs.Codesign.CodeDirectory.Data.{
  CodeDirectoryVersion, CodeDirectoryBlob, Digest, SlotDigests, supports_scatter, supports_team_id,
  supports_code_limit64, supports_executable_segment, supports_runtime, supports_linkage,
}
use apple_platform_rs.Codesign.CodeDirectory.Slots.{get, highest_slot}
use apple_platform_rs.Codesign.CodeDirectory.Slots.Laws.{IsExpressible}
use apple_platform_rs.Codesign.CodeDirectory.Serialize.{supports, or_zero, trailing_zeros}

-- The fields of every version.
unfoldable pub fixed_bytes :
    CodeDirectoryBlob → (digest_offset ident_offset n_special n_code page : ℕ) → Bytes
fixed_bytes b digest_offset ident_offset n_special n_code page =
    u32_bytes b.version
    ++ (u32_bytes b.flags
        ++ (u32_bytes digest_offset
            ++ (u32_bytes ident_offset
                ++ (u32_bytes n_special
                    ++ (u32_bytes n_code
                        ++ (u32_bytes b.code_limit
                            ++ (u8_bytes b.digest_size
                                ++ (u8_bytes (DigestType.to_u8 b.digest_type)
                                    ++ (u8_bytes b.platform
                                        ++ (u8_bytes page ++ u32_bytes b.spare2))))))))))

-- The optional fields by section; a section is there from its version on.
unfoldable pub scatter_bytes : CodeDirectoryBlob → Bytes
scatter_bytes b =
    if supports supports_scatter b.version then u32_bytes (or_zero b.scatter_offset) else []

unfoldable pub team_bytes : CodeDirectoryBlob → ℕ → Bytes
team_bytes b team_offset = if supports supports_team_id b.version then u32_bytes team_offset else []

unfoldable pub limit_bytes : CodeDirectoryBlob → Bytes
limit_bytes b =
    if supports supports_code_limit64 b.version
    then u32_bytes (or_zero b.spare3) ++ u64_bytes (or_zero b.code_limit_64)
    else []

unfoldable pub exec_seg_bytes : CodeDirectoryBlob → Bytes
exec_seg_bytes b =
    if supports supports_executable_segment b.version
    then u64_bytes (or_zero b.exec_seg_base)
      ++ (u64_bytes (or_zero b.exec_seg_limit) ++ u64_bytes (or_zero b.exec_seg_flags))
    else []

unfoldable pub runtime_bytes : CodeDirectoryBlob → Bytes
runtime_bytes b =
    if supports supports_runtime b.version
    then u32_bytes (or_zero b.runtime) ++ u32_bytes (or_zero b.pre_encrypt_offset)
    else []

unfoldable pub linkage_bytes : CodeDirectoryBlob → Bytes
linkage_bytes b =
    if supports supports_linkage b.version
    then u8_bytes (or_zero b.linkage_hash_type)
      ++ (u8_bytes (or_zero b.linkage_truncated)
          ++ (u16_bytes (or_zero b.spare4)
              ++ (u32_bytes (or_zero b.linkage_offset) ++ u32_bytes (or_zero b.linkage_size))))
    else []

-- The special digests from a slot down to slot 1; a slot without a digest has zeros.
abbrev pub or_zeros : CodeDirectoryBlob → Option Digest → Digest
or_zeros b (some digest) = digest
or_zeros b none = replicate b.digest_size 0

unfoldable pub digest_or_zeros : CodeDirectoryBlob → ℕ → Digest
digest_or_zeros b n = or_zeros b (get (CodeSigningSlot.from_u32 n) b.special_digests)

unfoldable pub specials_down : CodeDirectoryBlob → ℕ → List Digest
specials_down b zero = []
specials_down b (suc n) = digest_or_zeros b (suc n) ∷ specials_down b n

unfoldable pub concat : List Digest → Bytes
concat [] = []
concat (d ∷ ds) = d ++ concat ds

unfoldable pub optional_bytes : CodeDirectoryBlob → ℕ → Bytes
optional_bytes b team_offset =
    scatter_bytes b
    ++ (team_bytes b team_offset
        ++ (limit_bytes b ++ (exec_seg_bytes b ++ (runtime_bytes b ++ linkage_bytes b))))

-- The team name, where the version has a field for its offset.
abbrev pub text_or_none : Option Bytes → Bytes
text_or_none (some name) = name ++ (0 ∷ [])
text_or_none none = []

unfoldable pub team_text : CodeDirectoryBlob → Bytes
team_text b = if supports supports_team_id b.version then text_or_none b.team_name else []

-- The offsets of the identifier, of the team name and of the code digests from the start of the blob.
unfoldable pub ident_at : CodeDirectoryBlob → ℕ
ident_at b = 44 + length (optional_bytes b 0)

unfoldable pub team_at : CodeDirectoryBlob → ℕ
team_at b = ident_at b + (length b.ident + 1)

abbrev pub offset_of : ℕ → Option Bytes → ℕ
offset_of position (some name) = position
offset_of position none = 0

unfoldable pub team_field : CodeDirectoryBlob → ℕ
team_field b = offset_of (team_at b) b.team_name

unfoldable pub special_digests_of : CodeDirectoryBlob → List Digest
special_digests_of b = specials_down b (highest_slot b.special_digests)

unfoldable pub digests_at : CodeDirectoryBlob → ℕ
digests_at b = team_at b + length (team_text b) + length (concat (special_digests_of b))

-- What stands behind the fields.
unfoldable pub tail_bytes : CodeDirectoryBlob → Bytes
tail_bytes b =
    (b.ident ++ (0 ∷ []))
    ++ (team_text b ++ (concat (special_digests_of b) ++ concat b.code_digests))

-- The payload in one piece.
unfoldable pub layout : CodeDirectoryBlob → Bytes
layout b =
    fixed_bytes b (digests_at b) (ident_at b) (highest_slot b.special_digests)
      (length b.code_digests) (trailing_zeros 32 b.page_size)
    ++ (optional_bytes b (team_field b) ++ tail_bytes b)

-- A version that has a field fills it, an older one has none.
unfoldable pub filled : ℕ → CodeDirectoryVersion → Option ℕ → Option ℕ
filled version since field = if supports since version then some (or_zero field) else none

-- The special digests of all slots from a slot on, so many of them.
unfoldable pub slots_from : CodeDirectoryBlob → ℕ → ℕ → SlotDigests
slots_from b first zero = []
slots_from b first (suc n) =
    (CodeSigningSlot.from_u32 first, digest_or_zeros b first) ∷ slots_from b (first + 1) n

-- What is read back: the fields of the version are filled and newer ones dropped, and every slot up
-- to the highest one has a digest.
unfoldable pub normalised : CodeDirectoryBlob → CodeDirectoryBlob
normalised b = record b {
  scatter_offset = none;
  team_name = if supports supports_team_id b.version then b.team_name else none;
  spare3 = filled b.version supports_code_limit64 b.spare3;
  code_limit_64 = filled b.version supports_code_limit64 b.code_limit_64;
  exec_seg_base = filled b.version supports_executable_segment b.exec_seg_base;
  exec_seg_limit = filled b.version supports_executable_segment b.exec_seg_limit;
  exec_seg_flags = filled b.version supports_executable_segment b.exec_seg_flags;
  runtime = filled b.version supports_runtime b.runtime;
  pre_encrypt_offset = filled b.version supports_runtime b.pre_encrypt_offset;
  linkage_hash_type = filled b.version supports_linkage b.linkage_hash_type;
  linkage_truncated = filled b.version supports_linkage b.linkage_truncated;
  spare4 = filled b.version supports_linkage b.spare4;
  linkage_offset = filled b.version supports_linkage b.linkage_offset;
  linkage_size = filled b.version supports_linkage b.linkage_size;
  special_digests = slots_from b 1 (highest_slot b.special_digests);
}

-- The values of the fields are within their widths.
pub record IsInRange (b : CodeDirectoryBlob) : Type 0 where
  pub version : IsU32 b.version
  pub flags : IsU32 b.flags
  pub code_limit : IsU32 b.code_limit
  pub digest_size : IsByte b.digest_size
  pub digest_type : IsByte (DigestType.to_u8 b.digest_type)
  pub platform : IsByte b.platform
  pub spare2 : IsU32 b.spare2
  pub spare3 : IsU32 (or_zero b.spare3)
  pub code_limit_64 : or_zero b.code_limit_64 < 2 ^ 64
  pub exec_seg_base : or_zero b.exec_seg_base < 2 ^ 64
  pub exec_seg_limit : or_zero b.exec_seg_limit < 2 ^ 64
  pub exec_seg_flags : or_zero b.exec_seg_flags < 2 ^ 64
  pub runtime : IsU32 (or_zero b.runtime)
  pub pre_encrypt_offset : IsU32 (or_zero b.pre_encrypt_offset)
  pub linkage_hash_type : IsByte (or_zero b.linkage_hash_type)
  pub linkage_truncated : IsByte (or_zero b.linkage_truncated)
  pub spare4 : or_zero b.spare4 < 2 ^ 16
  pub linkage_offset : IsU32 (or_zero b.linkage_offset)
  pub linkage_size : IsU32 (or_zero b.linkage_size)

-- A text that a C string holds.
pub record IsText (text : Bytes) : Type 0 where
  pub utf8 : is_utf8 text ≡ true
  pub no_null : All (λ c. c ≢ 0) text

-- What a code directory needs to be written and read back.
pub record IsWritable (b : CodeDirectoryBlob) : Type 0 where
  pub range : IsInRange b
  pub digest_type : DigestType.IsNormal b.digest_type
  pub page : ℕ
  pub page_bits : page < 32
  pub page_size : b.page_size ≡ 2 ^ page
  pub no_scatter : supports supports_scatter b.version ≡ true → b.scatter_offset ≡ none
  pub ident : IsText b.ident
  pub team_name : (name : Bytes) → b.team_name ≡ some name → IsText name
  pub positive : 1 ≤ b.digest_size
  pub code_digests : All (λ d. length d ≡ b.digest_size) b.code_digests
  pub special_digests : All (IsExpressible b.digest_size) b.special_digests
  pub fits : IsU32 (length (layout b) + 8)
