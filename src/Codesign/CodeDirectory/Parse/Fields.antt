-- ===== src/Codesign/CodeDirectory/Parse/Fields.antt =====
-- The fields of a code directory, as `from_blob_bytes` of code_directory.rs reads them. Every section
-- gives its fields and the offset behind them.
use apple_platform_rs.Base.{
  ℕ, ◌%◌, ◌^◌, Option, none, some, ◌==◌, if◌then◌else◌, not, ok, ◌>>=◌, ◌>>◌, assert, Bytes,
}
use apple_platform_rs.Base.Gread.{gread_u8, gread_u16, gread_u32, gread_u64}
use apple_platform_rs.Codesign.Error.{Result, scroll}
use apple_platform_rs.Codesign.DigestType
use apple_platform_rs.Codesign.DigestType.{DigestType}
use apple_platform_rs.Codesign.CodeDirectory.Data.{
  supports_scatter, supports_team_id, supports_code_limit64, supports_executable_segment,
  supports_runtime, supports_linkage,
}
use apple_platform_rs.Codesign.CodeDirectory.Serialize.{supports}

-- The fields of every version.
pub record Fixed : Type 0 where
  pub version : ℕ
  pub flags : ℕ
  pub digest_offset : ℕ
  pub ident_offset : ℕ
  pub n_special_slots : ℕ
  pub n_code_slots : ℕ
  pub code_limit : ℕ
  pub digest_size : ℕ
  pub digest_type : DigestType
  pub platform : ℕ
  pub page_size : ℕ
  pub spare2 : ℕ

unfoldable pub read_fixed : Bytes → Result (Fixed × ℕ)
read_fixed data' = do
  (version, offset) ← gread_u32 scroll data' 8
  (flags, offset) ← gread_u32 scroll data' offset
  assert (offset == 0x10)
  (digest_offset, offset) ← gread_u32 scroll data' offset
  (ident_offset, offset) ← gread_u32 scroll data' offset
  (n_special_slots, offset) ← gread_u32 scroll data' offset
  (n_code_slots, offset) ← gread_u32 scroll data' offset
  assert (offset == 0x20)
  (code_limit, offset) ← gread_u32 scroll data' offset
  (digest_size, offset) ← gread_u8 scroll data' offset
  (digest_type, offset) ← gread_u8 scroll data' offset
  (platform, offset) ← gread_u8 scroll data' offset
  (page_size, offset) ← gread_u8 scroll data' offset
  (spare2, offset) ← gread_u32 scroll data' offset
  ok (
    record {
      version = version;
      flags = flags;
      digest_offset = digest_offset;
      ident_offset = ident_offset;
      n_special_slots = n_special_slots;
      n_code_slots = n_code_slots;
      code_limit = code_limit;
      digest_size = digest_size;
      digest_type = DigestType.from_u8 digest_type;
      platform = platform;
      page_size = 2 ^ page_size % 2 ^ 32;
      spare2 = spare2;
    },
    offset,
  )

-- `if v != 0 { Some(v) } else { None }`
unfoldable pub non_zero : ℕ → Option ℕ
non_zero v = if not (v == 0) then some v else none

unfoldable pub read_scatter : ℕ → Bytes → ℕ → Result (Option ℕ × ℕ)
read_scatter version data' offset =
    if supports supports_scatter version
    then (gread_u32 scroll data' offset >>= λ (v, offset). ok (non_zero v, offset))
    else ok (none, offset)

unfoldable pub read_team : ℕ → Bytes → ℕ → Result (Option ℕ × ℕ)
read_team version data' offset =
    if supports supports_team_id version
    then (assert (offset == 0x30)
        >> (gread_u32 scroll data' offset >>= λ (v, offset). ok (non_zero v, offset)))
    else ok (none, offset)

pub record Limit : Type 0 where
  pub spare3 : Option ℕ
  pub code_limit_64 : Option ℕ

abbrev pub no_limit : Limit
no_limit = record { spare3 = none; code_limit_64 = none }

unfoldable pub read_limit_fields : Bytes → ℕ → Result (Limit × ℕ)
read_limit_fields data' offset = do
  (spare3, offset) ← gread_u32 scroll data' offset
  (code_limit_64, offset) ← gread_u64 scroll data' offset
  ok (record { spare3 = some spare3; code_limit_64 = some code_limit_64 }, offset)

unfoldable pub read_limit : ℕ → Bytes → ℕ → Result (Limit × ℕ)
read_limit version data' offset =
    if supports supports_code_limit64 version
    then read_limit_fields data' offset
    else ok (no_limit, offset)

pub record ExecSeg : Type 0 where
  pub exec_seg_base : Option ℕ
  pub exec_seg_limit : Option ℕ
  pub exec_seg_flags : Option ℕ

abbrev pub no_exec_seg : ExecSeg
no_exec_seg = record { exec_seg_base = none; exec_seg_limit = none; exec_seg_flags = none }

unfoldable pub read_exec_seg_fields : Bytes → ℕ → Result (ExecSeg × ℕ)
read_exec_seg_fields data' offset = do
  (exec_seg_base, offset) ← gread_u64 scroll data' offset
  (exec_seg_limit, offset) ← gread_u64 scroll data' offset
  (exec_seg_flags, offset) ← gread_u64 scroll data' offset
  ok (
    record {
      exec_seg_base = some exec_seg_base;
      exec_seg_limit = some exec_seg_limit;
      exec_seg_flags = some exec_seg_flags;
    },
    offset,
  )

unfoldable pub read_exec_seg : ℕ → Bytes → ℕ → Result (ExecSeg × ℕ)
read_exec_seg version data' offset =
    if supports supports_executable_segment version
    then (assert (offset == 0x40) >> read_exec_seg_fields data' offset)
    else ok (no_exec_seg, offset)

pub record Runtime : Type 0 where
  pub runtime : Option ℕ
  pub pre_encrypt_offset : Option ℕ

abbrev pub no_runtime : Runtime
no_runtime = record { runtime = none; pre_encrypt_offset = none }

unfoldable pub read_runtime_fields : Bytes → ℕ → Result (Runtime × ℕ)
read_runtime_fields data' offset = do
  (runtime, offset) ← gread_u32 scroll data' offset
  (pre_encrypt_offset, offset) ← gread_u32 scroll data' offset
  ok (record { runtime = some runtime; pre_encrypt_offset = some pre_encrypt_offset }, offset)

unfoldable pub read_runtime : ℕ → Bytes → ℕ → Result (Runtime × ℕ)
read_runtime version data' offset =
    if supports supports_runtime version
    then (assert (offset == 0x58) >> read_runtime_fields data' offset)
    else ok (no_runtime, offset)

pub record Linkage : Type 0 where
  pub linkage_hash_type : Option ℕ
  pub linkage_truncated : Option ℕ
  pub spare4 : Option ℕ
  pub linkage_offset : Option ℕ
  pub linkage_size : Option ℕ

abbrev pub no_linkage : Linkage
no_linkage = record {
  linkage_hash_type = none;
  linkage_truncated = none;
  spare4 = none;
  linkage_offset = none;
  linkage_size = none;
}

unfoldable pub read_linkage_fields : Bytes → ℕ → Result (Linkage × ℕ)
read_linkage_fields data' offset = do
  (linkage_hash_type, offset) ← gread_u8 scroll data' offset
  (linkage_truncated, offset) ← gread_u8 scroll data' offset
  (spare4, offset) ← gread_u16 scroll data' offset
  (linkage_offset, offset) ← gread_u32 scroll data' offset
  (linkage_size, offset) ← gread_u32 scroll data' offset
  ok (
    record {
      linkage_hash_type = some linkage_hash_type;
      linkage_truncated = some linkage_truncated;
      spare4 = some spare4;
      linkage_offset = some linkage_offset;
      linkage_size = some linkage_size;
    },
    offset,
  )

unfoldable pub read_linkage : ℕ → Bytes → ℕ → Result (Linkage × ℕ)
read_linkage version data' offset =
    if supports supports_linkage version
    then (assert (offset == 0x60) >> read_linkage_fields data' offset)
    else ok (no_linkage, offset)
