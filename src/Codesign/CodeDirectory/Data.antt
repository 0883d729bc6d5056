-- ===== src/Codesign/CodeDirectory/Data.antt =====
-- The data types of code_directory.rs. Flags are their bits, a digest is its bytes and a text is the
-- list of its UTF-8 bytes.
use apple_platform_rs.Base.{ℕ, List, Option, Bytes}
use apple_platform_rs.Codesign.Blob.CodeSigningSlot.{CodeSigningSlot}
use apple_platform_rs.Codesign.DigestType.{DigestType}

pub data CodeDirectoryVersion : Type 0 where
  initial supports_scatter supports_team_id supports_code_limit64 : CodeDirectoryVersion
  supports_executable_segment supports_runtime supports_linkage : CodeDirectoryVersion

-- `as u32`
unfoldable pub to_u32 : CodeDirectoryVersion → ℕ
to_u32 initial = 0x20000
to_u32 supports_scatter = 0x20100
to_u32 supports_team_id = 0x20200
to_u32 supports_code_limit64 = 0x20300
to_u32 supports_executable_segment = 0x20400
to_u32 supports_runtime = 0x20500
to_u32 supports_linkage = 0x20600

abbrev pub Digest : Type 0
Digest = Bytes

-- A `BTreeMap<CodeSigningSlot, Digest>`, by ascending numbers of the slots.
abbrev pub SlotDigests : Type 0
SlotDigests = List (CodeSigningSlot × Digest)

pub record CodeDirectoryBlob : Type 0 where
  pub version : ℕ
  pub flags : ℕ
  pub code_limit : ℕ
  pub digest_size : ℕ
  pub digest_type : DigestType
  pub platform : ℕ
  pub page_size : ℕ
  pub spare2 : ℕ
  pub scatter_offset : Option ℕ
  pub spare3 : Option ℕ
  pub code_limit_64 : Option ℕ
  pub exec_seg_base : Option ℕ
  pub exec_seg_limit : Option ℕ
  pub exec_seg_flags : Option ℕ
  pub runtime : Option ℕ
  pub pre_encrypt_offset : Option ℕ
  pub linkage_hash_type : Option ℕ
  pub linkage_truncated : Option ℕ
  pub spare4 : Option ℕ
  pub linkage_offset : Option ℕ
  pub linkage_size : Option ℕ
  pub ident : Bytes
  pub team_name : Option Bytes
  pub code_digests : List Digest
  pub special_digests : SlotDigests
