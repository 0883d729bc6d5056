-- ===== src/Codesign/CodeDirectory/Parse.antt =====
-- `from_blob_bytes` of `CodeDirectoryBlob` in code_directory.rs; u32 arithmetic wraps.
pub mod Fields
use apple_platform_rs.Base.{
  ℕ, zero, suc, ◌+◌, ◌-◌, ◌*◌, ◌%◌, ◌^◌, Option, none, some, List, [], ◌∷◌, ◌==◌, if◌then◌else◌,
  not, ok, err, ◌>>=◌, ◌>>◌, assert, Bytes, length, take, drop, slice, slice_from, is_utf8,
}
use apple_platform_rs.Base.Gread.{gread_u8, gread_u16, gread_u32, gread_u64}
use apple_platform_rs.Codesign.Error.{
  Error, Result, scroll, code_directory_malformed_identifier, code_directory_malformed_team,
}
use apple_platform_rs.Codesign.DigestType
use apple_platform_rs.Codesign.DigestType.{DigestType}
use apple_platform_rs.Codesign.Blob.CodeSigningMagic
use apple_platform_rs.Codesign.Blob.CodeSigningSlot
use apple_platform_rs.Codesign.Blob.CodeSigningSlot.{CodeSigningSlot}
use apple_platform_rs.Codesign.Blob.Header.{read_and_validate_blob_header}
use apple_platform_rs.Codesign.CodeDirectory.Data.{
  CodeDirectoryBlob, Digest, SlotDigests, supports_scatter, supports_team_id, supports_code_limit64,
  supports_executable_segment, supports_runtime, supports_linkage,
}
use apple_platform_rs.Codesign.CodeDirectory.Slots.{insert}
use apple_platform_rs.Codesign.CodeDirectory.Serialize.{supports}
pub use Fields.{
  Fixed, Limit, ExecSeg, Runtime, Linkage, no_limit, no_exec_seg, no_runtime, no_linkage,
}
unfoldable pub use apple_platform_rs.Codesign.CodeDirectory.Parse.Fields.{
  read_fixed, non_zero, read_scatter, read_team, read_limit_fields, read_limit,
  read_exec_seg_fields, read_exec_seg, read_runtime_fields, read_runtime, read_linkage_fields,
  read_linkage,
}

-- The first item of `split(|&b| b == 0)`.
unfoldable pub until_null : Bytes → Bytes
until_null [] = []
until_null (b ∷ bs) = let rest = until_null bs in if b == 0 then [] else b ∷ rest

-- The text that ends with a NULL byte at an offset.
unfoldable pub read_text : Error → Bytes → ℕ → Result Bytes
read_text e data' offset = do
  tail ← slice_from offset data'
  let text = until_null tail
  if is_utf8 text then ok text else err e

unfoldable pub read_team_name : Bytes → Option ℕ → Result (Option Bytes)
read_team_name data' none = ok none
read_team_name data' (some team_offset) =
    read_text code_directory_malformed_team data' team_offset >>= λ name. ok (some name)

-- `chunks(hash_size)`, with the length of the data as fuel.
unfoldable pub chunks : ℕ → ℕ → Bytes → List Digest
chunks zero hash_size data' = []
chunks (suc fuel) hash_size [] = []
chunks (suc fuel) hash_size (b ∷ data') =
    take hash_size (b ∷ data') ∷ chunks fuel hash_size (drop hash_size (b ∷ data'))

-- `chunks` panics on a size of 0.
unfoldable pub get_hashes : Bytes → ℕ → ℕ → ℕ → Result (List Digest)
get_hashes data' offset count hash_size = do
  hashes ← slice offset (offset + count * hash_size) data'
  assert (not (hash_size == 0))
  ok (chunks (length hashes) hash_size hashes)

-- `enumerate`, `map` to the slots that count down from `n_special_slots`, and `collect` to a map.
unfoldable pub collect_specials : ℕ → ℕ → List Digest → SlotDigests → SlotDigests
collect_specials n_special_slots i [] specials = specials
collect_specials n_special_slots i (digest ∷ digests) specials =
    collect_specials n_special_slots (i + 1) digests
      (insert (CodeSigningSlot.from_u32 (n_special_slots - i)) digest specials)

-- Where the special digests start, `digest_offset - digest_size as u32 * n_special_slots`.
unfoldable pub specials_offset : Fixed → ℕ
specials_offset fixed =
    (fixed.digest_offset + 2 ^ 32 - fixed.digest_size * fixed.n_special_slots % 2 ^ 32) % 2 ^ 32

unfoldable pub from_blob_bytes : Bytes → Result CodeDirectoryBlob
from_blob_bytes data' = do
  _ ←
      read_and_validate_blob_header data' (CodeSigningMagic.to_u32 CodeSigningMagic.code_directory)
        "code directory blob"
  (fixed, offset) ← read_fixed data'
  (scatter_offset, offset) ← read_scatter fixed.version data' offset
  (team_offset, offset) ← read_team fixed.version data' offset
  (limit, offset) ← read_limit fixed.version data' offset
  (exec_seg, offset) ← read_exec_seg fixed.version data' offset
  (runtime, offset) ← read_runtime fixed.version data' offset
  (linkage, offset) ← read_linkage fixed.version data' offset
  ident ← read_text code_directory_malformed_identifier data' fixed.ident_offset
  team_name ← read_team_name data' team_offset
  code_digests ← get_hashes data' fixed.digest_offset fixed.n_code_slots fixed.digest_size
  specials ← get_hashes data' (specials_offset fixed) fixed.n_special_slots fixed.digest_size
  ok record {
    version = fixed.version;
    flags = fixed.flags;
    code_limit = fixed.code_limit;
    digest_size = fixed.digest_size;
    digest_type = fixed.digest_type;
    platform = fixed.platform;
    page_size = fixed.page_size;
    spare2 = fixed.spare2;
    scatter_offset = scatter_offset;
    spare3 = limit.spare3;
    code_limit_64 = limit.code_limit_64;
    exec_seg_base = exec_seg.exec_seg_base;
    exec_seg_limit = exec_seg.exec_seg_limit;
    exec_seg_flags = exec_seg.exec_seg_flags;
    runtime = runtime.runtime;
    pre_encrypt_offset = runtime.pre_encrypt_offset;
    linkage_hash_type = linkage.linkage_hash_type;
    linkage_truncated = linkage.linkage_truncated;
    spare4 = linkage.spare4;
    linkage_offset = linkage.linkage_offset;
    linkage_size = linkage.linkage_size;
    ident = ident;
    team_name = team_name;
    code_digests = code_digests;
    special_digests = collect_specials fixed.n_special_slots 0 specials [];
  }
