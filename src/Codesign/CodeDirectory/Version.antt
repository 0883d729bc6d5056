-- ===== src/Codesign/CodeDirectory/Version.antt =====
-- `adjust_version` and `clear_newer_fields` of code_directory.rs.
pub mod Minimal
use apple_platform_rs.Base.{ℕ, Bool, true, false, ◌||◌, Option, none, some, leb, ltb, if◌then◌else◌}
use apple_platform_rs.Codesign.Target.{MachoTarget, Platform, Semver}
use apple_platform_rs.Codesign.CodeDirectory.Data
use apple_platform_rs.Codesign.CodeDirectory.Data.{
  CodeDirectoryVersion, CodeDirectoryBlob, initial, supports_scatter, supports_team_id,
  supports_code_limit64, supports_executable_segment, supports_runtime, supports_linkage,
}

-- `Option::is_some`
abbrev pub is_some {ℓ} : {A : Type ℓ} → Option A → Bool
is_some (some a) = true
is_some none = false

-- The conditions on the groups of fields that a version brought.
abbrev pub has_limit : CodeDirectoryBlob → Bool
has_limit b = is_some b.spare3 || is_some b.code_limit_64

abbrev pub has_exec_seg : CodeDirectoryBlob → Bool
has_exec_seg b = is_some b.exec_seg_base || is_some b.exec_seg_limit || is_some b.exec_seg_flags

abbrev pub has_runtime : CodeDirectoryBlob → Bool
has_runtime b = is_some b.runtime || is_some b.pre_encrypt_offset

abbrev pub has_linkage : CodeDirectoryBlob → Bool
has_linkage b =
    is_some b.linkage_hash_type
    || is_some b.linkage_truncated
    || is_some b.spare4
    || is_some b.linkage_offset
    || is_some b.linkage_size

-- The version that the fields set ask for: each later test overrides the earlier ones.
unfoldable pub fields_version : CodeDirectoryBlob → CodeDirectoryVersion
fields_version b =
    let v0 = initial in
    let v1 = if is_some b.scatter_offset then supports_scatter else v0 in
    let v2 = if is_some b.team_name then supports_team_id else v1 in
    let v3 = if has_limit b then supports_code_limit64 else v2 in
    let v4 = if has_exec_seg b then supports_executable_segment else v3 in
    let v5 = if has_runtime b then supports_runtime else v4 in
    if has_linkage b then supports_linkage else v5

module _ {V : Type 0} (semver : Semver V) where
  -- The version that the platform asks for.
  unfoldable pub target_version : MachoTarget V → CodeDirectoryVersion
  target_version target = elim target.platform [
    | Platform.i_os ↦ from_os 15
    | Platform.ios_simulator ↦ from_os 15
    | Platform.mac_os ↦ from_os 12
    | _ ↦ initial
  ]
    where
      from_os : ℕ → CodeDirectoryVersion
      from_os major =
          if semver.ge target.minimum_os_version (semver.new major 0 0)
          then supports_executable_segment
          else initial

  -- A target raises the version.
  unfoldable pub raised_version :
      Option (MachoTarget V) → CodeDirectoryVersion → CodeDirectoryVersion
  raised_version none minimum_version = minimum_version
  raised_version (some target) minimum_version =
      let target_minimum = target_version target in
      if ltb (Data.to_u32 minimum_version) (Data.to_u32 target_minimum)
      then target_minimum
      else minimum_version

  -- The blob with the version adjusted, and the old version.
  unfoldable pub adjust_version : Option (MachoTarget V) → CodeDirectoryBlob → CodeDirectoryBlob × ℕ
  adjust_version target b =
      (record b { version = Data.to_u32 (raised_version target (fields_version b)) }, b.version)

-- A field of a version is set to `None` below that version.
unfoldable pub keep {ℓ} : {A : Type ℓ} → ℕ → CodeDirectoryVersion → Option A → Option A
keep version since field = if ltb version (Data.to_u32 since) then none else field

unfoldable pub clear_newer_fields : CodeDirectoryBlob → CodeDirectoryBlob
clear_newer_fields b = record b {
  scatter_offset = keep b.version supports_scatter b.scatter_offset;
  team_name = keep b.version supports_team_id b.team_name;
  spare3 = keep b.version supports_code_limit64 b.spare3;
  code_limit_64 = keep b.version supports_code_limit64 b.code_limit_64;
  exec_seg_base = keep b.version supports_executable_segment b.exec_seg_base;
  exec_seg_limit = keep b.version supports_executable_segment b.exec_seg_limit;
  exec_seg_flags = keep b.version supports_executable_segment b.exec_seg_flags;
  runtime = keep b.version supports_runtime b.runtime;
  pre_encrypt_offset = keep b.version supports_runtime b.pre_encrypt_offset;
  linkage_hash_type = keep b.version supports_linkage b.linkage_hash_type;
  linkage_truncated = keep b.version supports_linkage b.linkage_truncated;
  spare4 = keep b.version supports_linkage b.spare4;
  linkage_offset = keep b.version supports_linkage b.linkage_offset;
  linkage_size = keep b.version supports_linkage b.linkage_size;
}
