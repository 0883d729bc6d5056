-- ===== src/Codesign/CodeDirectory/Serialize.antt =====
-- `serialize_payload` of `CodeDirectoryBlob` in code_directory.rs. A cursor that writes at its end is
-- the bytes written so far, and u32 arithmetic wraps.
use apple_platform_rs.Base.{
  ℕ, zero, suc, ◌+◌, ◌-◌, ◌/◌, ◌%◌, ◌^◌, Bool, ◌&&◌, Option, none, some, List, [], ◌∷◌, ◌++◌, leb,
  ◌==◌, if◌then◌else◌, ok, ◌>>=◌, ◌>>◌, guard, assert, Bytes, length, take, drop, replicate,
  u32_bytes, u64_bytes, not,
}
use apple_platform_rs.Base.Gread.{u8_bytes, u16_bytes}
use apple_platform_rs.Codesign.Error.{Result, unimplemented}
use apple_platform_rs.Codesign.DigestType
use apple_platform_rs.Codesign.Blob.CodeSigningMagic
use apple_platform_rs.Codesign.Blob.CodeSigningSlot
use apple_platform_rs.Codesign.Blob.CodeSigningSlot.{is_code_directory_specials_expressible}
use apple_platform_rs.Codesign.Blob.Header
use apple_platform_rs.Codesign.CodeDirectory.Data
use apple_platform_rs.Codesign.CodeDirectory.Data.{
  CodeDirectoryVersion, CodeDirectoryBlob, Digest, SlotDigests, supports_scatter, supports_team_id,
  supports_code_limit64, supports_executable_segment, supports_runtime, supports_linkage,
}
use apple_platform_rs.Codesign.CodeDirectory.Slots.{get, highest_slot}
use apple_platform_rs.Codesign.CodeDirectory.Version.{is_some}

-- `version >= since as u32`
unfoldable pub supports : CodeDirectoryVersion → ℕ → Bool
supports since version = leb (Data.to_u32 since) version

-- `Option::unwrap_or(0)`
abbrev pub or_zero : Option ℕ → ℕ
or_zero (some n) = n
or_zero none = 0

-- `u32::trailing_zeros`, on the number of bits left to look at.
unfoldable pub trailing_zeros : ℕ → ℕ → ℕ
trailing_zeros zero n = 0
trailing_zeros (suc bits) n =
    let rest = trailing_zeros bits (n / 2) in if n % 2 == 0 then suc rest else 0

-- `set_position` to a position of an earlier write, and a write there.
unfoldable pub write_at : ℕ → Bytes → Bytes → Bytes
write_at position bytes cursor =
    take position cursor ++ (bytes ++ drop (position + length bytes) cursor)

-- The counts and the sizes behind the two offsets.
unfoldable pub write_counts : CodeDirectoryBlob → Bytes
write_counts b =
    u32_bytes (highest_slot b.special_digests)
    ++ (u32_bytes (length b.code_digests)
        ++ (u32_bytes b.code_limit
            ++ (u8_bytes b.digest_size
                ++ (u8_bytes (DigestType.to_u8 b.digest_type)
                    ++ (u8_bytes b.platform ++ u8_bytes (trailing_zeros 32 b.page_size))))))

unfoldable pub linkage_fields : CodeDirectoryBlob → Bytes
linkage_fields b =
    u8_bytes (or_zero b.linkage_hash_type)
    ++ (u8_bytes (or_zero b.linkage_truncated)
        ++ (u16_bytes (or_zero b.spare4) ++ u32_bytes (or_zero b.linkage_offset)))

unfoldable pub write_linkage : CodeDirectoryBlob → Bytes → Result Bytes
write_linkage b cursor =
    if supports supports_linkage b.version
    then (let cursor = cursor ++ linkage_fields b in
        assert (length cursor == 0x60) >> ok (cursor ++ u32_bytes (or_zero b.linkage_size)))
    else ok cursor

unfoldable pub write_runtime : CodeDirectoryBlob → Bytes → Result Bytes
write_runtime b cursor =
    if supports supports_runtime b.version
    then (assert (length cursor == 0x50)
        >> write_linkage b
            (cursor ++ (u32_bytes (or_zero b.runtime) ++ u32_bytes (or_zero b.pre_encrypt_offset))))
    else ok cursor

unfoldable pub write_exec_seg : CodeDirectoryBlob → Bytes → Result Bytes
write_exec_seg b cursor =
    if supports supports_executable_segment b.version
    then (let cursor = cursor ++ u64_bytes (or_zero b.exec_seg_base) in
        assert (length cursor == 0x40)
        >> write_runtime b (
            cursor
            ++ (u64_bytes (or_zero b.exec_seg_limit) ++ u64_bytes (or_zero b.exec_seg_flags))))
    else ok cursor

unfoldable pub write_limit : CodeDirectoryBlob → Bytes → Result Bytes
write_limit b cursor =
    if supports supports_code_limit64 b.version
    then (let cursor = cursor ++ u32_bytes (or_zero b.spare3) in
        assert (length cursor == 0x30)
        >> write_exec_seg b (cursor ++ u64_bytes (or_zero b.code_limit_64)))
    else ok cursor

-- The fields from the team offset on, and the position of the team offset if it is written.
unfoldable pub write_team_field : CodeDirectoryBlob → Bytes → Result (Bytes × Option ℕ)
write_team_field b cursor =
    if supports supports_team_id b.version
    then (write_limit b (cursor ++ u32_bytes 0) >>= λ cursor'. ok (cursor', some (length cursor)))
    else ok (cursor, none)

-- The optional fields, and the positions of the scatter offset and of the team offset if written.
unfoldable pub write_optional : CodeDirectoryBlob → Bytes → Result (Bytes × Option ℕ × Option ℕ)
write_optional b cursor =
    if supports supports_scatter b.version
    then (write_team_field b (cursor ++ u32_bytes (or_zero b.scatter_offset))
        >>= λ (cursor', team_position). ok (cursor', some (length cursor), team_position))
    else ok (cursor, none, none)

-- A team name is written only where the version has a field for its offset.
unfoldable pub write_team : Option ℕ → Option Bytes → Bytes → Bytes
write_team (some _) (some team_name) cursor = cursor ++ (team_name ++ (0 ∷ []))
write_team (some _) none cursor = cursor
write_team none _ cursor = cursor

-- The bytes of a slot: its digest, or zeros.
unfoldable pub special_bytes : ℕ → Option Digest → Result Bytes
special_bytes digest_size (some digest) = assert (length digest == digest_size) >> ok digest
special_bytes digest_size none = ok (replicate digest_size 0)

-- The loop over the slots, from a slot down to slot 1.
unfoldable pub write_specials : ℕ → ℕ → SlotDigests → Bytes → Result Bytes
write_specials zero digest_size specials cursor = ok cursor
write_specials (suc n) digest_size specials cursor = do
  let slot = CodeSigningSlot.from_u32 (suc n)
  assert (is_code_directory_specials_expressible slot)
  bytes ← special_bytes digest_size (get slot specials)
  write_specials n digest_size specials (cursor ++ bytes)

unfoldable pub write_digests : List Digest → Bytes → Bytes
write_digests [] cursor = cursor
write_digests (digest ∷ digests) cursor = write_digests digests (cursor ++ digest)

unfoldable pub write_team_offset : Option ℕ → Option Bytes → ℕ → Bytes → Bytes
write_team_offset (some position) (some _) team_offset cursor =
    write_at position (u32_bytes (team_offset % 2 ^ 32 + 8)) cursor
write_team_offset (some _) none team_offset cursor = cursor
write_team_offset none _ team_offset cursor = cursor

-- The fields of every version, with 0 for the two offsets that are not known yet, and the positions
-- of these.
unfoldable pub write_head : CodeDirectoryBlob → Result (Bytes × ℕ × ℕ)
write_head b = do
  let cursor = u32_bytes b.version ++ u32_bytes b.flags
  let digest_offset_position = length cursor
  let cursor = cursor ++ u32_bytes 0
  let ident_offset_position = length cursor
  let cursor = cursor ++ u32_bytes 0
  assert (length cursor == 0x10)
  let cursor = cursor ++ write_counts b
  assert (length cursor == 0x20)
  ok (cursor ++ u32_bytes b.spare2, digest_offset_position, ident_offset_position)

-- The texts and the digests, and the offsets of the identifier, of the team name and of the code
-- digests in the payload.
unfoldable pub write_variable : CodeDirectoryBlob → Option ℕ → Bytes → Result (Bytes × ℕ × ℕ × ℕ)
write_variable b team_position cursor = do
  let identity_offset = length cursor
  let cursor = cursor ++ (b.ident ++ (0 ∷ []))
  let team_offset = length cursor
  let cursor = write_team team_position b.team_name cursor
  let highest = highest_slot b.special_digests
  cursor ← write_specials ((highest + 1) % 2 ^ 32 - 1) b.digest_size b.special_digests cursor
  let code_digests_start_offset = length cursor
  ok (write_digests b.code_digests cursor, identity_offset, team_offset, code_digests_start_offset)

unfoldable pub serialize_payload : CodeDirectoryBlob → Result Bytes
serialize_payload b = do
  (cursor, digest_offset_position, ident_offset_position) ← write_head b
  (cursor, scatter_position, team_position) ← write_optional b cursor
  (cursor, identity_offset, team_offset, code_digests_start_offset) ←
      write_variable b team_position cursor
  let cursor =
      write_at digest_offset_position (u32_bytes (code_digests_start_offset % 2 ^ 32 + 8)) cursor
  let cursor = write_at ident_offset_position (u32_bytes (identity_offset % 2 ^ 32 + 8)) cursor
  guard (not (is_some scatter_position && is_some b.scatter_offset))
      (unimplemented "scatter offset")
  ok (write_team_offset team_position b.team_name team_offset cursor)

-- `Blob::to_blob_bytes` of a code directory.
unfoldable pub to_blob_bytes : CodeDirectoryBlob → Result Bytes
to_blob_bytes b = do
  payload ← serialize_payload b
  ok (Header.to_blob_bytes (CodeSigningMagic.to_u32 CodeSigningMagic.code_directory) payload)
