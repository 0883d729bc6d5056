-- ===== src/Codesign/CodeDirectory/Tests.antt =====
-- Runs of code_directory.rs at concrete inputs.
use apple_platform_rs.Base.{
  ℕ, ◌≤◌, ◌≡◌, ◌⊎◌, refl, true, false, some, [], ◌∷◌, ok, err, ◌>>=◌, Bytes, arith, leb, All,
  if◌then◌else◌, ◌==◌,
}
use apple_platform_rs.Codesign.Target.{MachoTarget, Semver, mac_os}
use apple_platform_rs.Codesign.Error.{unimplemented}
use apple_platform_rs.Codesign.Blob.CodeSigningSlot
use apple_platform_rs.Codesign.Blob.CodeSigningSlot.{info, requirement_set, entitlements}
use apple_platform_rs.Codesign.CodeDirectory.Data
use apple_platform_rs.Codesign.CodeDirectory.Data.{CodeDirectoryBlob}
use apple_platform_rs.Codesign.CodeDirectory.Sample.{directory, specials_ok, directory-IsWritable}
use apple_platform_rs.Codesign.CodeDirectory.Version.{
  target_version, keep, adjust_version, clear_newer_fields,
}
use apple_platform_rs.Codesign.CodeDirectory.Version.Minimal.{
  required, adjust_version_covers, adjust_version_least,
}
use apple_platform_rs.Codesign.CodeDirectory.Slots.{slot_digest, set_slot_digest}
use apple_platform_rs.Codesign.CodeDirectory.Slots.Laws.{IsExpressible, set_slot_digest-ok}
use apple_platform_rs.Codesign.CodeDirectory.Serialize.{serialize_payload, to_blob_bytes}
use apple_platform_rs.Codesign.CodeDirectory.Parse.{from_blob_bytes}
use apple_platform_rs.Codesign.CodeDirectory.Slots.{insert}
use apple_platform_rs.Codesign.CodeDirectory.RoundTrip.{normalised}
use apple_platform_rs.Codesign.CodeDirectory.RoundTrip.Written.{
  has_scatter, serialize_payload_outcome,
}
use apple_platform_rs.Codesign.CodeDirectory.RoundTrip.ReadBack.{from_blob_bytes-to_blob_bytes}

-- The numbers of a version alone.
abbrev numbers : Semver ℕ
numbers = record { new = λ major minor patch. major; ge = λ v w. leb w v }

abbrev target : MachoTarget ℕ
target = record { platform = mac_os; minimum_os_version = 13; sdk_version = 13 }

from_blob_bytes-to_blob_bytes_example :
    (to_blob_bytes directory >>= from_blob_bytes) ≡ ok (normalised directory)
from_blob_bytes-to_blob_bytes_example = from_blob_bytes-to_blob_bytes directory directory-IsWritable

serialize_payload_outcome_example :
    ((has_scatter directory ≡ true)
      × (serialize_payload directory ≡ err (unimplemented "scatter offset")))
    ⊎ ((has_scatter directory ≡ false)
        × ((payload : Bytes) × (serialize_payload directory ≡ ok payload)))
serialize_payload_outcome_example = serialize_payload_outcome directory specials_ok

adjust_version_covers_example :
    let (b', old_version) = adjust_version numbers (some target) directory in
    (clear_newer_fields b' ≡ b')
    × (required numbers (some target) ≤ b'.version)
    × (old_version ≡ directory.version)
adjust_version_covers_example = adjust_version_covers numbers (some target) directory

adjust_version_least_example : (adjust_version numbers (some target) directory).0.version ≤ 0x20400
adjust_version_least_example =
    adjust_version_least numbers (some target) directory 0x20400 allowed kept
  where
    allowed : required numbers (some target) ≤ 0x20400
    allowed = unfold required target_version Data.to_u32 in omega arith

    kept :
        clear_newer_fields (record directory { version = 0x20400 })
        ≡ record directory { version = 0x20400 }
    kept = unfold clear_newer_fields keep Data.to_u32 in refl

abbrev changed : CodeDirectoryBlob
changed = record directory {
  special_digests = (info, 5 ∷ 6 ∷ []) ∷ (requirement_set, 9 ∷ 9 ∷ []) ∷ [];
}

set : set_slot_digest directory requirement_set (9 ∷ 9 ∷ []) ≡ ok changed
set =
    unfold set_slot_digest insert CodeSigningSlot.is_code_directory_specials_expressible
      CodeSigningSlot.le CodeSigningSlot.to_u32 in
    refl

set_slot_digest-ok_example :
    (All (IsExpressible changed.digest_size) changed.special_digests)
    × (slot_digest changed info ≡ (
        if CodeSigningSlot.to_u32 info == CodeSigningSlot.to_u32 requirement_set
        then some (9 ∷ 9 ∷ [])
        else slot_digest directory info))
set_slot_digest-ok_example =
    set_slot_digest-ok directory changed requirement_set info (9 ∷ 9 ∷ []) set specials_ok
