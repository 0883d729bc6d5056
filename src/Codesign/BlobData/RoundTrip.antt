-- ===== src/Codesign/BlobData/RoundTrip.antt =====
-- Round trip of `BlobData` of embedded_signature.rs.
use apple_platform_rs.Base.{
  ℕ, ◌+◌, ◌*◌, ◌≡◌, refl, sym, ap, ◌∙◌, true, ok, ◌>>=◌, Bytes, IsU32, length, All, arith, slice,
  slice-append, append-nil, [], is_utf8, String,
}
use apple_platform_rs.Codesign.Error.{Error}
use apple_platform_rs.Codesign.Blob.CodeSigningMagic
use apple_platform_rs.Codesign.Blob.CodeSigningMagic.{CodeSigningMagic}
use apple_platform_rs.Codesign.Blob.Header
use apple_platform_rs.Codesign.Blob.Header.{
  read_blob_header, read_and_validate_blob_header, read_blob_header-to_blob_bytes,
  read_and_validate-to_blob_bytes,
}
use apple_platform_rs.Codesign.Blob.SuperBlob.Entries.{length-to_blob_bytes}
use apple_platform_rs.Codesign.Requirement.Set.{
  requirement_from_blob_bytes, requirement_to_blob_bytes,
}
use apple_platform_rs.Codesign.RequirementSet
use apple_platform_rs.Codesign.RequirementSet.{RequirementSetBlob}
use apple_platform_rs.Codesign.CodeDirectory.Data.{CodeDirectoryBlob}
use apple_platform_rs.Codesign.RequirementSet.RoundTrip.{
  HasDistinctKeys, HasNumber, size, length-serialize_payload_set, from_blob_bytes-to_blob_bytes_set,
}
use apple_platform_rs.Codesign.CodeDirectory.Serialize
use apple_platform_rs.Codesign.CodeDirectory.RoundTrip.{IsWritable, normalised, layout}
use apple_platform_rs.Codesign.CodeDirectory.RoundTrip.Written.{serialize_payload-layout}
use apple_platform_rs.Codesign.CodeDirectory.Parse
use apple_platform_rs.Codesign.CodeDirectory.RoundTrip.ReadBack.{from_blob_bytes-to_blob_bytes}
use apple_platform_rs.Codesign.BlobData.{
  BlobData, requirement, requirement_set, code_directory, embedded_signature,
  embedded_signature_old, entitlements, entitlements_der, constraints_der, detached_signature,
  blob_wrapper, other, parse_by_magic, from_blob_bytes, to_blob_bytes,
  embedded_signature_from_blob_bytes, embedded_signature_old_from_blob_bytes,
  entitlements_from_blob_bytes, entitlements_der_from_blob_bytes, constraints_der_from_blob_bytes,
  detached_signature_from_blob_bytes, blob_wrapper_from_blob_bytes, other_from_blob_bytes,
}

-- A serialised blob is handed whole to the parser of its magic.
pub from_blob_bytes-by_magic :
    (magic : ℕ) (payload : Bytes)
    → IsU32 magic
    → IsU32 (length payload + 8)
    → from_blob_bytes (Header.to_blob_bytes magic payload)
      ≡ parse_by_magic (CodeSigningMagic.from_u32 magic) (Header.to_blob_bytes magic payload)
unfolding from_blob_bytes
from_blob_bytes-by_magic magic payload hm hl =
    rw (read_blob_header-to_blob_bytes magic payload hm hl, whole) refl
  where
    whole :
        slice {E = Error} 0 (length payload + 8) (Header.to_blob_bytes magic payload)
        ≡ ok (Header.to_blob_bytes magic payload)
    whole =
        ap (λ bytes. slice {E = Error} 0 (length payload + 8) bytes) (sym (append-nil _))
        ∙ slice-append {E = Error} 0 (length payload + 8) [] (Header.to_blob_bytes magic payload) []
            refl (omega (arith, length-to_blob_bytes magic payload))

-- What a blob of a kind needs to be written and read back.
abbrev pub IsFormed : BlobData → Type 0
IsFormed (requirement_set b) =
    HasDistinctKeys b × All HasNumber b × IsU32 (12 + 8 * length b + size b)
IsFormed (code_directory b) = IsWritable b
IsFormed (entitlements b) = IsU32 (length b + 8) × (is_utf8 b ≡ true)
IsFormed (other b) =
    IsU32 b.magic
    × IsU32 (length b.bytes + 8)
    × (CodeSigningMagic.from_u32 b.magic ≡ CodeSigningMagic.unknown b.magic)
IsFormed (requirement b) = IsU32 (length b + 8)
IsFormed (embedded_signature b) = IsU32 (length b + 8)
IsFormed (embedded_signature_old b) = IsU32 (length b + 8)
IsFormed (entitlements_der b) = IsU32 (length b + 8)
IsFormed (constraints_der b) = IsU32 (length b + 8)
IsFormed (detached_signature b) = IsU32 (length b + 8)
IsFormed (blob_wrapper b) = IsU32 (length b + 8)

-- What is read back.
abbrev pub normal : BlobData → BlobData
normal (code_directory b) = code_directory (normalised b)
normal b = b

-- A blob that is the data behind its header.
read_plain :
    (magic : CodeSigningMagic) (what : String) (wrap : Bytes → BlobData) (b : Bytes)
    → IsU32 (CodeSigningMagic.to_u32 magic)
    → IsU32 (length b + 8)
    → ((data' : Bytes)
        → parse_by_magic (CodeSigningMagic.from_u32 (CodeSigningMagic.to_u32 magic)) data' ≡ (
            read_and_validate_blob_header data' (CodeSigningMagic.to_u32 magic) what >>= λ payload.
            ok (wrap payload)))
    → from_blob_bytes (Header.to_blob_bytes (CodeSigningMagic.to_u32 magic) b) ≡ ok (wrap b)
read_plain magic what wrap b hm hl parse =
    from_blob_bytes-by_magic (CodeSigningMagic.to_u32 magic) b hm hl
    ∙ parse _
    ∙ rw (read_and_validate-to_blob_bytes (CodeSigningMagic.to_u32 magic) b what hm) refl

code_directory_read :
    (b : CodeDirectoryBlob)
    → IsWritable b
    → (Serialize.to_blob_bytes b >>= from_blob_bytes) ≡ ok (code_directory (normalised b))
code_directory_read b w = rw (written) (
    from_blob_bytes-by_magic magic (layout b) (unfold CodeSigningMagic.to_u32 in omega arith) w.fits
    ∙ unfold CodeSigningMagic.from_u32 CodeSigningMagic.to_u32 parse_by_magic in rw parsed refl)
  where
    magic : ℕ
    magic = CodeSigningMagic.to_u32 CodeSigningMagic.code_directory

    written : Serialize.to_blob_bytes b ≡ ok (Header.to_blob_bytes magic (layout b))
    written = unfold Serialize.to_blob_bytes in rw (serialize_payload-layout b w) refl

    parsed : Parse.from_blob_bytes (Header.to_blob_bytes magic (layout b)) ≡ ok (normalised b)
    parsed = ap (λ r. r >>= Parse.from_blob_bytes) (sym written) ∙ from_blob_bytes-to_blob_bytes b w

requirement_set_read :
    (b : RequirementSetBlob)
    → HasDistinctKeys b
    → All HasNumber b
    → IsU32 (12 + 8 * length b + size b)
    → from_blob_bytes (RequirementSet.to_blob_bytes b) ≡ ok (requirement_set b)
requirement_set_read b d n fits =
    unfold RequirementSet.to_blob_bytes in
    from_blob_bytes-by_magic magic payload (unfold CodeSigningMagic.to_u32 in omega arith) short
    ∙ unfold CodeSigningMagic.from_u32 CodeSigningMagic.to_u32 parse_by_magic
        RequirementSet.to_blob_bytes in
      rw (from_blob_bytes-to_blob_bytes_set b d n fits) refl
  where
    magic : ℕ
    magic = CodeSigningMagic.to_u32 CodeSigningMagic.requirement_set

    payload : Bytes
    payload = RequirementSet.serialize_payload b

    short : IsU32 (length payload + 8)
    short = omega (arith, length-serialize_payload_set b fits)

-- A blob of every kind that is serialised is read back as the same blob of the same kind, a code
-- directory in its normal form, provided the length fits 32 bits, entitlements are UTF-8, an
-- unknown kind has no known magic, and requirement sets and code directories can be written and
-- read back.
pub from_blob_bytes-to_blob_bytes_data :
    (b : BlobData) → IsFormed b → (to_blob_bytes b >>= from_blob_bytes) ≡ ok (normal b)
unfolding to_blob_bytes
from_blob_bytes-to_blob_bytes_data (requirement_set b) f = requirement_set_read b f.0 f.1 f.2
from_blob_bytes-to_blob_bytes_data (code_directory b) f = code_directory_read b f
from_blob_bytes-to_blob_bytes_data (entitlements b) f =
    from_blob_bytes-by_magic (CodeSigningMagic.to_u32 CodeSigningMagic.entitlements) b
      (unfold CodeSigningMagic.to_u32 in omega arith) f.0
    ∙ unfold CodeSigningMagic.from_u32 CodeSigningMagic.to_u32 parse_by_magic
        entitlements_from_blob_bytes in
      rw (read_and_validate-to_blob_bytes 0xfade7171 b "entitlements blob" (omega arith), f.1) refl
from_blob_bytes-to_blob_bytes_data (other b) f =
    from_blob_bytes-by_magic b.magic b.bytes f.0 f.1
    ∙ unfold parse_by_magic other_from_blob_bytes in
      rw (f.2, read_blob_header-to_blob_bytes b.magic b.bytes f.0 f.1) refl
from_blob_bytes-to_blob_bytes_data (requirement b) f =
    unfold requirement_to_blob_bytes in
    read_plain CodeSigningMagic.requirement "requirement blob" requirement b
      (unfold CodeSigningMagic.to_u32 in omega arith) f
      (λ data'.
        unfold parse_by_magic CodeSigningMagic.from_u32 CodeSigningMagic.to_u32
          requirement_from_blob_bytes in
        refl)
from_blob_bytes-to_blob_bytes_data (embedded_signature b) f =
    read_plain CodeSigningMagic.embedded_signature "embedded signature blob" embedded_signature b
      (unfold CodeSigningMagic.to_u32 in omega arith) f
      (λ data'.
        unfold parse_by_magic CodeSigningMagic.from_u32 CodeSigningMagic.to_u32
          embedded_signature_from_blob_bytes in
        refl)
from_blob_bytes-to_blob_bytes_data (embedded_signature_old b) f =
    read_plain CodeSigningMagic.embedded_signature_old "old embedded signature blob"
      embedded_signature_old b (unfold CodeSigningMagic.to_u32 in omega arith) f
      (λ data'.
        unfold parse_by_magic CodeSigningMagic.from_u32 CodeSigningMagic.to_u32
          embedded_signature_old_from_blob_bytes in
        refl)
from_blob_bytes-to_blob_bytes_data (entitlements_der b) f =
    read_plain CodeSigningMagic.entitlements_der "DER entitlements blob" entitlements_der b
      (unfold CodeSigningMagic.to_u32 in omega arith) f
      (λ data'.
        unfold parse_by_magic CodeSigningMagic.from_u32 CodeSigningMagic.to_u32
          entitlements_der_from_blob_bytes in
        refl)
from_blob_bytes-to_blob_bytes_data (constraints_der b) f =
    read_plain CodeSigningMagic.environment_contraints_der
      "DER encoded environment constraints blob" constraints_der b
      (unfold CodeSigningMagic.to_u32 in omega arith) f
      (λ data'.
        unfold parse_by_magic CodeSigningMagic.from_u32 CodeSigningMagic.to_u32
          constraints_der_from_blob_bytes in
        refl)
from_blob_bytes-to_blob_bytes_data (detached_signature b) f =
    read_plain CodeSigningMagic.detached_signature "detached signature blob" detached_signature b
      (unfold CodeSigningMagic.to_u32 in omega arith) f
      (λ data'.
        unfold parse_by_magic CodeSigningMagic.from_u32 CodeSigningMagic.to_u32
          detached_signature_from_blob_bytes in
        refl)
from_blob_bytes-to_blob_bytes_data (blob_wrapper b) f =
    read_plain CodeSigningMagic.blob_wrapper "blob wrapper blob" blob_wrapper b
      (unfold CodeSigningMagic.to_u32 in omega arith) f
      (λ data'.
        unfold parse_by_magic CodeSigningMagic.from_u32 CodeSigningMagic.to_u32
          blob_wrapper_from_blob_bytes in
        refl)
