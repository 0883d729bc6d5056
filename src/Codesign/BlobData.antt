-- ===== src/Codesign/BlobData.antt =====
-- The blob types of embedded_signature.rs and `BlobData`, which reads a blob by its magic.
pub mod RoundTrip
pub mod Capacity
use apple_platform_rs.Base.{
  ℕ, ◌≡◌, Bool, String, ok, err, ◌>>=◌, Bytes, slice, is_utf8, if◌then◌else◌,
}
use apple_platform_rs.Codesign.Error.{Result, entitlements_bad_utf8}
use apple_platform_rs.Codesign.Blob.CodeSigningMagic
use apple_platform_rs.Codesign.Blob.CodeSigningMagic.{CodeSigningMagic}
use apple_platform_rs.Codesign.Blob.Header
use apple_platform_rs.Codesign.Blob.Header.{read_blob_header, read_and_validate_blob_header}
use apple_platform_rs.Codesign.Requirement.Set.{
  requirement_from_blob_bytes, requirement_to_blob_bytes,
}
use apple_platform_rs.Codesign.RequirementSet
use apple_platform_rs.Codesign.RequirementSet.{RequirementSetBlob}
use apple_platform_rs.Codesign.CodeDirectory.Data.{CodeDirectoryBlob}
use apple_platform_rs.Codesign.CodeDirectory.Parse
use apple_platform_rs.Codesign.CodeDirectory.Serialize

-- `EmbeddedSignatureBlob`, `EmbeddedSignatureOldBlob`, `DetachedSignatureBlob`, `BlobWrapperBlob` and the
-- two DER blobs are their data behind the header.
unfoldable pub embedded_signature_from_blob_bytes : Bytes → Result Bytes
embedded_signature_from_blob_bytes data' =
    read_and_validate_blob_header data'
      (CodeSigningMagic.to_u32 CodeSigningMagic.embedded_signature) "embedded signature blob"

unfoldable pub embedded_signature_old_from_blob_bytes : Bytes → Result Bytes
embedded_signature_old_from_blob_bytes data' =
    read_and_validate_blob_header data'
      (CodeSigningMagic.to_u32 CodeSigningMagic.embedded_signature_old)
      "old embedded signature blob"

-- An `EntitlementsBlob` is a text.
unfoldable pub entitlements_from_blob_bytes : Bytes → Result Bytes
entitlements_from_blob_bytes data' = do
  plist ←
      read_and_validate_blob_header data' (CodeSigningMagic.to_u32 CodeSigningMagic.entitlements)
        "entitlements blob"
  if is_utf8 plist then ok plist else err entitlements_bad_utf8

unfoldable pub entitlements_der_from_blob_bytes : Bytes → Result Bytes
entitlements_der_from_blob_bytes data' =
    read_and_validate_blob_header data' (CodeSigningMagic.to_u32 CodeSigningMagic.entitlements_der)
      "DER entitlements blob"

unfoldable pub constraints_der_from_blob_bytes : Bytes → Result Bytes
constraints_der_from_blob_bytes data' =
    read_and_validate_blob_header data'
      (CodeSigningMagic.to_u32 CodeSigningMagic.environment_contraints_der)
      "DER encoded environment constraints blob"

unfoldable pub detached_signature_from_blob_bytes : Bytes → Result Bytes
detached_signature_from_blob_bytes data' =
    read_and_validate_blob_header data'
      (CodeSigningMagic.to_u32 CodeSigningMagic.detached_signature) "detached signature blob"

unfoldable pub blob_wrapper_from_blob_bytes : Bytes → Result Bytes
blob_wrapper_from_blob_bytes data' =
    read_and_validate_blob_header data' (CodeSigningMagic.to_u32 CodeSigningMagic.blob_wrapper)
      "blob wrapper blob"

pub record OtherBlob : Type 0 where
  pub magic : ℕ
  pub bytes : Bytes

unfoldable pub other_from_blob_bytes : Bytes → Result OtherBlob
other_from_blob_bytes data' = do
  (magic, _, payload) ← read_blob_header data'
  ok record { magic = magic; bytes = payload }

pub data BlobData : Type 0 where
  requirement : Bytes → BlobData
  requirement_set : RequirementSetBlob → BlobData
  code_directory : CodeDirectoryBlob → BlobData
  embedded_signature embedded_signature_old entitlements entitlements_der : Bytes → BlobData
  constraints_der detached_signature blob_wrapper : Bytes → BlobData
  other : OtherBlob → BlobData

-- The parser of a magic.
unfoldable pub parse_by_magic : CodeSigningMagic → Bytes → Result BlobData
parse_by_magic CodeSigningMagic.requirement data' =
    requirement_from_blob_bytes data' >>= λ b. ok (requirement b)
parse_by_magic CodeSigningMagic.requirement_set data' =
    RequirementSet.from_blob_bytes data' >>= λ b. ok (requirement_set b)
parse_by_magic CodeSigningMagic.code_directory data' =
    Parse.from_blob_bytes data' >>= λ b. ok (code_directory b)
parse_by_magic CodeSigningMagic.embedded_signature data' =
    embedded_signature_from_blob_bytes data' >>= λ b. ok (embedded_signature b)
parse_by_magic CodeSigningMagic.embedded_signature_old data' =
    embedded_signature_old_from_blob_bytes data' >>= λ b. ok (embedded_signature_old b)
parse_by_magic CodeSigningMagic.entitlements data' =
    entitlements_from_blob_bytes data' >>= λ b. ok (entitlements b)
parse_by_magic CodeSigningMagic.entitlements_der data' =
    entitlements_der_from_blob_bytes data' >>= λ b. ok (entitlements_der b)
parse_by_magic CodeSigningMagic.environment_contraints_der data' =
    constraints_der_from_blob_bytes data' >>= λ b. ok (constraints_der b)
parse_by_magic CodeSigningMagic.detached_signature data' =
    detached_signature_from_blob_bytes data' >>= λ b. ok (detached_signature b)
parse_by_magic CodeSigningMagic.blob_wrapper data' =
    blob_wrapper_from_blob_bytes data' >>= λ b. ok (blob_wrapper b)
parse_by_magic (CodeSigningMagic.unknown _) data' =
    other_from_blob_bytes data' >>= λ b. ok (other b)

-- The blob is cut to the length that its header states.
unfoldable pub from_blob_bytes : Bytes → Result BlobData
from_blob_bytes data' = do
  (magic, len, _) ← read_blob_header data'
  blob ← slice 0 len data'
  parse_by_magic (CodeSigningMagic.from_u32 magic) blob

unfoldable pub to_blob_bytes : BlobData → Result Bytes
to_blob_bytes (requirement b) = ok (requirement_to_blob_bytes b)
to_blob_bytes (requirement_set b) = ok (RequirementSet.to_blob_bytes b)
to_blob_bytes (code_directory b) = Serialize.to_blob_bytes b
to_blob_bytes (embedded_signature b) =
    ok (Header.to_blob_bytes (CodeSigningMagic.to_u32 CodeSigningMagic.embedded_signature) b)
to_blob_bytes (embedded_signature_old b) =
    ok (Header.to_blob_bytes (CodeSigningMagic.to_u32 CodeSigningMagic.embedded_signature_old) b)
to_blob_bytes (entitlements b) =
    ok (Header.to_blob_bytes (CodeSigningMagic.to_u32 CodeSigningMagic.entitlements) b)
to_blob_bytes (entitlements_der b) =
    ok (Header.to_blob_bytes (CodeSigningMagic.to_u32 CodeSigningMagic.entitlements_der) b)
to_blob_bytes (constraints_der b) =
    ok
      (Header.to_blob_bytes (CodeSigningMagic.to_u32 CodeSigningMagic.environment_contraints_der) b)
to_blob_bytes (detached_signature b) =
    ok (Header.to_blob_bytes (CodeSigningMagic.to_u32 CodeSigningMagic.detached_signature) b)
to_blob_bytes (blob_wrapper b) =
    ok (Header.to_blob_bytes (CodeSigningMagic.to_u32 CodeSigningMagic.blob_wrapper) b)
to_blob_bytes (other b) = ok (Header.to_blob_bytes b.magic b.bytes)
