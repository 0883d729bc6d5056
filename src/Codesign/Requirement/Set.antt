-- ===== src/Codesign/Requirement/Set.antt =====
-- `CodeRequirements` of code_requirement.rs and `RequirementBlob` of embedded_signature.rs: the list of
-- expressions, counted, and the blob around it.
pub mod RoundTrip
pub mod Reads
use apple_platform_rs.Base.{
  ℕ, zero, suc, ◌+◌, ◌%◌, ◌^◌, ◌≡◌, ◌≢◌, List, [], ◌∷◌, ◌++◌, String, ok, err, panic, stuck, ◌>>=◌,
  Bytes, length, u32_bytes, pread_u32, slice_from,
}
use apple_platform_rs.Codesign.Error.{Error, Result, scroll, requirement_malformed}
use apple_platform_rs.Codesign.Blob.CodeSigningMagic
use apple_platform_rs.Codesign.Blob.Header.{read_and_validate_blob_header, to_blob_bytes}
use apple_platform_rs.Codesign.Requirement.Chrono.{Chrono}
use apple_platform_rs.Codesign.Requirement.Syntax.{CodeRequirementExpression}
use apple_platform_rs.Codesign.Requirement.Expression

abbrev pub CodeRequirements : Type 0 → Type 0
CodeRequirements T = List (CodeRequirementExpression T)

-- `Result::map_err`
abbrev pub map_err {ℓ} : {A : Type ℓ} → Error → Result A → Result A
map_err e (ok a) = ok a
map_err e (err _) = err e
map_err e panic = panic
map_err e stuck = stuck

module _ {T : Type 0} (chrono : Chrono T) where
  -- The loop of `parse_binary` over `0..count`.
  unfoldable pub parse_elements : ℕ → Bytes → Result (CodeRequirements T × Bytes)
  parse_elements zero data' = ok ([], data')
  parse_elements (suc count) data' = do
    (e, rest) ← Expression.from_bytes chrono data'
    (es, rest') ← parse_elements count rest
    ok (e ∷ es, rest')

  unfoldable pub parse_binary : Bytes → Result (CodeRequirements T × Bytes)
  parse_binary data' = do
    count ← pread_u32 scroll data' 0
    elements ← slice_from 4 data'
    parse_elements count elements

  unfoldable pub parse_blob : Bytes → Result (CodeRequirements T × Bytes)
  parse_blob data' = do
    payload ← map_err (requirement_malformed "blob header") (
        read_and_validate_blob_header data' (CodeSigningMagic.to_u32 CodeSigningMagic.requirement)
          "code requirement blob")
    parse_binary payload

  unfoldable pub write_elements : CodeRequirements T → Bytes
  write_elements [] = []
  write_elements (e ∷ es) = Expression.write_to chrono e ++ write_elements es

  unfoldable pub write_to : CodeRequirements T → Bytes
  write_to es = u32_bytes (length es) ++ write_elements es

  -- `capacity n` is the capacity of a `Vec<u8>` made by `with_capacity(n)`, which the length field of
  -- the header is taken from.
  unfoldable pub to_blob_data : (ℕ → ℕ) → CodeRequirements T → Bytes
  to_blob_data capacity es =
      let payload = write_to es in
      u32_bytes (CodeSigningMagic.to_u32 CodeSigningMagic.requirement)
      ++ (u32_bytes (capacity (length payload + 8)) ++ payload)

  -- `RequirementBlob::try_from(&CodeRequirements)`, the data of the blob.
  unfoldable pub requirement_blob : CodeRequirements T → Bytes
  requirement_blob es = write_to es

  -- `RequirementBlob::parse_expressions`
  unfoldable pub parse_expressions : Bytes → Result (CodeRequirements T)
  parse_expressions blob = do (es, _) ← parse_binary blob; ok es

-- `RequirementBlob::from_blob_bytes` and `to_blob_bytes`.
unfoldable pub requirement_from_blob_bytes : Bytes → Result Bytes
requirement_from_blob_bytes data' =
    read_and_validate_blob_header data' (CodeSigningMagic.to_u32 CodeSigningMagic.requirement)
      "requirement blob"

unfoldable pub requirement_to_blob_bytes : Bytes → Bytes
requirement_to_blob_bytes blob =
    to_blob_bytes (CodeSigningMagic.to_u32 CodeSigningMagic.requirement) blob
