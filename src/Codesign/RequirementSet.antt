-- ===== src/Codesign/RequirementSet.antt =====
-- `RequirementSetBlob` of embedded_signature.rs: requirements by type. A `HashMap` is the list of its
-- entries in the order in which it is iterated over, which no property depends on.
pub mod RoundTrip
use apple_platform_rs.Base.{
  ℕ, ◌+◌, ◌*◌, ◌%◌, ◌^◌, Option, none, some, List, [], ◌∷◌, ◌++◌, ok, err, ◌>>=◌, Bytes, length,
  u32_bytes, pread_u32, slice, ℕ_discrete,
}
use mathlib.Core.Logic.{ite}
use apple_platform_rs.Codesign.Error.{Result, scroll}
use apple_platform_rs.Codesign.Blob.CodeSigningMagic
use apple_platform_rs.Codesign.Blob.Header
use apple_platform_rs.Codesign.Blob.Header.{read_and_validate_blob_header}
use apple_platform_rs.Codesign.Blob.SuperBlob.{BlobIndex, read_indices, write_indices, end_of}
use apple_platform_rs.Codesign.Requirement.Chrono.{Chrono}
use apple_platform_rs.Codesign.Requirement.RequirementType
use apple_platform_rs.Codesign.Requirement.RequirementType.{RequirementType}
use apple_platform_rs.Codesign.Requirement.Set.{
  CodeRequirements, requirement_blob, requirement_from_blob_bytes, requirement_to_blob_bytes,
}

-- A `RequirementBlob` is its data.
abbrev pub RequirementSetBlob : Type 0
RequirementSetBlob = List (RequirementType × Bytes)

pub RequirementType-discrete : Discrete RequirementType
RequirementType-discrete = hlevel ℕ_discrete

-- `HashMap::insert`
unfoldable pub insert : RequirementType → Bytes → RequirementSetBlob → RequirementSetBlob
insert typ blob [] = (typ, blob) ∷ []
insert typ blob ((key, value) ∷ entries) =
    let rest = insert typ blob entries in
    ite (RequirementType-discrete key typ) ((key, blob) ∷ entries) ((key, value) ∷ rest)

-- `HashMap::get`
unfoldable pub get : RequirementType → RequirementSetBlob → Option Bytes
get typ [] = none
get typ ((key, value) ∷ entries) =
    let rest = get typ entries in ite (RequirementType-discrete key typ) (some value) rest

-- The loop over the indices. A requirement ends where the next one starts, the last one at the end
-- of the data.
unfoldable pub read_requirements :
    Bytes → List BlobIndex → RequirementSetBlob → Result RequirementSetBlob
read_requirements data' [] requirements = ok requirements
read_requirements data' (index ∷ indices) requirements = do
  requirement_data ← slice index.offset (end_of data' indices) data'
  blob ← requirement_from_blob_bytes requirement_data
  read_requirements data' indices (insert (RequirementType.from_u32 index.typ) blob requirements)

unfoldable pub from_blob_bytes : Bytes → Result RequirementSetBlob
from_blob_bytes data' = do
  _ ←
      read_and_validate_blob_header data' (CodeSigningMagic.to_u32 CodeSigningMagic.requirement_set)
        "requirement set blob"
  count ← pread_u32 scroll data' 8
  indices ← read_indices count 12 data'
  read_requirements data' indices []

-- The index of the requirements, from the bytes written before; the u32 sums wrap.
unfoldable pub requirement_indices : ℕ → ℕ → RequirementSetBlob → List BlobIndex
requirement_indices data_start_offset written [] = []
requirement_indices data_start_offset written ((typ, blob) ∷ entries) =
    record { typ = RequirementType.to_u32 typ; offset = (data_start_offset + written) % 2 ^ 32 }
    ∷ requirement_indices data_start_offset
        ((written + length (requirement_to_blob_bytes blob) % 2 ^ 32) % 2 ^ 32) entries

unfoldable pub write_requirements : RequirementSetBlob → Bytes
write_requirements [] = []
write_requirements ((typ, blob) ∷ entries) =
    requirement_to_blob_bytes blob ++ write_requirements entries

unfoldable pub serialize_payload : RequirementSetBlob → Bytes
serialize_payload requirements =
    let data_start_offset = (8 + 4 + 8 * (length requirements % 2 ^ 32)) % 2 ^ 32 in
    u32_bytes (length requirements)
    ++ (write_indices (requirement_indices data_start_offset 0 requirements)
        ++ write_requirements requirements)

unfoldable pub to_blob_bytes : RequirementSetBlob → Bytes
to_blob_bytes requirements =
    Header.to_blob_bytes (CodeSigningMagic.to_u32 CodeSigningMagic.requirement_set)
      (serialize_payload requirements)

unfoldable pub set_requirements : RequirementSetBlob → RequirementType → Bytes → RequirementSetBlob
set_requirements requirements slot blob = insert slot blob requirements

-- `CodeRequirements::add_to_requirement_set` of code_requirement.rs.
unfoldable pub add_to_requirement_set :
    {T : Type 0}
    → Chrono T
    → CodeRequirements T
    → RequirementSetBlob
    → RequirementType
    → RequirementSetBlob
add_to_requirement_set chrono es requirements slot =
    set_requirements requirements slot (requirement_blob chrono es)
