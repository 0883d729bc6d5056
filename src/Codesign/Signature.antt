-- ===== src/Codesign/Signature.antt =====
-- The accessors of `EmbeddedSignature` of embedded_signature.rs that parse the blobs of a signature.
pub mod Preferred
pub mod Found
mod Tests
use apple_platform_rs.Base.{
  ℕ, String, Option, none, some, List, [], ◌∷◌, ok, err, ◌>>=◌, Bytes, ℕ_discrete,
}
use mathlib.Core.Logic.{ite}
use apple_platform_rs.Codesign.Error.{Result, bad_magic, binary_no_code_directory}
use apple_platform_rs.Codesign.DigestType
use apple_platform_rs.Codesign.DigestType.{DigestType}
use apple_platform_rs.Codesign.Blob.CodeSigningSlot
use apple_platform_rs.Codesign.Blob.CodeSigningSlot.{CodeSigningSlot}
use apple_platform_rs.Codesign.Blob.Header.{read_blob_header}
use apple_platform_rs.Codesign.Blob.SuperBlob.{EmbeddedSignature, BlobEntry, find_slot}
use apple_platform_rs.Codesign.RequirementSet.{RequirementSetBlob}
use apple_platform_rs.Codesign.CodeDirectory.Data.{CodeDirectoryBlob}
use apple_platform_rs.Codesign.BlobData
use apple_platform_rs.Codesign.BlobData.{BlobData}

pub record ParsedBlob : Type 0 where
  pub blob_entry : BlobEntry
  pub blob : BlobData

-- `BlobEntry::into_parsed_blob`
unfoldable pub into_parsed_blob : BlobEntry → Result ParsedBlob
into_parsed_blob entry = do
  blob ← BlobData.from_blob_bytes entry.bytes
  ok record { blob_entry = entry; blob = blob }

-- `find_slot(slot)`, if found parsed.
unfoldable pub parse_found : Option BlobEntry → Result (Option ParsedBlob)
parse_found none = ok none
parse_found (some entry) = into_parsed_blob entry >>= λ parsed. ok (some parsed)

unfoldable pub find_slot_parsed : EmbeddedSignature → CodeSigningSlot → Result (Option ParsedBlob)
find_slot_parsed signature slot = parse_found (find_slot signature slot)

-- `if let BlobData::CodeDirectory(cd) = parsed.blob { .. } else { Err(..) }`, and the same of others.
unfoldable pub as_code_directory : String → BlobData → Result CodeDirectoryBlob
as_code_directory what (BlobData.code_directory cd) = ok cd
as_code_directory what _ = err (bad_magic what)

unfoldable pub as_entitlements : String → BlobData → Result Bytes
as_entitlements what (BlobData.entitlements plist) = ok plist
as_entitlements what _ = err (bad_magic what)

unfoldable pub as_entitlements_der : String → BlobData → Result Bytes
as_entitlements_der what (BlobData.entitlements_der der) = ok der
as_entitlements_der what _ = err (bad_magic what)

unfoldable pub as_requirement_set : String → BlobData → Result RequirementSetBlob
as_requirement_set what (BlobData.requirement_set requirements) = ok requirements
as_requirement_set what _ = err (bad_magic what)

unfoldable pub as_constraints_der : String → BlobData → Result Bytes
as_constraints_der what (BlobData.constraints_der der) = ok der
as_constraints_der what _ = err (bad_magic what)

-- What is in a slot, if the slot is there.
unfoldable pub take_slot {ℓ} :
    {A : Type ℓ} → (BlobData → Result A) → Option ParsedBlob → Result (Option A)
take_slot view none = ok none
take_slot view (some parsed) = view parsed.blob >>= λ a. ok (some a)

unfoldable pub in_slot {ℓ} :
    {A : Type ℓ} → EmbeddedSignature → CodeSigningSlot → (BlobData → Result A) → Result (Option A)
in_slot signature slot view = find_slot_parsed signature slot >>= take_slot view

module _ (signature : EmbeddedSignature) where
  unfoldable pub code_directory : Result (Option CodeDirectoryBlob)
  code_directory =
      in_slot signature CodeSigningSlot.code_directory (as_code_directory "code directory blob")

  unfoldable pub entitlements : Result (Option Bytes)
  entitlements =
      in_slot signature CodeSigningSlot.entitlements (as_entitlements "entitlements blob")

  unfoldable pub entitlements_der : Result (Option Bytes)
  entitlements_der =
      in_slot signature CodeSigningSlot.entitlements_der
        (as_entitlements_der "DER entitlements blob")

  unfoldable pub code_requirements : Result (Option RequirementSetBlob)
  code_requirements =
      in_slot signature CodeSigningSlot.requirement_set (as_requirement_set "requirements blob")

  unfoldable pub launch_constraints_self : Result (Option Bytes)
  launch_constraints_self =
      in_slot signature CodeSigningSlot.launch_constraints_self
        (as_constraints_der "self launch constraints blob")

  unfoldable pub launch_constraints_parent : Result (Option Bytes)
  launch_constraints_parent =
      in_slot signature CodeSigningSlot.launch_constraints_parent
        (as_constraints_der "parent launch constraints blob")

  unfoldable pub launch_constraints_responsible : Result (Option Bytes)
  launch_constraints_responsible =
      in_slot signature CodeSigningSlot.launch_constraints_responsible_process
        (as_constraints_der "responsible process launch constraints blob")

  unfoldable pub library_constraints : Result (Option Bytes)
  library_constraints =
      in_slot signature CodeSigningSlot.library_constraints
        (as_constraints_der "library constraints blob")

-- `BlobEntry::payload`
unfoldable pub payload : BlobEntry → Result Bytes
payload entry = do (_, _, bytes) ← read_blob_header entry.bytes; ok bytes

-- The blob is parsed to validate it.
unfoldable pub validated_payload : Option BlobEntry → Result (Option Bytes)
validated_payload none = ok none
validated_payload (some entry) = do
  _ ← into_parsed_blob entry
  bytes ← payload entry
  ok (some bytes)

unfoldable pub signature_data : EmbeddedSignature → Result (Option Bytes)
signature_data signature = validated_payload (find_slot signature CodeSigningSlot.signature)

-- `parse_ber` is `SignedData::parse_ber`. Empty data is no signature.
unfoldable pub parse_signed : {S : Type 0} → (Bytes → Result S) → Option Bytes → Result (Option S)
parse_signed parse_ber none = ok none
parse_signed parse_ber (some []) = ok none
parse_signed parse_ber (some (b ∷ bytes)) = parse_ber (b ∷ bytes) >>= λ s. ok (some s)

unfoldable pub signed_data :
    {S : Type 0} → (Bytes → Result S) → EmbeddedSignature → Result (Option S)
signed_data parse_ber signature = signature_data signature >>= parse_signed parse_ber

abbrev pub Directories : Type 0
Directories = List (CodeSigningSlot × CodeDirectoryBlob)

-- `res.push((slot, cd))` in front of what is pushed later.
unfoldable pub push_found : CodeSigningSlot → Option CodeDirectoryBlob → Directories → Directories
push_found slot (some cd) rest = (slot, cd) ∷ rest
push_found slot none rest = rest

abbrev pub alternate_slots : List CodeSigningSlot
alternate_slots =
    CodeSigningSlot.alternate_code_directory0 ∷ CodeSigningSlot.alternate_code_directory1
    ∷ CodeSigningSlot.alternate_code_directory2 ∷ CodeSigningSlot.alternate_code_directory3
    ∷ CodeSigningSlot.alternate_code_directory4 ∷ []

-- The loop over the slots.
unfoldable pub directories_in : EmbeddedSignature → List CodeSigningSlot → Result Directories
directories_in signature [] = ok []
directories_in signature (slot ∷ slots) = do
  found ←
      in_slot signature slot
        (as_code_directory "wrong blob magic in alternative code directory slot")
  rest ← directories_in signature slots
  ok (push_found slot found rest)

pub DigestType-discrete : Discrete DigestType
DigestType-discrete = hlevel ℕ_discrete

-- The loop over the code directories.
unfoldable pub find_digest : DigestType → Directories → Option CodeDirectoryBlob
find_digest digest [] = none
find_digest digest ((slot, cd) ∷ rest) =
    let found = find_digest digest rest in
    ite (DigestType-discrete cd.digest_type digest) (some cd) found

-- `if let Some(cd) = .. { Ok(cd) } else ..`
abbrev pub or_else {ℓ} : {A : Type ℓ} → Option A → Result A → Result A
or_else (some a) next = ok a
or_else none next = next

module _ (signature : EmbeddedSignature) where
  unfoldable pub alternate_code_directories : Result Directories
  alternate_code_directories = directories_in signature alternate_slots

  unfoldable pub all_code_directories : Result Directories
  all_code_directories = do
    primary ← code_directory signature
    alternates ← alternate_code_directories
    ok (push_found CodeSigningSlot.code_directory primary alternates)

  unfoldable pub code_directory_for_digest : DigestType → Result (Option CodeDirectoryBlob)
  code_directory_for_digest digest = do
    directories ← all_code_directories
    ok (find_digest digest directories)

  unfoldable pub preferred_code_directory : Result CodeDirectoryBlob
  preferred_code_directory = do
    sha256 ← code_directory_for_digest DigestType.sha256
    or_else sha256 (
        code_directory_for_digest DigestType.sha1 >>= λ sha1.
        or_else sha1
          (code_directory signature >>= λ primary. or_else primary (err binary_no_code_directory)))
