-- ===== src/Codesign/Builder.antt =====
-- `EmbeddedSignatureBuilder` of embedded_signature_builder.rs.
pub mod Ascending
pub mod Sealed
pub mod Consistent
pub mod Steps
pub mod Turns
pub mod Alternative
pub mod Stapling
mod Tests
use apple_platform_rs.Base.{
  ℕ, ◌+◌, Bool, true, false, not, Option, none, some, List, [], ◌∷◌, ok, err, panic, ◌>>=◌, ◌>>◌,
  guard, if◌then◌else◌, Bytes, take, ◌==◌, ◌||◌,
}
use apple_platform_rs.Codesign.Error.{Result, signature_builder}
use apple_platform_rs.Codesign.DigestType
use apple_platform_rs.Codesign.DigestType.{DigestType, Algorithm, Hasher, digest_data}
use apple_platform_rs.Codesign.Blob.CodeSigningMagic
use apple_platform_rs.Codesign.Blob.CodeSigningSlot
use apple_platform_rs.Codesign.Blob.CodeSigningSlot.{
  CodeSigningSlot, is_code_directory_specials_expressible, is_alternative_code_directory,
}
use apple_platform_rs.Codesign.Blob.SuperBlob
use apple_platform_rs.Codesign.Blob.SuperBlob.{EmbeddedSignature, BlobEntry}
use apple_platform_rs.Codesign.CodeDirectory.Data.{CodeDirectoryBlob}
use apple_platform_rs.Codesign.CodeDirectory.Slots.{insert, get, set_slot_digest}
use apple_platform_rs.Codesign.CodeDirectory.Serialize
use apple_platform_rs.Codesign.BlobData
use apple_platform_rs.Codesign.BlobData.{BlobData}
use apple_platform_rs.Codesign.Signature.{into_parsed_blob}

pub data BlobsState : Type 0 where
  empty special_added code_directory_added signature_added ticket_added : BlobsState

-- `BTreeMap<CodeSigningSlot, BlobData>`
abbrev pub Blobs : Type 0
Blobs = List (CodeSigningSlot × BlobData)

pub record EmbeddedSignatureBuilder : Type 0 where
  pub state : BlobsState
  pub blobs : Blobs

unfoldable pub default : EmbeddedSignatureBuilder
default = record { state = empty; blobs = [] }

-- The entries are parsed in order into the map.
unfoldable pub collect_parsed : Blobs → List BlobEntry → Result Blobs
collect_parsed blobs [] = ok blobs
collect_parsed blobs (entry ∷ entries) = do
  parsed ← into_parsed_blob entry
  collect_parsed (insert parsed.blob_entry.slot parsed.blob blobs) entries

unfoldable pub new_for_stapling : EmbeddedSignature → Result EmbeddedSignatureBuilder
new_for_stapling signature = do
  blobs ← collect_parsed [] signature.blobs
  ok record { state = code_directory_added; blobs = blobs }

-- What else is in the slot of the code directory is a panic.
unfoldable pub expect_code_directory : Option BlobData → Result (Option CodeDirectoryBlob)
expect_code_directory none = ok none
expect_code_directory (some (BlobData.code_directory cd)) = ok (some cd)
expect_code_directory (some _) = panic

unfoldable pub code_directory : EmbeddedSignatureBuilder → Result (Option CodeDirectoryBlob)
code_directory builder = expect_code_directory (get CodeSigningSlot.code_directory builder.blobs)

unfoldable pub accepts_blobs : BlobsState → Bool
accepts_blobs empty = true
accepts_blobs special_added = true
accepts_blobs _ = false

-- The kinds that `add_blob` refuses.
unfoldable pub is_reserved : BlobData → Bool
is_reserved (BlobData.code_directory _) = true
is_reserved (BlobData.embedded_signature _) = true
is_reserved (BlobData.embedded_signature_old _) = true
is_reserved _ = false

unfoldable pub add_blob :
    CodeSigningSlot → BlobData → EmbeddedSignatureBuilder → Result EmbeddedSignatureBuilder
add_blob slot blob builder = do
  guard (accepts_blobs builder.state)
      (signature_builder "cannot add blobs after code directory or signature is registered")
  guard (not (is_reserved blob))
      (signature_builder "cannot register code directory or signature blob via add_blob()")
  ok record { state = special_added; blobs = insert slot blob builder.blobs }

-- `matches!(self.state, BlobsState::SignatureAdded)`
unfoldable pub is_signature_added : BlobsState → Bool
is_signature_added signature_added = true
is_signature_added _ = false

-- `expect`
abbrev pub expect {ℓ} : {A : Type ℓ} → Option A → Result A
expect (some a) = ok a
expect none = panic

unfoldable pub register_code_directory :
    CodeSigningSlot → CodeDirectoryBlob → EmbeddedSignatureBuilder → EmbeddedSignatureBuilder
register_code_directory cd_slot cd builder = record {
  state = code_directory_added;
  blobs = insert cd_slot (BlobData.code_directory cd) builder.blobs;
}

-- `Ok(self.code_directory().expect(..))`
unfoldable pub with_primary :
    EmbeddedSignatureBuilder → Result (EmbeddedSignatureBuilder × CodeDirectoryBlob)
with_primary builder = do
  registered ← code_directory builder
  primary ← expect registered
  ok (builder, primary)

module _ (hasher : Hasher) where
  -- `Blob::digest_with`
  unfoldable pub digest_with : BlobData → DigestType → Result Bytes
  digest_with blob hash_type = BlobData.to_blob_bytes blob >>= digest_data hasher hash_type

  -- One turn of the loop over the blobs.
  unfoldable pub seal_slot :
      CodeSigningSlot → BlobData → CodeDirectoryBlob → Result CodeDirectoryBlob
  seal_slot slot blob cd =
      if is_code_directory_specials_expressible slot
      then (digest_with blob cd.digest_type >>= λ digest. set_slot_digest cd slot digest)
      else ok cd

  unfoldable pub seal_slots : Blobs → CodeDirectoryBlob → Result CodeDirectoryBlob
  seal_slots [] cd = ok cd
  seal_slots ((slot, blob) ∷ blobs) cd = do next ← seal_slot slot blob cd; seal_slots blobs next

  -- The builder, and the code directory of the primary slot.
  unfoldable pub add_code_directory :
      CodeSigningSlot
      → CodeDirectoryBlob
      → EmbeddedSignatureBuilder
      → Result (EmbeddedSignatureBuilder × CodeDirectoryBlob)
  add_code_directory cd_slot cd builder = do
    guard (not (is_signature_added builder.state))
        (signature_builder "cannot add code directory after signature data added")
    written ← seal_slots builder.blobs cd
    with_primary (register_code_directory cd_slot written builder)

-- One turn of the loop over the keys.
unfoldable pub next_alternative : CodeSigningSlot → CodeSigningSlot → Result CodeSigningSlot
next_alternative our_slot slot =
    let above = CodeSigningSlot.from_u32 (CodeSigningSlot.to_u32 slot + 1) in
    if is_alternative_code_directory slot
    then (guard (is_alternative_code_directory above)
          (signature_builder "no more available alternative code directory slots")
        >> ok above)
    else ok our_slot

unfoldable pub alternative_slot : CodeSigningSlot → Blobs → Result CodeSigningSlot
alternative_slot our_slot [] = ok our_slot
alternative_slot our_slot ((slot, _) ∷ blobs) = do
  next ← next_alternative our_slot slot
  alternative_slot next blobs

unfoldable pub add_alternative_code_directory :
    Hasher
    → CodeDirectoryBlob
    → EmbeddedSignatureBuilder
    → Result (EmbeddedSignatureBuilder × CodeDirectoryBlob)
add_alternative_code_directory hasher cd builder = do
  our_slot ← alternative_slot CodeSigningSlot.alternate_code_directory0 builder.blobs
  add_code_directory hasher our_slot cd builder

-- The digests of a code directory that are signed: cut to 20 bytes for the plist, and in full
-- with the algorithm for the attribute.
abbrev pub SignedDigests : Type 0
SignedDigests = List Bytes × List (Algorithm × Bytes)

unfoldable pub is_code_directory_slot : CodeSigningSlot → Bool
is_code_directory_slot CodeSigningSlot.code_directory = true
is_code_directory_slot slot = is_alternative_code_directory slot

unfoldable pub signed_digest : Hasher → BlobData → Result (Bytes × (Algorithm × Bytes))
signed_digest hasher (BlobData.code_directory cd) = do
  digest ← digest_with hasher (BlobData.code_directory cd) cd.digest_type
  algorithm ← DigestType.try_from cd.digest_type
  ok (take 20 digest, (algorithm, digest))
signed_digest hasher _ = err (signature_builder "unexpected blob type in code directory slot")

unfoldable pub signed_digests : Hasher → Blobs → Result SignedDigests
signed_digests hasher [] = ok ([], [])
signed_digests hasher ((slot, blob) ∷ blobs) =
    let rest = signed_digests hasher blobs in
    if is_code_directory_slot slot
    then (do
      (cdhash, attribute) ← signed_digest hasher blob
      (cdhashes, attributes) ← rest
      ok (cdhash ∷ cdhashes, attribute ∷ attributes))
    else rest

-- What signs: from the code directory, the digests of the plist and the attributes to the DER.
abbrev pub Signer : Type 0
Signer = Bytes → List Bytes → List (Algorithm × Bytes) → Result Bytes

unfoldable pub register_signature : Bytes → EmbeddedSignatureBuilder → EmbeddedSignatureBuilder
register_signature der builder = record {
  state = signature_added;
  blobs = insert CodeSigningSlot.signature (BlobData.blob_wrapper der) builder.blobs;
}

-- `ok_or`
unfoldable pub require_code_directory : Option CodeDirectoryBlob → Result CodeDirectoryBlob
require_code_directory (some cd) = ok cd
require_code_directory none =
    err (signature_builder "cannot create CMS signature unless code directory is present")

unfoldable pub create_cms_signature :
    Hasher → Signer → EmbeddedSignatureBuilder → Result EmbeddedSignatureBuilder
create_cms_signature hasher signer builder = do
  registered ← code_directory builder
  main_cd ← require_code_directory registered
  (cdhashes, attributes) ← signed_digests hasher builder.blobs
  content ← Serialize.to_blob_bytes main_cd
  der ← signer content cdhashes attributes
  ok (register_signature der builder)

unfoldable pub create_empty_cms_signature : EmbeddedSignatureBuilder → EmbeddedSignatureBuilder
create_empty_cms_signature builder = register_signature [] builder

unfoldable pub add_notarization_ticket : Bytes → EmbeddedSignatureBuilder → EmbeddedSignatureBuilder
add_notarization_ticket ticket_data builder = record {
  state = ticket_added;
  blobs = insert CodeSigningSlot.ticket (BlobData.blob_wrapper ticket_data) builder.blobs;
}

unfoldable pub blobs_bytes : Blobs → Result (List (CodeSigningSlot × Bytes))
blobs_bytes [] = ok []
blobs_bytes ((slot, blob) ∷ blobs) = do
  bytes ← BlobData.to_blob_bytes blob
  rest ← blobs_bytes blobs
  ok ((slot, bytes) ∷ rest)

unfoldable pub create_superblob : EmbeddedSignatureBuilder → Result Bytes
create_superblob builder = do
  guard (not (accepts_blobs builder.state))
      (signature_builder "code directory required in order to materialize superblob")
  blobs ← blobs_bytes builder.blobs
  ok (SuperBlob.create_superblob CodeSigningMagic.embedded_signature blobs)
