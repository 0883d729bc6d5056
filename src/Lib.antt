-- ===== src/Lib.antt =====
-- apple-platform-rs: signing, archives and containers of Apple platforms, in Rust. This library
-- models the binary form of code requirements, the embedded signatures with their blobs and code
-- directories, and the cpio archives that flat packages hold.
--
-- Base: what the parts share. Base/Fallible has the outcome of a Rust call: a value, an `Err`, a panic
-- (a slice out of range, or a subtraction below zero, which a build with overflow checks stops), or
-- `stuck`, which stands for fuel that ran out and has no counterpart in the program. Base/Postcondition states what holds of a value and that the
-- outcome is not `stuck`. Base/Buffer has big endian words and slices, Base/Int two's complement,
-- Base/Utf8 the validation of UTF-8, Base/Compare the equality of byte strings. A u32 or u64 is a
-- natural number whose wrap-around is written out where the code computes with it.
--
-- Codesign: the crate apple-codesign. Codesign/Error holds the errors of apple-codesign/src/error.rs
-- that the modelled code returns.
--   Codesign/Blob models apple-codesign/src/embedded_signature.rs: CodeSigningMagic and CodeSigningSlot
--   are the enums with their numbers (`from_u32`, `to_u32` are the two `From` instances), Header has
--   `read_blob_header`, `read_and_validate_blob_header` and `Blob::to_blob_bytes`, SuperBlob has
--   `create_superblob`, `EmbeddedSignature::from_bytes` and `find_slot`.
--   Codesign/RequirementSet models `RequirementSetBlob` of the same file, whose hash map is the list of
--   its entries in the order of iteration; Codesign/BlobData the other blob types and `BlobData`, which
--   reads a blob by its magic (`parse_by_magic`) and so joins all blob parsers; Codesign/Signature the
--   accessors of `EmbeddedSignature` (`code_directory`, `preferred_code_directory`, `entitlements`, ...)
--   over SuperBlob and BlobData. The parser of CMS data is a parameter of `signed_data`.
--   Codesign/Builder models `EmbeddedSignatureBuilder` of
--   apple-codesign/src/embedded_signature_builder.rs, which joins BlobData, the special digests of
--   Codesign/CodeDirectory and `create_superblob`: a method that takes `&mut self` returns the
--   builder, Steps has its histories as a step relation, Stapling what is opened again of what it
--   wrote. The hash functions of ring (Hasher) and what makes a CMS signature of the digests
--   (Signer) are parameters.
--   Codesign/CodeDirectory models apple-codesign/src/code_directory.rs: Data has `CodeDirectoryBlob` and the
--   versions, Version `adjust_version` and `clear_newer_fields`, Slots the special digests (a `BTreeMap`
--   is a list by ascending slots) and `set_slot_digest`, Serialize `serialize_payload` (a cursor is the
--   bytes written so far), Parse `from_blob_bytes`, section by section. RoundTrip lays a code directory
--   out in one piece, with every offset. u32 arithmetic wraps as in a release build, so a page size of
--   2^32 or more is 0. Codesign/DigestType is the enum of cryptography.rs, Codesign/Target the platforms
--   of macho.rs; Semver is what the code uses of the semver crate.
--   Codesign/Requirement models apple-codesign/src/code_requirement.rs: RequirementType,
--   RequirementOpCode and MatchType are the enums, Data has `read_data`, `write_data` and
--   `CodeRequirementValue`, Syntax the expressions, Match and Expression their `parse_payload`,
--   `from_bytes` and `write_to`, Set the lists of them and `RequirementBlob`. A writer is the bytes
--   it appends. Chrono is what the code uses of the chrono crate. `from_bytes` of an expression
--   recurses on fuel, one more than the length of the data; every nesting consumes four bytes. The
--   capacity of a vector, which `to_blob_data` writes as a length, is a parameter;
--   Codesign/BlobData/Capacity has what the blob reader makes of it.
--
-- Cpio: the crate cpio-archive. Cpio/Error is the error of cpio-archive/src/lib.rs, Cpio/Io reading from
-- and writing to memory (a short `read_exact` leaves nothing to read), Cpio/Radix the numbers of headers,
-- Cpio/CStr the names.
--   Cpio/Odc models cpio-archive/src/odc.rs: Header is `OdcHeader`, Reader is `OdcReader`, Path the
--   paths of the builder, Builder is `OdcBuilder`. The reader's state has the archive that is left,
--   the entry that is open (`std::io::Take`) and whether the trailer was seen. The loop of `finish`
--   recurses on fuel, one more than the bytes that are left, since every read but the last takes a
--   byte. The builder's state has the bytes written and the fields of the struct; the set of
--   directories is a list that is used through membership alone, and the entry count wraps as in a
--   release build. Builder/Listing is the contract of the builder: entries and directories without
--   bytes. The file system, the clock, the contents of a manifest and the modes of
--   simple_file_manifest are parameters. Sums of written bytes are not bounded, since the bytes are
--   in memory.
--   Cpio/Newc models cpio-archive/src/newc.rs: Header is `NewcHeader`, Reader is `NewcReader`, whose state
--   also has the padding behind the open entry; it shares `Take` and its loop with Odc/Reader.
--
-- Not modelled: text forms (`Display`, `Debug`), the names of code signature flags, DER plists, the
-- getters of cpio headers, format detection, and the crates that read disk images, bills of materials,
-- xar archives, bundles and SDKs; signing itself rests on cryptographic crates, and the clients of Apple's services
-- on HTTP.
pub mod Base
pub mod Codesign
pub mod Cpio
