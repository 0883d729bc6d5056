-- ===== src/Codesign/Requirement/Expression.antt =====
-- `CodeRequirementExpression` read and written, code_requirement.rs.
pub mod WellFormed
pub mod RoundTrip
pub mod Reads
pub mod Panics
use apple_platform_rs.Base.{
  ℕ, zero, suc, ◌+◌, ◌%◌, ◌^◌, List, [], ◌∷◌, ◌++◌, ok, err, panic, stuck, ◌>>=◌, Bytes, length,
  u32_bytes, pread_u32, slice_from, slice, ℤ, String,
}
use apple_platform_rs.Codesign.Error.{Result, scroll}
use apple_platform_rs.Codesign.Requirement.Chrono.{Chrono}
use apple_platform_rs.Codesign.Requirement.Data.{
  Text, read_data, read_i32, from_utf8, write_data, write_i32,
}
use apple_platform_rs.Codesign.Requirement.RequirementOpCode
use apple_platform_rs.Codesign.Requirement.RequirementOpCode.{RequirementOpCode}
use apple_platform_rs.Codesign.Requirement.Syntax.{
  CodeRequirementExpression, CodeRequirementMatchExpression, op_code,
}
use apple_platform_rs.Codesign.Requirement.Match

-- A text behind its length.
unfoldable pub read_text : String → Bytes → Result (Text × Bytes)
read_text what bytes = do (value, rest) ← read_data bytes; s ← from_utf8 what value; ok (s, rest)

module _ {T : Type 0} (chrono : Chrono T) where
  -- `parse` reads a nested expression. An OID is not looked into.
  unfoldable pub parse_payload :
      (Bytes → Result (CodeRequirementExpression T × Bytes))
      → RequirementOpCode
      → Bytes
      → Result (CodeRequirementExpression T × Bytes)
  parse_payload parse RequirementOpCode.false bytes = ok (CodeRequirementExpression.false, bytes)
  parse_payload parse RequirementOpCode.true bytes = ok (CodeRequirementExpression.true, bytes)
  parse_payload parse RequirementOpCode.identifier bytes = do
    (s, rest) ← read_text "identifier value not a UTF-8 string" bytes
    ok (CodeRequirementExpression.identifier s, rest)
  parse_payload parse RequirementOpCode.anchor_apple bytes =
      ok (CodeRequirementExpression.anchor_apple, bytes)
  parse_payload parse RequirementOpCode.anchor_certificate_hash bytes = do
    slot ← read_i32 bytes
    digest_length ← pread_u32 scroll bytes 4
    digest ← slice 8 (8 + digest_length) bytes
    rest ← slice_from (8 + digest_length) bytes
    ok (CodeRequirementExpression.anchor_certificate_hash slot digest, rest)
  parse_payload parse RequirementOpCode.info_key_value_legacy bytes = do
    (key, rest) ← read_text "info key not a UTF-8 string" bytes
    (value, rest') ← read_text "info value not a UTF-8 string" rest
    ok (CodeRequirementExpression.info_key_value_legacy key value, rest')
  parse_payload parse RequirementOpCode.and bytes = do
    (a, rest) ← parse bytes
    (b, rest') ← parse rest
    ok (CodeRequirementExpression.and a b, rest')
  parse_payload parse RequirementOpCode.or bytes = do
    (a, rest) ← parse bytes
    (b, rest') ← parse rest
    ok (CodeRequirementExpression.or a b, rest')
  parse_payload parse RequirementOpCode.code_directory_hash bytes = do
    (value, rest) ← read_data bytes
    ok (CodeRequirementExpression.code_directory_hash value, rest)
  parse_payload parse RequirementOpCode.not bytes = do
    (a, rest) ← parse bytes
    ok (CodeRequirementExpression.not a, rest)
  parse_payload parse RequirementOpCode.info_plist_expression bytes = do
    (key, rest) ← read_text "key is not valid UTF-8" bytes
    (expr, rest') ← Match.from_bytes chrono rest
    ok (CodeRequirementExpression.info_plist_key_field key expr, rest')
  parse_payload parse RequirementOpCode.certificate_field bytes = do
    slot ← read_i32 bytes
    tail ← slice_from 4 bytes
    (field, rest) ← read_text "certificate field is not valid UTF-8" tail
    (expr, rest') ← Match.from_bytes chrono rest
    ok (CodeRequirementExpression.certificate_field slot field expr, rest')
  parse_payload parse RequirementOpCode.certificate_trusted bytes = do
    slot ← read_i32 bytes
    rest ← slice_from 4 bytes
    ok (CodeRequirementExpression.certificate_trusted slot, rest)
  parse_payload parse RequirementOpCode.anchor_trusted bytes =
      ok (CodeRequirementExpression.anchor_trusted, bytes)
  parse_payload parse RequirementOpCode.certificate_generic bytes = do
    slot ← read_i32 bytes
    tail ← slice_from 4 bytes
    (oid, rest) ← read_data tail
    (expr, rest') ← Match.from_bytes chrono rest
    ok (CodeRequirementExpression.certificate_generic slot oid expr, rest')
  parse_payload parse RequirementOpCode.anchor_apple_generic bytes =
      ok (CodeRequirementExpression.anchor_apple_generic, bytes)
  parse_payload parse RequirementOpCode.entitlements_field bytes = do
    (key, rest) ← read_text "entitlement key is not UTF-8" bytes
    (expr, rest') ← Match.from_bytes chrono rest
    ok (CodeRequirementExpression.entitlements_key key expr, rest')
  parse_payload parse RequirementOpCode.certificate_policy bytes = do
    slot ← read_i32 bytes
    tail ← slice_from 4 bytes
    (oid, rest) ← read_data tail
    (expr, rest') ← Match.from_bytes chrono rest
    ok (CodeRequirementExpression.certificate_policy slot oid expr, rest')
  parse_payload parse RequirementOpCode.named_anchor bytes = do
    (name, rest) ← read_text "named anchor isn't UTF-8" bytes
    ok (CodeRequirementExpression.named_anchor name, rest)
  parse_payload parse RequirementOpCode.named_code bytes = do
    (name, rest) ← read_text "named code isn't UTF-8" bytes
    ok (CodeRequirementExpression.named_code name, rest)
  parse_payload parse RequirementOpCode.platform bytes = do
    value ← pread_u32 scroll bytes 0
    rest ← slice_from 4 bytes
    ok (CodeRequirementExpression.platform value, rest)
  parse_payload parse RequirementOpCode.notarized bytes =
      ok (CodeRequirementExpression.notarized, bytes)
  parse_payload parse RequirementOpCode.certificate_field_date bytes = do
    slot ← read_i32 bytes
    tail ← slice_from 4 bytes
    (oid, rest) ← read_data tail
    (expr, rest') ← Match.from_bytes chrono rest
    ok (CodeRequirementExpression.certificate_field_date slot oid expr, rest')
  parse_payload parse RequirementOpCode.legacy_developer_id bytes =
      ok (CodeRequirementExpression.legacy_developer_id, bytes)

  -- The flags in the high byte of the opcode are dropped. The fuel bounds the nesting; the length of
  -- the data is enough.
  unfoldable pub from_bytes_fuel : ℕ → Bytes → Result (CodeRequirementExpression T × Bytes)
  from_bytes_fuel zero bytes = stuck
  from_bytes_fuel (suc fuel) bytes = do
    opcode_raw ← pread_u32 scroll bytes 0
    payload ← slice_from 4 bytes
    opcode ← RequirementOpCode.try_from (opcode_raw % 2 ^ 24)
    parse_payload (from_bytes_fuel fuel) opcode payload

  unfoldable pub from_bytes : Bytes → Result (CodeRequirementExpression T × Bytes)
  from_bytes bytes = from_bytes_fuel (suc (length bytes)) bytes

  -- `dest.iowrite_with(RequirementOpCode::from(self) as u32, scroll::BE)`
  unfoldable pub write_op : CodeRequirementExpression T → Bytes
  write_op e = u32_bytes (RequirementOpCode.to_u32 (op_code e))

  -- The bytes that `write_to` appends to its destination.
  unfoldable pub write_to : CodeRequirementExpression T → Bytes
  write_to CodeRequirementExpression.false = write_op CodeRequirementExpression.false
  write_to CodeRequirementExpression.true = write_op CodeRequirementExpression.true
  write_to (CodeRequirementExpression.identifier s) =
      write_op (CodeRequirementExpression.identifier s) ++ write_data s
  write_to CodeRequirementExpression.anchor_apple = write_op CodeRequirementExpression.anchor_apple
  write_to (CodeRequirementExpression.anchor_certificate_hash slot hash) =
      write_op (CodeRequirementExpression.anchor_certificate_hash slot hash)
      ++ (write_i32 slot ++ write_data hash)
  write_to (CodeRequirementExpression.info_key_value_legacy key value) =
      write_op (CodeRequirementExpression.info_key_value_legacy key value)
      ++ (write_data key ++ write_data value)
  write_to (CodeRequirementExpression.and a b) =
      write_op (CodeRequirementExpression.and a b) ++ (write_to a ++ write_to b)
  write_to (CodeRequirementExpression.or a b) =
      write_op (CodeRequirementExpression.or a b) ++ (write_to a ++ write_to b)
  write_to (CodeRequirementExpression.code_directory_hash hash) =
      write_op (CodeRequirementExpression.code_directory_hash hash) ++ write_data hash
  write_to (CodeRequirementExpression.not expr) =
      write_op (CodeRequirementExpression.not expr) ++ write_to expr
  write_to (CodeRequirementExpression.info_plist_key_field key m) =
      write_op (CodeRequirementExpression.info_plist_key_field key m)
      ++ (write_data key ++ Match.write_to chrono m)
  write_to (CodeRequirementExpression.certificate_field slot field m) =
      write_op (CodeRequirementExpression.certificate_field slot field m)
      ++ (write_i32 slot ++ (write_data field ++ Match.write_to chrono m))
  write_to (CodeRequirementExpression.certificate_trusted slot) =
      write_op (CodeRequirementExpression.certificate_trusted slot) ++ write_i32 slot
  write_to CodeRequirementExpression.anchor_trusted =
      write_op CodeRequirementExpression.anchor_trusted
  write_to (CodeRequirementExpression.certificate_generic slot oid m) =
      write_op (CodeRequirementExpression.certificate_generic slot oid m)
      ++ (write_i32 slot ++ (write_data oid ++ Match.write_to chrono m))
  write_to CodeRequirementExpression.anchor_apple_generic =
      write_op CodeRequirementExpression.anchor_apple_generic
  write_to (CodeRequirementExpression.entitlements_key key m) =
      write_op (CodeRequirementExpression.entitlements_key key m)
      ++ (write_data key ++ Match.write_to chrono m)
  write_to (CodeRequirementExpression.certificate_policy slot oid m) =
      write_op (CodeRequirementExpression.certificate_policy slot oid m)
      ++ (write_i32 slot ++ (write_data oid ++ Match.write_to chrono m))
  write_to (CodeRequirementExpression.named_anchor value) =
      write_op (CodeRequirementExpression.named_anchor value) ++ write_data value
  write_to (CodeRequirementExpression.named_code value) =
      write_op (CodeRequirementExpression.named_code value) ++ write_data value
  write_to (CodeRequirementExpression.platform value) =
      write_op (CodeRequirementExpression.platform value) ++ u32_bytes value
  write_to CodeRequirementExpression.notarized = write_op CodeRequirementExpression.notarized
  write_to (CodeRequirementExpression.certificate_field_date slot oid m) =
      write_op (CodeRequirementExpression.certificate_field_date slot oid m)
      ++ (write_i32 slot ++ (write_data oid ++ Match.write_to chrono m))
  write_to CodeRequirementExpression.legacy_developer_id =
      write_op CodeRequirementExpression.legacy_developer_id
