-- ===== src/Codesign/Requirement/Match.antt =====
-- `CodeRequirementMatchExpression` read and written, code_requirement.rs.
pub mod RoundTrip
pub mod Reads
use apple_platform_rs.Base.{
  ℕ, ◌+◌, ◌%◌, ◌^◌, ◌<◌, ◌≡◌, refl, sym, ap, ◌∙◌, List, [], ◌∷◌, ◌++◌, arith, ok, err, panic, ◌>>=◌,
  Bytes, IsU32, u32_bytes, u64_bytes, pread_u32, pread_u64, slice_from, ℤ, i64_pattern,
  i64_of_pattern, ok_or, length, some, pread_u32-u32_bytes, slice_from_u32, append_assoc,
  slice_from-append, pread_u64-u64_bytes, i64_of_pattern-i64_pattern,
}
use apple_platform_rs.Codesign.Error.{Result, scroll, bad_time}
use apple_platform_rs.Codesign.Requirement.Chrono.{Chrono}
use apple_platform_rs.Codesign.Requirement.Data.{
  CodeRequirementValue, read_data, value_of, value_bytes, write_encoded,
}
use apple_platform_rs.Codesign.Requirement.MatchType
use apple_platform_rs.Codesign.Requirement.MatchType.{MatchType}
use apple_platform_rs.Codesign.Requirement.Syntax
use apple_platform_rs.Codesign.Requirement.Syntax.{CodeRequirementMatchExpression, match_type}

module _ {T : Type 0} where
  -- The arms over a value: its data, read under a constructor.
  unfoldable pub read_value :
      (CodeRequirementValue → CodeRequirementMatchExpression T)
      → Bytes
      → Result (CodeRequirementMatchExpression T × Bytes)
  read_value make bytes = do (value, rest) ← read_data bytes; ok (make (value_of value), rest)

module _ {T : Type 0} (chrono : Chrono T) where
  open chrono use {timestamp_opt, timestamp}

  -- The arms over an instant.
  unfoldable pub read_time :
      (T → CodeRequirementMatchExpression T)
      → Bytes
      → Result (CodeRequirementMatchExpression T × Bytes)
  read_time make bytes = do
    value ← pread_u64 scroll bytes 0
    t ← ok_or (timestamp_opt (i64_of_pattern value)) bad_time
    rest ← slice_from 8 bytes
    ok (make t, rest)

  unfoldable pub parse_payload :
      MatchType → Bytes → Result (CodeRequirementMatchExpression T × Bytes)
  parse_payload MatchType.exists bytes = ok (CodeRequirementMatchExpression.exists, bytes)
  parse_payload MatchType.equal bytes = read_value CodeRequirementMatchExpression.equal bytes
  parse_payload MatchType.contains bytes = read_value CodeRequirementMatchExpression.contains bytes
  parse_payload MatchType.begins_with bytes =
      read_value CodeRequirementMatchExpression.begins_with bytes
  parse_payload MatchType.ends_with bytes =
      read_value CodeRequirementMatchExpression.ends_with bytes
  parse_payload MatchType.less_than bytes =
      read_value CodeRequirementMatchExpression.less_than bytes
  parse_payload MatchType.greater_than bytes =
      read_value CodeRequirementMatchExpression.greater_than bytes
  parse_payload MatchType.less_than_equal bytes =
      read_value CodeRequirementMatchExpression.less_than_equal bytes
  parse_payload MatchType.greater_than_equal bytes =
      read_value CodeRequirementMatchExpression.greater_than_equal bytes
  parse_payload MatchType.on bytes = read_time CodeRequirementMatchExpression.on bytes
  parse_payload MatchType.before bytes = read_time CodeRequirementMatchExpression.before bytes
  parse_payload MatchType.after bytes = read_time CodeRequirementMatchExpression.after bytes
  parse_payload MatchType.on_or_before bytes =
      read_time CodeRequirementMatchExpression.on_or_before bytes
  parse_payload MatchType.on_or_after bytes =
      read_time CodeRequirementMatchExpression.on_or_after bytes
  parse_payload MatchType.absent bytes = ok (CodeRequirementMatchExpression.absent, bytes)

  unfoldable pub from_bytes : Bytes → Result (CodeRequirementMatchExpression T × Bytes)
  from_bytes bytes = do
    raw ← pread_u32 scroll bytes 0
    typ ← MatchType.try_from raw
    payload ← slice_from 4 bytes
    parse_payload typ payload

  -- `dest.iowrite_with(value.timestamp(), scroll::BE)`
  unfoldable pub write_time : T → Bytes
  write_time t = u64_bytes (i64_pattern (timestamp t))

  -- The bytes behind the match type.
  unfoldable pub write_payload : CodeRequirementMatchExpression T → Bytes
  write_payload CodeRequirementMatchExpression.exists = []
  write_payload (CodeRequirementMatchExpression.equal value) = write_encoded value
  write_payload (CodeRequirementMatchExpression.contains value) = write_encoded value
  write_payload (CodeRequirementMatchExpression.begins_with value) = write_encoded value
  write_payload (CodeRequirementMatchExpression.ends_with value) = write_encoded value
  write_payload (CodeRequirementMatchExpression.less_than value) = write_encoded value
  write_payload (CodeRequirementMatchExpression.greater_than value) = write_encoded value
  write_payload (CodeRequirementMatchExpression.less_than_equal value) = write_encoded value
  write_payload (CodeRequirementMatchExpression.greater_than_equal value) = write_encoded value
  write_payload (CodeRequirementMatchExpression.on value) = write_time value
  write_payload (CodeRequirementMatchExpression.before value) = write_time value
  write_payload (CodeRequirementMatchExpression.after value) = write_time value
  write_payload (CodeRequirementMatchExpression.on_or_before value) = write_time value
  write_payload (CodeRequirementMatchExpression.on_or_after value) = write_time value
  write_payload CodeRequirementMatchExpression.absent = []

  unfoldable pub write_to : CodeRequirementMatchExpression T → Bytes
  write_to m = u32_bytes (MatchType.to_u32 (match_type m)) ++ write_payload m
