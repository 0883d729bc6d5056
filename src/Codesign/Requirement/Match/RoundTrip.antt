-- ===== src/Codesign/Requirement/Match/RoundTrip.antt =====
-- Round trip of `CodeRequirementMatchExpression`, code_requirement.rs.
use apple_platform_rs.Base.{
  ◌%◌, ◌^◌, ◌≡◌, refl, ◌++◌, arith, ok, Bytes, IsU32, u32_bytes, u64_bytes, i64_pattern, length,
  some, pread_u32-u32_bytes, slice_from_u32, append_assoc, slice_from-append, pread_u64-u64_bytes,
  i64_of_pattern-i64_pattern,
}
use apple_platform_rs.Codesign.Error.{Error}
use apple_platform_rs.Codesign.Requirement.Chrono.{Chrono}
use apple_platform_rs.Codesign.Requirement.Data.{
  CodeRequirementValue, value_of, value_bytes, write_encoded, read_data-write_data,
}
use apple_platform_rs.Codesign.Requirement.MatchType
use apple_platform_rs.Codesign.Requirement.MatchType.{MatchType}
use apple_platform_rs.Codesign.Requirement.Syntax.{CodeRequirementMatchExpression, match_type}
use apple_platform_rs.Codesign.Requirement.Match.{
  read_value, read_time, parse_payload, from_bytes, write_time, write_payload, write_to,
}

-- A value that its own bytes give back: a text exactly if all bytes are printable ASCII.
abbrev pub IsCanonical : CodeRequirementValue → Type 0
IsCanonical v = IsU32 (length (value_bytes v)) × (value_of (value_bytes v) ≡ v)

module _ {T : Type 0} (chrono : Chrono T) where
  open chrono use {timestamp_opt, timestamp, timestamp-IsI64}

  -- An instant of whole seconds.
  abbrev pub IsWhole : T → Type 0
  IsWhole t = timestamp_opt (timestamp t) ≡ some t

  abbrev pub IsWritable : CodeRequirementMatchExpression T → Type 0
  IsWritable CodeRequirementMatchExpression.exists = Unit {0}
  IsWritable (CodeRequirementMatchExpression.equal value) = IsCanonical value
  IsWritable (CodeRequirementMatchExpression.contains value) = IsCanonical value
  IsWritable (CodeRequirementMatchExpression.begins_with value) = IsCanonical value
  IsWritable (CodeRequirementMatchExpression.ends_with value) = IsCanonical value
  IsWritable (CodeRequirementMatchExpression.less_than value) = IsCanonical value
  IsWritable (CodeRequirementMatchExpression.greater_than value) = IsCanonical value
  IsWritable (CodeRequirementMatchExpression.less_than_equal value) = IsCanonical value
  IsWritable (CodeRequirementMatchExpression.greater_than_equal value) = IsCanonical value
  IsWritable (CodeRequirementMatchExpression.on value) = IsWhole value
  IsWritable (CodeRequirementMatchExpression.before value) = IsWhole value
  IsWritable (CodeRequirementMatchExpression.after value) = IsWhole value
  IsWritable (CodeRequirementMatchExpression.on_or_before value) = IsWhole value
  IsWritable (CodeRequirementMatchExpression.on_or_after value) = IsWhole value
  IsWritable CodeRequirementMatchExpression.absent = Unit {0}

  read_value-write_encoded :
      (make : CodeRequirementValue → CodeRequirementMatchExpression T) (v : CodeRequirementValue)
      (rest : Bytes)
      → IsCanonical v
      → read_value make (write_encoded v ++ rest) ≡ ok (make v, rest)
  unfolding read_value write_encoded
  read_value-write_encoded make v rest (short, canonical) =
      rw (read_data-write_data (value_bytes v) rest short) (rw canonical)

  read_time-write_time :
      (make : T → CodeRequirementMatchExpression T) (t : T) (rest : Bytes)
      → IsWhole t
      → read_time chrono make (write_time chrono t ++ rest) ≡ ok (make t, rest)
  unfolding read_time write_time
  read_time-write_time make t rest whole = rw (
    pread_u64-u64_bytes,
    i64_of_pattern-i64_pattern (timestamp t) (timestamp-IsI64 t),
    whole,
    slice_from-append {E = Error} 8 (u64_bytes (i64_pattern (timestamp t))) rest width,
  )
    where
      width : length (u64_bytes (i64_pattern (timestamp t))) ≡ 8
      width = unfold u64_bytes u32_bytes in refl

  from_bytes_opens :
      (m : MatchType) (payload : Bytes)
      → from_bytes chrono (u32_bytes (MatchType.to_u32 m) ++ payload)
        ≡ parse_payload chrono m payload
  unfolding from_bytes
  from_bytes_opens m payload =
      rw (pread_u32-u32_bytes, small, MatchType.try_from-to_u32, slice_from_u32)
    where
      small : MatchType.to_u32 m % 2 ^ 32 ≡ MatchType.to_u32 m
      small = omega (arith, MatchType.to_u32-lt m)

  payload_reads :
      (m : CodeRequirementMatchExpression T) (rest : Bytes)
      → IsWritable m
      → parse_payload chrono (match_type m) (write_payload chrono m ++ rest) ≡ ok (m, rest)
  unfolding parse_payload match_type write_payload
  payload_reads CodeRequirementMatchExpression.exists rest h = refl
  payload_reads (CodeRequirementMatchExpression.equal v) rest h =
      read_value-write_encoded _ v rest h
  payload_reads (CodeRequirementMatchExpression.contains v) rest h =
      read_value-write_encoded _ v rest h
  payload_reads (CodeRequirementMatchExpression.begins_with v) rest h =
      read_value-write_encoded _ v rest h
  payload_reads (CodeRequirementMatchExpression.ends_with v) rest h =
      read_value-write_encoded _ v rest h
  payload_reads (CodeRequirementMatchExpression.less_than v) rest h =
      read_value-write_encoded _ v rest h
  payload_reads (CodeRequirementMatchExpression.greater_than v) rest h =
      read_value-write_encoded _ v rest h
  payload_reads (CodeRequirementMatchExpression.less_than_equal v) rest h =
      read_value-write_encoded _ v rest h
  payload_reads (CodeRequirementMatchExpression.greater_than_equal v) rest h =
      read_value-write_encoded _ v rest h
  payload_reads (CodeRequirementMatchExpression.on t) rest h = read_time-write_time _ t rest h
  payload_reads (CodeRequirementMatchExpression.before t) rest h = read_time-write_time _ t rest h
  payload_reads (CodeRequirementMatchExpression.after t) rest h = read_time-write_time _ t rest h
  payload_reads (CodeRequirementMatchExpression.on_or_before t) rest h =
      read_time-write_time _ t rest h
  payload_reads (CodeRequirementMatchExpression.on_or_after t) rest h =
      read_time-write_time _ t rest h
  payload_reads CodeRequirementMatchExpression.absent rest h = refl

  pub from_bytes-write_to :
      (m : CodeRequirementMatchExpression T) (rest : Bytes)
      → IsWritable m
      → from_bytes chrono (write_to chrono m ++ rest) ≡ ok (m, rest)
  unfolding write_to
  from_bytes-write_to m rest h = rw (append_assoc, from_bytes_opens) (payload_reads m rest h)
