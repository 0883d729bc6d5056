-- ===== src/Codesign/Requirement/Match/Reads.antt =====
-- What `CodeRequirementMatchExpression::from_bytes` gives on any bytes.
use apple_platform_rs.Base.{
  ◌≤◌, refl, arith, length, All, Bytes, IsByte, IsU32, Ends, value, Ends-bind, Ends-map, Ends-ok_or,
  pread_u32-Ends, pread_u64-Ends, slice_from-Ends, i64_of_pattern,
}
use apple_platform_rs.Codesign.Error.{scroll, bad_time}
use apple_platform_rs.Codesign.Requirement.Chrono.{Chrono}
use apple_platform_rs.Codesign.Requirement.Data.{CodeRequirementValue, value_of}
use apple_platform_rs.Codesign.Requirement.Data.Reads.{read_data-Ends, value_bytes-value_of}
use apple_platform_rs.Codesign.Requirement.MatchType
use apple_platform_rs.Codesign.Requirement.MatchType.{MatchType}
use apple_platform_rs.Codesign.Requirement.Syntax.{CodeRequirementMatchExpression}
use apple_platform_rs.Codesign.Requirement.Match.{read_value, read_time, parse_payload, from_bytes}
use apple_platform_rs.Codesign.Requirement.Match.RoundTrip.{IsCanonical, IsWhole, IsWritable}

value_of-IsCanonical : (v : Bytes) → IsU32 (length v) → IsCanonical (value_of v)
value_of-IsCanonical v h = rw value_bytes-value_of (h, refl)

module _ {T : Type 0} (chrono : Chrono T) where
  -- The result can be written, and no more bytes are left than there were.
  abbrev pub IsRead : Bytes → CodeRequirementMatchExpression T × Bytes → Type 0
  IsRead data' r = IsWritable chrono r.0 × All IsByte r.1 × (length r.1 ≤ length data')

  read_value-Ends :
      (make : CodeRequirementValue → CodeRequirementMatchExpression T)
      → ((v : CodeRequirementValue) → IsCanonical v → IsWritable chrono (make v))
      → (data' : Bytes) → All IsByte data'
      → Ends (IsRead data') (read_value make data')
  unfolding read_value
  read_value-Ends make good data' h =
      Ends-bind (read_data-Ends data' h) λ (v, rest) (short, kept, left).
        value (good _ (value_of-IsCanonical v short), kept, omega arith)

  read_time-Ends :
      (make : T → CodeRequirementMatchExpression T)
      → ((t : T) → IsWhole chrono t → IsWritable chrono (make t))
      → (data' : Bytes) → All IsByte data'
      → Ends (IsRead data') (read_time chrono make data')
  unfolding read_time
  read_time-Ends make good data' h = Ends-bind (pread_u64-Ends scroll data' h 0) λ w small.
      Ends-bind {P = IsWhole chrono}
        (Ends-ok_or _ bad_time (λ t e. rw (chrono.timestamp-timestamp_opt (i64_of_pattern w) e) e))
        λ t whole.
          Ends-bind (slice_from-Ends data' h 8)
            λ rest (kept, left). value (good t whole, kept, omega arith)

  parse_payload-Ends :
      (m : MatchType) (data' : Bytes)
      → All IsByte data'
      → Ends (IsRead data') (parse_payload chrono m data')
  unfolding parse_payload
  parse_payload-Ends MatchType.exists data' h = value (tt, h, omega arith)
  parse_payload-Ends MatchType.equal data' h = read_value-Ends _ (λ v c. c) data' h
  parse_payload-Ends MatchType.contains data' h = read_value-Ends _ (λ v c. c) data' h
  parse_payload-Ends MatchType.begins_with data' h = read_value-Ends _ (λ v c. c) data' h
  parse_payload-Ends MatchType.ends_with data' h = read_value-Ends _ (λ v c. c) data' h
  parse_payload-Ends MatchType.less_than data' h = read_value-Ends _ (λ v c. c) data' h
  parse_payload-Ends MatchType.greater_than data' h = read_value-Ends _ (λ v c. c) data' h
  parse_payload-Ends MatchType.less_than_equal data' h = read_value-Ends _ (λ v c. c) data' h
  parse_payload-Ends MatchType.greater_than_equal data' h = read_value-Ends _ (λ v c. c) data' h
  parse_payload-Ends MatchType.on data' h = read_time-Ends _ (λ t c. c) data' h
  parse_payload-Ends MatchType.before data' h = read_time-Ends _ (λ t c. c) data' h
  parse_payload-Ends MatchType.after data' h = read_time-Ends _ (λ t c. c) data' h
  parse_payload-Ends MatchType.on_or_before data' h = read_time-Ends _ (λ t c. c) data' h
  parse_payload-Ends MatchType.on_or_after data' h = read_time-Ends _ (λ t c. c) data' h
  parse_payload-Ends MatchType.absent data' h = value (tt, h, omega arith)

  pub from_bytes-Ends :
      (data' : Bytes) → All IsByte data' → Ends (IsRead data') (from_bytes chrono data')
  unfolding from_bytes
  from_bytes-Ends data' h = Ends-bind (pread_u32-Ends scroll data' h 0) λ raw _.
      Ends-bind (MatchType.try_from-Ends raw) λ typ _.
        Ends-bind (slice_from-Ends data' h 4) λ payload (kept, left).
          Ends-map (parse_payload-Ends typ payload kept)
            λ (m, rest) (good, kept', left'). (good, kept', omega arith)
