-- ===== src/Codesign/Requirement/Tests.antt =====
-- Runs of the requirement code at concrete inputs, and its theorems there.
use apple_platform_rs.Base.{
  ◌*◌, ◌/◌, ℕ, ◌+◌, ◌≤◌, ◌≡◌, ◌≢◌, refl, true, [], ◌∷◌, ◌++◌, Option, none, some, ok, panic, stuck,
  ◌>>=◌, ℤ, pos, negsuc, IsI64, leb, if◌then◌else◌, min, arith, All, IsByte, Bytes, u32_bytes,
  i32_pattern, is_utf8, pread_u32, slice_from, i64_pattern, u64_bytes, take, drop,
}
use apple_platform_rs.Codesign.Blob.CodeSigningMagic
use apple_platform_rs.Codesign.Blob.Header.{read_blob_header, read_and_validate_blob_header}
use apple_platform_rs.Codesign.Requirement.Chrono.{Chrono}
use apple_platform_rs.Codesign.Requirement.Data.{
  Text, value_of, write_data, write_i32, padding, read_data, is_ascii_printable,
}
use apple_platform_rs.Codesign.Requirement.Data.Reads.{value_of_sound}
use apple_platform_rs.Codesign.Requirement.MatchType
use apple_platform_rs.Codesign.Requirement.RequirementOpCode
use apple_platform_rs.Codesign.Requirement.Syntax.{
  CodeRequirementExpression, CodeRequirementMatchExpression, op_code, match_type,
}
use apple_platform_rs.Codesign.Requirement.Match
use apple_platform_rs.Codesign.Requirement.Expression
use apple_platform_rs.Codesign.Requirement.Expression.WellFormed.{IsWellFormed}
use apple_platform_rs.Codesign.Requirement.Expression.RoundTrip.{from_bytes-write_to}
use apple_platform_rs.Codesign.Requirement.Expression.Reads.{
  from_bytes-ne-stuck, from_bytes_sound, from_bytes_normalises,
}
use apple_platform_rs.Codesign.Requirement.Expression.Panics.{
  read_data_outcome, from_bytes-write_to_hash,
}
use apple_platform_rs.Codesign.BlobData
use apple_platform_rs.Codesign.BlobData.Capacity.{from_blob_bytes-to_blob_data}
use apple_platform_rs.Codesign.Requirement.Set
use apple_platform_rs.Codesign.Requirement.Set.{CodeRequirements}
use apple_platform_rs.Codesign.Requirement.Set.RoundTrip.{
  IsWritable, parse_blob-to_blob_data, parse_expressions-blob,
}
use apple_platform_rs.Codesign.Requirement.Set.Reads.{IsParsed, parse_blob_sound}

-- Instants as seconds after the epoch, up to the last one that chrono represents.
abbrev last_second : ℕ
last_second = 8_210_266_876_799

abbrev clock_timestamp_opt : ℤ → Option ℕ
clock_timestamp_opt (pos n) = if leb n last_second then some n else none
clock_timestamp_opt (negsuc n) = none

abbrev clock_timestamp : ℕ → ℤ
clock_timestamp t = pos (min t last_second)

clock_law : (v : ℤ) {t : ℕ} → clock_timestamp_opt v ≡ some t → clock_timestamp t ≡ v
clock_law (pos n) h = ground arith
clock_law (negsuc n) h = cc

clock_range : (t : ℕ) → IsI64 (clock_timestamp t)
clock_range t = omega arith

abbrev clock : Chrono ℕ
clock = record {
  timestamp_opt = clock_timestamp_opt;
  timestamp = clock_timestamp;
  timestamp-timestamp_opt = clock_law;
  timestamp-IsI64 = clock_range;
}

-- "com.acme"
abbrev acme : Text
acme = 99 ∷ 111 ∷ 109 ∷ 46 ∷ 97 ∷ 99 ∷ 109 ∷ 101 ∷ []

-- 1.2.840.113635.100.6.2.6
abbrev oid : Bytes
oid = 42 ∷ 134 ∷ 72 ∷ 134 ∷ 247 ∷ 99 ∷ 100 ∷ 6 ∷ 2 ∷ 6 ∷ []

-- identifier "com.acme" and certificate 1[field.1.2.840.113635.100.6.2.6] after a date
abbrev sample : CodeRequirementExpression ℕ
sample = CodeRequirementExpression.and (CodeRequirementExpression.identifier acme) (
    CodeRequirementExpression.certificate_generic (pos 1) oid
      (CodeRequirementMatchExpression.after 1_700_000_000))

acme_utf8 : is_utf8 acme ≡ true
unfolding is_utf8
acme_utf8 = refl

whole_second : clock_timestamp_opt (clock_timestamp 1_700_000_000) ≡ some 1_700_000_000
whole_second = refl

sample-IsWellFormed : IsWellFormed clock sample
sample-IsWellFormed = ((omega arith, acme_utf8), (omega arith, omega arith, whole_second))

sample_bytes :
    Expression.write_to clock sample
    ≡ 0 ∷ 0 ∷ 0 ∷ 6 ∷ 0 ∷ 0 ∷ 0 ∷ 2 ∷ 0 ∷ 0 ∷ 0 ∷ 8 ∷ acme
      ++ 0 ∷ 0 ∷ 0 ∷ 14 ∷ 0 ∷ 0 ∷ 0 ∷ 1 ∷ 0 ∷ 0 ∷ 0 ∷ 10 ∷ oid
      ++ 0 ∷ 0 ∷ 0 ∷ 0 ∷ 0 ∷ 11 ∷ 0 ∷ 0 ∷ 0 ∷ 0 ∷ 101 ∷ 83 ∷ 241 ∷ 0 ∷ []
unfolding Expression.write_to Expression.write_op op_code RequirementOpCode.to_u32 write_data
    padding write_i32 i32_pattern u32_bytes Match.write_to Match.write_payload match_type
    MatchType.to_u32 Match.write_time i64_pattern u64_bytes
sample_bytes = refl

from_bytes-write_to_example :
    Expression.from_bytes clock (Expression.write_to clock sample ++ (7 ∷ [])) ≡ ok (sample, 7 ∷ [])
from_bytes-write_to_example = from_bytes-write_to clock sample (7 ∷ []) sample-IsWellFormed (tt, tt)

-- A flag in the high byte of an opcode is dropped.
abbrev flagged : Bytes
flagged = 128 ∷ 0 ∷ 0 ∷ 21 ∷ 9 ∷ []

flagged_reads :
    Expression.from_bytes clock flagged ≡ ok (CodeRequirementExpression.notarized, 9 ∷ [])
unfolding Expression.from_bytes Expression.from_bytes_fuel Expression.parse_payload pread_u32
    slice_from RequirementOpCode.try_from
flagged_reads = refl

from_bytes-ne-stuck_example : Expression.from_bytes clock flagged ≢ stuck
from_bytes-ne-stuck_example = from_bytes-ne-stuck clock flagged (omega arith)

from_bytes_sound_example :
    IsWellFormed clock CodeRequirementExpression.notarized × All IsByte (9 ∷ []) × (1 + 4 ≤ 5)
from_bytes_sound_example =
    from_bytes_sound clock flagged (9 ∷ []) CodeRequirementExpression.notarized (omega arith)
      flagged_reads

from_bytes_normalises_example :
    Expression.from_bytes clock
      (Expression.write_to clock CodeRequirementExpression.notarized ++ (8 ∷ []))
    ≡ ok (CodeRequirementExpression.notarized, 8 ∷ [])
from_bytes_normalises_example =
    from_bytes_normalises clock flagged (9 ∷ []) (8 ∷ []) CodeRequirementExpression.notarized
      (omega arith) tt flagged_reads

value_of_sound_example : is_utf8 acme ≡ true
value_of_sound_example = value_of_sound acme acme (unfold value_of is_ascii_printable in refl)

-- A length of 5 in front of two bytes.
read_data_outcome_example : read_data (u32_bytes 5 ++ (1 ∷ 2 ∷ [])) ≡ (
    if leb (4 * ((5 + 3) / 4)) 2
    then ok (take 5 (1 ∷ 2 ∷ []), drop (4 * ((5 + 3) / 4)) (1 ∷ 2 ∷ []))
    else panic)
read_data_outcome_example = read_data_outcome 5 (1 ∷ 2 ∷ []) (omega arith)

-- A hash of one byte leaves three bytes of padding in front of what follows.
from_bytes-write_to_hash_example :
    Expression.from_bytes clock (
      Expression.write_to clock
        (CodeRequirementExpression.anchor_certificate_hash (negsuc 0) (7 ∷ []))
      ++ [])
    ≡ ok (CodeRequirementExpression.anchor_certificate_hash (negsuc 0) (7 ∷ []), padding 1 ++ [])
from_bytes-write_to_hash_example =
    from_bytes-write_to_hash clock (negsuc 0) (7 ∷ []) [] (omega arith) (omega arith)

abbrev two : CodeRequirements ℕ
two = sample ∷ CodeRequirementExpression.anchor_apple ∷ []

two-IsWritable : IsWritable clock two
two-IsWritable = record {
  counted = omega arith;
  formed = (sample-IsWellFormed, (tt, tt));
  aligned = ((tt, tt), (tt, tt));
}

parse_blob-to_blob_data_example :
    Set.parse_blob clock (Set.to_blob_data clock (λ n. n + 3) two ++ (1 ∷ [])) ≡ ok (two, 1 ∷ [])
parse_blob-to_blob_data_example =
    parse_blob-to_blob_data clock (λ n. n + 3) two (1 ∷ []) two-IsWritable

parse_expressions-blob_example :
    (Set.requirement_from_blob_bytes
        (Set.requirement_to_blob_bytes (Set.requirement_blob clock two))
      >>= Set.parse_expressions clock)
    ≡ ok two
parse_expressions-blob_example = parse_expressions-blob clock two two-IsWritable

abbrev flagged_blob : Bytes
flagged_blob = 250 ∷ 222 ∷ 12 ∷ 0 ∷ 0 ∷ 0 ∷ 0 ∷ 16 ∷ 0 ∷ 0 ∷ 0 ∷ 1 ∷ flagged

flagged_blob_reads :
    Set.parse_blob clock flagged_blob ≡ ok (CodeRequirementExpression.notarized ∷ [], 9 ∷ [])
unfolding Set.parse_blob Set.parse_binary Set.parse_elements read_and_validate_blob_header
    read_blob_header CodeSigningMagic.to_u32 Expression.from_bytes Expression.from_bytes_fuel
    Expression.parse_payload pread_u32 slice_from RequirementOpCode.try_from
flagged_blob_reads = refl

parse_blob_sound_example :
    IsParsed clock flagged_blob (CodeRequirementExpression.notarized ∷ []) (9 ∷ [])
parse_blob_sound_example =
    parse_blob_sound clock flagged_blob (9 ∷ []) (CodeRequirementExpression.notarized ∷ [])
      (omega arith) flagged_blob_reads

-- A vector of ten bytes more than were asked for: three bytes behind the blob are not enough.
from_blob_bytes-to_blob_data_example :
    BlobData.from_blob_bytes (
      Set.to_blob_data clock (λ n. n + 10) (CodeRequirementExpression.notarized ∷ [])
      ++ (1 ∷ 2 ∷ 3 ∷ []))
    ≡ (if leb (8 + 8 + 10) (8 + 8 + 3)
        then ok (
            BlobData.requirement (
              take (8 + 10) (
                Set.write_to clock (CodeRequirementExpression.notarized ∷ []) ++ (1 ∷ 2 ∷ 3 ∷ []))))
        else panic)
unfolding Set.write_to Set.write_elements Expression.write_to Expression.write_op u32_bytes
from_blob_bytes-to_blob_data_example =
    from_blob_bytes-to_blob_data clock (λ n. n + 10) (CodeRequirementExpression.notarized ∷ [])
      (1 ∷ 2 ∷ 3 ∷ []) (λ n. omega arith) (omega arith)
