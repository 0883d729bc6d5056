-- ===== src/Codesign/Requirement/Expression/Panics.antt =====
-- What the readers of code_requirement.rs do with data that is cut short, and with the padding of a
-- certificate hash.
use apple_platform_rs.Base.{
  ℕ, suc, ◌+◌, ◌*◌, ◌/◌, ◌-◌, ◌%◌, ◌^◌, ◌≡◌, ◌++◌, arith, leb, if◌then◌else◌, length, take, drop,
  Bytes, IsU32, ℤ, IsI32, u32_bytes, slice, slice_from, ok, panic, append_assoc,
  pread_u32-u32_bytes,
}
use apple_platform_rs.Codesign.Error.{Error}
use apple_platform_rs.Codesign.Requirement.Chrono.{Chrono}
use apple_platform_rs.Codesign.Requirement.Data.{
  align, read_data, write_data, padding, read_i32-write_i32,
}
use apple_platform_rs.Codesign.Requirement.Syntax.{CodeRequirementExpression, op_code}
use apple_platform_rs.Codesign.Requirement.Expression.RoundTrip.{
  from_bytes_opens, hash_length, hash_cut, hash_skipped,
}
use apple_platform_rs.Codesign.Requirement.Expression.{
  parse_payload, from_bytes, write_op, write_to,
}

-- The least multiple of four that is not below a length.
align_multiple : (n : ℕ) → align (4 + n) ≡ 4 + 4 * ((n + 3) / 4)
unfolding align
align_multiple n = ground arith

slice_body :
    (m n : ℕ) (body : Bytes)
    → slice {E = Error} 4 (4 + n) (u32_bytes m ++ body)
      ≡ (if leb n (length body) then ok (take n body) else panic)
unfolding slice u32_bytes
slice_body m n body = let width : 4 + n - 4 ≡ n = omega arith in rw width (ground arith)

slice_from_body :
    (m k : ℕ) (body : Bytes)
    → slice_from {E = Error} (4 + k) (u32_bytes m ++ body)
      ≡ (if leb k (length body) then ok (drop k body) else panic)
unfolding slice_from u32_bytes
slice_from_body m k body = rw four (ground arith)
  where
    four : 4 + k ≡ suc (suc (suc (suc k)))
    four = omega arith

-- On a length of 32 bits in front of a body, read_data returns that many bytes of the body and
-- what stands behind the least multiple of four that is not below the length, if the body is that
-- long, and otherwise panics: it never returns an error once the length was read.
pub read_data_outcome :
    (n : ℕ) (body : Bytes)
    → IsU32 n
    → read_data (u32_bytes n ++ body) ≡ (
        if leb (4 * ((n + 3) / 4)) (length body)
        then ok (take n body, drop (4 * ((n + 3) / 4)) body)
        else panic)
unfolding read_data
read_data_outcome n body h =
    rw (pread_u32-u32_bytes, small, slice_body, align_multiple, slice_from_body) (ground arith)
  where
    small : n % 2 ^ 32 ≡ n
    small = omega arith

module _ {T : Type 0} (chrono : Chrono T) where
  -- An anchor certificate hash that write_to writes is read back with its padding left over in
  -- front of the following bytes, for any slot and any hash whose length fits 32 bits.
  pub from_bytes-write_to_hash :
      (slot : ℤ) (hash rest : Bytes)
      → IsI32 slot
      → IsU32 (length hash)
      → let e : CodeRequirementExpression T =
          CodeRequirementExpression.anchor_certificate_hash slot hash in
        from_bytes chrono (write_to chrono e ++ rest) ≡ ok (e, padding (length hash) ++ rest)
  unfolding from_bytes parse_payload write_to write_op op_code
  from_bytes-write_to_hash slot hash rest i short = simp (
    append_assoc,
    from_bytes_opens chrono,
    read_i32-write_i32 slot (write_data hash ++ rest) i,
    hash_length slot hash rest short,
    hash_cut slot hash rest short,
    hash_skipped slot hash rest short,
  )
