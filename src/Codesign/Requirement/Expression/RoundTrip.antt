-- ===== src/Codesign/Requirement/Expression/RoundTrip.antt =====
-- Round trip of `CodeRequirementExpression`, code_requirement.rs.
use apple_platform_rs.Base.{
  ℕ, zero, suc, ◌+◌, ◌%◌, ◌^◌, ◌<◌, ◌≤◌, max, ◌≡◌, refl, ap, [], ◌++◌, arith, ok, Bytes, IsU32,
  u32_bytes, pread_u32, slice, slice_from, ℤ, length, String, pread_u32-u32_bytes, slice_from_u32,
  append_assoc, slice_from-append, slice-append, length-append, pread_u32-u32_bytes_next,
}
use apple_platform_rs.Codesign.Error.{Error, scroll}
use apple_platform_rs.Codesign.Requirement.Chrono.{Chrono}
use apple_platform_rs.Codesign.Requirement.Data.{
  Text, write_data, write_i32, from_utf8, read_data-write_data, read_i32-write_i32, padding,
}
use apple_platform_rs.Codesign.Requirement.RequirementOpCode
use apple_platform_rs.Codesign.Requirement.RequirementOpCode.{RequirementOpCode}
use apple_platform_rs.Codesign.Requirement.Syntax.{
  CodeRequirementExpression, CodeRequirementMatchExpression, op_code,
}
use apple_platform_rs.Codesign.Requirement.Match
use apple_platform_rs.Codesign.Requirement.Match.RoundTrip as MatchRoundTrip
use apple_platform_rs.Codesign.Requirement.Expression.WellFormed.{IsText, IsWellFormed, IsAligned}
use apple_platform_rs.Codesign.Requirement.Expression.{
  read_text, parse_payload, from_bytes_fuel, from_bytes, write_op, write_to,
}

module _ {T : Type 0} (chrono : Chrono T) where
  -- How deep the calls of `from_bytes` nest.
  pub depth : CodeRequirementExpression T → ℕ
  depth (CodeRequirementExpression.and a b) = suc (max (depth a) (depth b))
  depth (CodeRequirementExpression.or a b) = suc (max (depth a) (depth b))
  depth (CodeRequirementExpression.not a) = suc (depth a)
  depth _ = 1

  pub from_bytes_opens :
      (fuel : ℕ) (op : RequirementOpCode) (payload : Bytes)
      → from_bytes_fuel chrono (suc fuel) (u32_bytes (RequirementOpCode.to_u32 op) ++ payload)
        ≡ parse_payload chrono (from_bytes_fuel chrono fuel) op payload
  unfolding from_bytes_fuel
  from_bytes_opens fuel op payload =
      rw (pread_u32-u32_bytes, slice_from_u32, small, RequirementOpCode.try_from-to_u32)
    where
      small : RequirementOpCode.to_u32 op % 2 ^ 32 % 2 ^ 24 ≡ RequirementOpCode.to_u32 op
      small = omega (arith, RequirementOpCode.to_u32-lt op)

read_text-write_data :
    (what : String) (s : Text) (rest : Bytes)
    → IsText s
    → read_text what (write_data s ++ rest) ≡ ok (s, rest)
unfolding read_text from_utf8
read_text-write_data what s rest (short, text) = rw (read_data-write_data s rest short, text)

slot_skipped :
    (slot : ℤ) (rest : Bytes) → slice_from {E = Error} 4 (write_i32 slot ++ rest) ≡ ok rest
unfolding write_i32
slot_skipped slot rest = slice_from_u32 _ rest

-- The arm that looks into its data by offsets, and leaves the padding.
module _ (slot : ℤ) (hash rest : Bytes) (short : IsU32 (length hash)) where
  head_bytes : Bytes
  head_bytes = write_i32 slot ++ u32_bytes (length hash)

  regroup :
      write_i32 slot ++ (write_data hash ++ rest)
      ≡ head_bytes ++ (hash ++ (padding (length hash) ++ rest))
  unfolding head_bytes write_data
  regroup = simp append_assoc

  head_width : length head_bytes ≡ 8
  unfolding head_bytes write_i32 u32_bytes
  head_width = refl

  pub hash_length :
      pread_u32 scroll (write_i32 slot ++ (write_data hash ++ rest)) 4 ≡ ok (length hash)
  unfolding write_i32 write_data
  hash_length = rw (append_assoc, pread_u32-u32_bytes_next) (ap ok (omega arith))

  pub hash_cut :
      slice {E = Error} 8 (8 + length hash) (write_i32 slot ++ (write_data hash ++ rest)) ≡ ok hash
  hash_cut = rw regroup (slice-append 8 _ _ hash _ head_width refl)

  pub hash_skipped :
      slice_from {E = Error} (8 + length hash) (write_i32 slot ++ (write_data hash ++ rest))
      ≡ ok (padding (length hash) ++ rest)
  hash_skipped = rw (regroup, ← append_assoc head_bytes hash _) (slice_from-append _ _ _ width)
    where
      width : length (head_bytes ++ hash) ≡ 8 + length hash
      width = omega (arith, head_width, length-append head_bytes hash)

no_padding : (n : ℕ) → n % 4 ≡ 0 → padding n ≡ []
unfolding padding
no_padding n even = rw even

word : (n : ℕ) → IsU32 n → n % 2 ^ 32 ≡ n
word n h = omega arith

module _ {T : Type 0} (chrono : Chrono T) where
  match_reads :
      (m : CodeRequirementMatchExpression T) (rest : Bytes)
      → MatchRoundTrip.IsWritable chrono m
      → Match.from_bytes chrono (Match.write_to chrono m ++ rest) ≡ ok (m, rest)
  match_reads = MatchRoundTrip.from_bytes-write_to chrono

  depth_pos : (e : CodeRequirementExpression T) → 0 < depth chrono e
  unfolding depth
  depth_pos CodeRequirementExpression.false = omega arith
  depth_pos _ = omega arith

  pub from_bytes_fuel-write_to :
      (fuel : ℕ) (e : CodeRequirementExpression T) (rest : Bytes)
      → depth chrono e ≤ fuel
      → IsWellFormed chrono e
      → IsAligned e
      → from_bytes_fuel chrono fuel (write_to chrono e ++ rest) ≡ ok (e, rest)
  unfolding parse_payload write_to write_op op_code depth
  from_bytes_fuel-write_to zero e rest d h g = absurd (omega (arith, depth_pos e))
  from_bytes_fuel-write_to (suc f) CodeRequirementExpression.false rest d h g =
      simp (from_bytes_opens chrono)
  from_bytes_fuel-write_to (suc f) CodeRequirementExpression.true rest d h g =
      simp (from_bytes_opens chrono)
  from_bytes_fuel-write_to (suc f) (CodeRequirementExpression.identifier s) rest d h g =
      simp (append_assoc, from_bytes_opens chrono, read_text-write_data _ s rest h)
  from_bytes_fuel-write_to (suc f) CodeRequirementExpression.anchor_apple rest d h g =
      simp (from_bytes_opens chrono)
  from_bytes_fuel-write_to (suc f) (CodeRequirementExpression.anchor_certificate_hash slot hash)
        rest d h g =
      simp (
        append_assoc,
        from_bytes_opens chrono,
        read_i32-write_i32 slot (write_data hash ++ rest) h.0,
        hash_length slot hash rest h.1,
        hash_cut slot hash rest h.1,
        hash_skipped slot hash rest h.1,
        no_padding (length hash) g,
      )
  from_bytes_fuel-write_to (suc f) (CodeRequirementExpression.info_key_value_legacy key value) rest
        d h g =
      simp (
        append_assoc,
        from_bytes_opens chrono,
        read_text-write_data _ key (write_data value ++ rest) h.0,
        read_text-write_data _ value rest h.1,
      )
  from_bytes_fuel-write_to (suc f) (CodeRequirementExpression.and a b) rest d h g = simp (
    append_assoc,
    from_bytes_opens chrono,
    from_bytes_fuel-write_to f a (write_to chrono b ++ rest) (omega arith) h.0 g.0,
    from_bytes_fuel-write_to f b rest (omega arith) h.1 g.1,
  )
  from_bytes_fuel-write_to (suc f) (CodeRequirementExpression.or a b) rest d h g = simp (
    append_assoc,
    from_bytes_opens chrono,
    from_bytes_fuel-write_to f a (write_to chrono b ++ rest) (omega arith) h.0 g.0,
    from_bytes_fuel-write_to f b rest (omega arith) h.1 g.1,
  )
  from_bytes_fuel-write_to (suc f) (CodeRequirementExpression.code_directory_hash hash) rest d h g =
      simp (append_assoc, from_bytes_opens chrono, read_data-write_data hash rest h)
  from_bytes_fuel-write_to (suc f) (CodeRequirementExpression.not a) rest d h g =
      simp
        (append_assoc, from_bytes_opens chrono, from_bytes_fuel-write_to f a rest (omega arith) h g)
  from_bytes_fuel-write_to (suc f) (CodeRequirementExpression.info_plist_key_field key m) rest d h
        g =
      simp (
        append_assoc,
        from_bytes_opens chrono,
        read_text-write_data _ key (Match.write_to chrono m ++ rest) h.0,
        match_reads m rest h.1,
      )
  from_bytes_fuel-write_to (suc f) (CodeRequirementExpression.certificate_field slot field m) rest d
        h g =
      simp (
        append_assoc,
        from_bytes_opens chrono,
        read_i32-write_i32 slot (write_data field ++ (Match.write_to chrono m ++ rest)) h.0,
        slot_skipped slot (write_data field ++ (Match.write_to chrono m ++ rest)),
        read_text-write_data _ field (Match.write_to chrono m ++ rest) h.1,
        match_reads m rest h.2,
      )
  from_bytes_fuel-write_to (suc f) (CodeRequirementExpression.certificate_trusted slot) rest d h g =
      simp (
        append_assoc,
        from_bytes_opens chrono,
        read_i32-write_i32 slot rest h,
        slot_skipped slot rest,
      )
  from_bytes_fuel-write_to (suc f) CodeRequirementExpression.anchor_trusted rest d h g =
      simp (from_bytes_opens chrono)
  from_bytes_fuel-write_to (suc f) (CodeRequirementExpression.certificate_generic slot oid m) rest d
        h g =
      simp (
        append_assoc,
        from_bytes_opens chrono,
        read_i32-write_i32 slot (write_data oid ++ (Match.write_to chrono m ++ rest)) h.0,
        slot_skipped slot (write_data oid ++ (Match.write_to chrono m ++ rest)),
        read_data-write_data oid (Match.write_to chrono m ++ rest) h.1,
        match_reads m rest h.2,
      )
  from_bytes_fuel-write_to (suc f) CodeRequirementExpression.anchor_apple_generic rest d h g =
      simp (from_bytes_opens chrono)
  from_bytes_fuel-write_to (suc f) (CodeRequirementExpression.entitlements_key key m) rest d h g =
      simp (
        append_assoc,
        from_bytes_opens chrono,
        read_text-write_data _ key (Match.write_to chrono m ++ rest) h.0,
        match_reads m rest h.1,
      )
  from_bytes_fuel-write_to (suc f) (CodeRequirementExpression.certificate_policy slot oid m) rest d
        h g =
      simp (
        append_assoc,
        from_bytes_opens chrono,
        read_i32-write_i32 slot (write_data oid ++ (Match.write_to chrono m ++ rest)) h.0,
        slot_skipped slot (write_data oid ++ (Match.write_to chrono m ++ rest)),
        read_data-write_data oid (Match.write_to chrono m ++ rest) h.1,
        match_reads m rest h.2,
      )
  from_bytes_fuel-write_to (suc f) (CodeRequirementExpression.named_anchor name) rest d h g =
      simp (append_assoc, from_bytes_opens chrono, read_text-write_data _ name rest h)
  from_bytes_fuel-write_to (suc f) (CodeRequirementExpression.named_code name) rest d h g =
      simp (append_assoc, from_bytes_opens chrono, read_text-write_data _ name rest h)
  from_bytes_fuel-write_to (suc f) (CodeRequirementExpression.platform value) rest d h g =
      simp
        (append_assoc, from_bytes_opens chrono, pread_u32-u32_bytes, word value h, slice_from_u32)
  from_bytes_fuel-write_to (suc f) CodeRequirementExpression.notarized rest d h g =
      simp (from_bytes_opens chrono)
  from_bytes_fuel-write_to (suc f) (CodeRequirementExpression.certificate_field_date slot oid m)
        rest d h g =
      simp (
        append_assoc,
        from_bytes_opens chrono,
        read_i32-write_i32 slot (write_data oid ++ (Match.write_to chrono m ++ rest)) h.0,
        slot_skipped slot (write_data oid ++ (Match.write_to chrono m ++ rest)),
        read_data-write_data oid (Match.write_to chrono m ++ rest) h.1,
        match_reads m rest h.2,
      )
  from_bytes_fuel-write_to (suc f) CodeRequirementExpression.legacy_developer_id rest d h g =
      simp (from_bytes_opens chrono)

  depth-le : (e : CodeRequirementExpression T) → depth chrono e ≤ length (write_to chrono e)
  unfolding depth write_to write_op u32_bytes
  depth-le (CodeRequirementExpression.and a b) =
      omega (arith, depth-le a, depth-le b, length-append (write_to chrono a) (write_to chrono b))
  depth-le (CodeRequirementExpression.or a b) =
      omega (arith, depth-le a, depth-le b, length-append (write_to chrono a) (write_to chrono b))
  depth-le (CodeRequirementExpression.not a) = omega (arith, depth-le a)
  depth-le e = omega arith

  -- A requirement expression that write_to writes is read back by from_bytes, with the bytes
  -- behind it left over, provided it is well formed (its texts are UTF-8, its byte strings, slots
  -- and numbers fit their fields, its match values are what the reader makes of their bytes, and
  -- its instants are whole seconds), and no anchor certificate hash in it has a length that is not
  -- a multiple of four.
  pub from_bytes-write_to :
      (e : CodeRequirementExpression T) (rest : Bytes)
      → IsWellFormed chrono e
      → IsAligned e
      → from_bytes chrono (write_to chrono e ++ rest) ≡ ok (e, rest)
  unfolding from_bytes
  from_bytes-write_to e rest h g =
      from_bytes_fuel-write_to _ e rest
        (omega (arith, depth-le e, length-append (write_to chrono e) rest)) h g
