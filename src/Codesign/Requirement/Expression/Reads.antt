-- ===== src/Codesign/Requirement/Expression/Reads.antt =====
-- What `CodeRequirementExpression::from_bytes` gives on any bytes.
use apple_platform_rs.Base.{
  ℕ, zero, suc, ◌+◌, ◌%◌, ◌^◌, ◌≤◌, ◌<◌, ◌≡◌, ◌≢◌, ok, stuck, arith, length, All, Bytes, IsByte,
  Ends, value, Ends-bind, Ends-map, Ends-ok, Ends-ne-stuck, pread_u32-Ends, slice-Ends,
  slice_from-Ends, String, ◌++◌,
}
use apple_platform_rs.Codesign.Error.{Result, scroll}
use apple_platform_rs.Codesign.Requirement.Chrono.{Chrono}
use apple_platform_rs.Codesign.Requirement.Data.Reads.{
  read_data-Ends, read_i32-Ends, from_utf8-Ends,
}
use apple_platform_rs.Codesign.Requirement.RequirementOpCode
use apple_platform_rs.Codesign.Requirement.RequirementOpCode.{RequirementOpCode}
use apple_platform_rs.Codesign.Requirement.Syntax.{CodeRequirementExpression}
use apple_platform_rs.Codesign.Requirement.Match.Reads as MatchReads
use apple_platform_rs.Codesign.Requirement.Expression.{
  read_text, parse_payload, from_bytes_fuel, from_bytes, write_to,
}
use apple_platform_rs.Codesign.Requirement.Expression.WellFormed.{IsText, IsWellFormed, IsAligned}
use apple_platform_rs.Codesign.Requirement.Expression.RoundTrip.{from_bytes-write_to}

read_text-Ends :
    (what : String) (data' : Bytes)
    → All IsByte data'
    → Ends
        (λ (s, rest). IsText s × All IsByte rest × (length rest + 4 ≤ length data'))
        (read_text what data')
unfolding read_text
read_text-Ends what data' h = Ends-bind (read_data-Ends data' h) λ (v, rest) (short, kept, left).
    Ends-bind (from_utf8-Ends what v) λ s (same, text). value ((rw same short, text), kept, left)

module _ {T : Type 0} (chrono : Chrono T) where
  -- The result is well formed, and at least so many bytes fewer are left.
  abbrev pub IsRead : ℕ → Bytes → CodeRequirementExpression T × Bytes → Type 0
  IsRead n data' r = IsWellFormed chrono r.0 × All IsByte r.1 × (length r.1 + n ≤ length data')

  -- `parse` reads nested expressions from data no longer than `bound`.
  abbrev ReadsBelow : ℕ → (Bytes → Result (CodeRequirementExpression T × Bytes)) → Type 0
  ReadsBelow bound parse =
      (data' : Bytes)
      → All IsByte data'
      → length data' ≤ bound
      → Ends (IsRead 4 data') (parse data')

  parse_payload-Ends :
      (parse : Bytes → Result (CodeRequirementExpression T × Bytes)) (op : RequirementOpCode)
      (data' : Bytes)
      → All IsByte data'
      → ReadsBelow (length data') parse
      → Ends (IsRead 0 data') (parse_payload chrono parse op data')
  unfolding parse_payload
  parse_payload-Ends parse RequirementOpCode.false data' h r = value (tt, h, omega arith)
  parse_payload-Ends parse RequirementOpCode.true data' h r = value (tt, h, omega arith)
  parse_payload-Ends parse RequirementOpCode.identifier data' h r =
      Ends-bind (read_text-Ends _ data' h)
        λ (s, rest) (text, kept, left). value (text, kept, omega arith)
  parse_payload-Ends parse RequirementOpCode.anchor_apple data' h r = value (tt, h, omega arith)
  parse_payload-Ends parse RequirementOpCode.anchor_certificate_hash data' h r =
      Ends-bind (read_i32-Ends data' h) λ slot fits.
        Ends-bind (pread_u32-Ends scroll data' h 4) λ len small.
          Ends-bind (slice-Ends data' h 8 (8 + len)) λ digest (_, width).
            Ends-bind (slice_from-Ends data' h (8 + len))
              λ rest (kept, left). value ((fits, omega arith), kept, omega arith)
  parse_payload-Ends parse RequirementOpCode.info_key_value_legacy data' h r =
      Ends-bind (read_text-Ends _ data' h) λ (key, rest) (text, kept, left).
        Ends-bind (read_text-Ends _ rest kept)
          λ (val, rest') (text', kept', left'). value ((text, text'), kept', omega arith)
  parse_payload-Ends parse RequirementOpCode.and data' h r =
      Ends-bind (r data' h (omega arith)) λ (a, rest) (good, kept, left).
        Ends-bind (r rest kept (omega arith))
          λ (b, rest') (good', kept', left'). value ((good, good'), kept', omega arith)
  parse_payload-Ends parse RequirementOpCode.or data' h r =
      Ends-bind (r data' h (omega arith)) λ (a, rest) (good, kept, left).
        Ends-bind (r rest kept (omega arith))
          λ (b, rest') (good', kept', left'). value ((good, good'), kept', omega arith)
  parse_payload-Ends parse RequirementOpCode.code_directory_hash data' h r =
      Ends-bind (read_data-Ends data' h)
        λ (hash, rest) (short, kept, left). value (short, kept, omega arith)
  parse_payload-Ends parse RequirementOpCode.not data' h r =
      Ends-bind (r data' h (omega arith))
        λ (a, rest) (good, kept, left). value (good, kept, omega arith)
  parse_payload-Ends parse RequirementOpCode.info_plist_expression data' h r =
      Ends-bind (read_text-Ends _ data' h) λ (key, rest) (text, kept, left).
        Ends-bind (MatchReads.from_bytes-Ends chrono rest kept)
          λ (m, rest') (good, kept', left'). value ((text, good), kept', omega arith)
  parse_payload-Ends parse RequirementOpCode.certificate_field data' h r =
      Ends-bind (read_i32-Ends data' h) λ slot fits.
        Ends-bind (slice_from-Ends data' h 4) λ tail (kept, left).
          Ends-bind (read_text-Ends _ tail kept) λ (part, rest) (good, kept', left').
            Ends-bind (MatchReads.from_bytes-Ends chrono rest kept')
              λ (m, rest') (good', kept'', left''). value ((fits, good, good'), kept'', omega arith)
  parse_payload-Ends parse RequirementOpCode.certificate_trusted data' h r =
      Ends-bind (read_i32-Ends data' h) λ slot fits.
        Ends-bind (slice_from-Ends data' h 4) λ rest (kept, left). value (fits, kept, omega arith)
  parse_payload-Ends parse RequirementOpCode.anchor_trusted data' h r = value (tt, h, omega arith)
  parse_payload-Ends parse RequirementOpCode.certificate_generic data' h r =
      Ends-bind (read_i32-Ends data' h) λ slot fits.
        Ends-bind (slice_from-Ends data' h 4) λ tail (kept, left).
          Ends-bind (read_data-Ends tail kept) λ (part, rest) (good, kept', left').
            Ends-bind (MatchReads.from_bytes-Ends chrono rest kept')
              λ (m, rest') (good', kept'', left''). value ((fits, good, good'), kept'', omega arith)
  parse_payload-Ends parse RequirementOpCode.anchor_apple_generic data' h r =
      value (tt, h, omega arith)
  parse_payload-Ends parse RequirementOpCode.entitlements_field data' h r =
      Ends-bind (read_text-Ends _ data' h) λ (key, rest) (text, kept, left).
        Ends-bind (MatchReads.from_bytes-Ends chrono rest kept)
          λ (m, rest') (good, kept', left'). value ((text, good), kept', omega arith)
  parse_payload-Ends parse RequirementOpCode.certificate_policy data' h r =
      Ends-bind (read_i32-Ends data' h) λ slot fits.
        Ends-bind (slice_from-Ends data' h 4) λ tail (kept, left).
          Ends-bind (read_data-Ends tail kept) λ (part, rest) (good, kept', left').
            Ends-bind (MatchReads.from_bytes-Ends chrono rest kept')
              λ (m, rest') (good', kept'', left''). value ((fits, good, good'), kept'', omega arith)
  parse_payload-Ends parse RequirementOpCode.named_anchor data' h r =
      Ends-bind (read_text-Ends _ data' h)
        λ (s, rest) (text, kept, left). value (text, kept, omega arith)
  parse_payload-Ends parse RequirementOpCode.named_code data' h r =
      Ends-bind (read_text-Ends _ data' h)
        λ (s, rest) (text, kept, left). value (text, kept, omega arith)
  parse_payload-Ends parse RequirementOpCode.platform data' h r =
      Ends-bind (pread_u32-Ends scroll data' h 0) λ n small.
        Ends-bind (slice_from-Ends data' h 4) λ rest (kept, left). value (small, kept, omega arith)
  parse_payload-Ends parse RequirementOpCode.notarized data' h r = value (tt, h, omega arith)
  parse_payload-Ends parse RequirementOpCode.certificate_field_date data' h r =
      Ends-bind (read_i32-Ends data' h) λ slot fits.
        Ends-bind (slice_from-Ends data' h 4) λ tail (kept, left).
          Ends-bind (read_data-Ends tail kept) λ (part, rest) (good, kept', left').
            Ends-bind (MatchReads.from_bytes-Ends chrono rest kept')
              λ (m, rest') (good', kept'', left''). value ((fits, good, good'), kept'', omega arith)
  parse_payload-Ends parse RequirementOpCode.legacy_developer_id data' h r =
      value (tt, h, omega arith)

  pub from_bytes_fuel-Ends :
      (fuel : ℕ) (data' : Bytes)
      → All IsByte data'
      → length data' < fuel
      → Ends (IsRead 4 data') (from_bytes_fuel chrono fuel data')
  unfolding from_bytes_fuel
  from_bytes_fuel-Ends zero data' h d = absurd (omega arith)
  from_bytes_fuel-Ends (suc fuel) data' h d = Ends-bind (pread_u32-Ends scroll data' h 0) λ raw _.
      Ends-bind (slice_from-Ends data' h 4) λ payload (kept, left).
        Ends-bind (RequirementOpCode.try_from-Ends (raw % 2 ^ 24)) λ op _.
          Ends-map
            (parse_payload-Ends _ op payload kept
              (λ part all' short. from_bytes_fuel-Ends fuel part all' (omega arith)))
            λ (e, rest) (good, kept', left'). (good, kept', omega arith)

  pub from_bytes-Ends :
      (data' : Bytes) → All IsByte data' → Ends (IsRead 4 data') (from_bytes chrono data')
  unfolding from_bytes
  from_bytes-Ends data' h = from_bytes_fuel-Ends _ data' h (omega arith)

  -- On any bytes, CodeRequirementExpression::from_bytes comes to an end: nesting no deeper than
  -- the length of the data is enough.
  pub from_bytes-ne-stuck : (data' : Bytes) → All IsByte data' → from_bytes chrono data' ≢ stuck
  from_bytes-ne-stuck data' h = Ends-ne-stuck (from_bytes-Ends data' h)

  -- Whatever bytes CodeRequirementExpression::from_bytes accepts, the expression it gives is well
  -- formed (its texts are UTF-8, its byte strings, slots and numbers fit their fields, its match
  -- values are what the reader makes of their bytes, and its instants are whole seconds), and what
  -- is left are bytes, at least four fewer than before.
  pub from_bytes_sound :
      (data' rest : Bytes) (e : CodeRequirementExpression T)
      → All IsByte data'
      → from_bytes chrono data' ≡ ok (e, rest)
      → IsWellFormed chrono e × All IsByte rest × (length rest + 4 ≤ length data')
  from_bytes_sound data' rest e h p = Ends-ok (from_bytes-Ends data' h) p

  -- Whatever bytes CodeRequirementExpression::from_bytes accepts, writing the expression and
  -- reading it again gives the same expression, unless an anchor certificate hash in it has a
  -- length that is not a multiple of four.
  pub from_bytes_normalises :
      (data' rest more : Bytes) (e : CodeRequirementExpression T)
      → All IsByte data'
      → IsAligned e
      → from_bytes chrono data' ≡ ok (e, rest)
      → from_bytes chrono (write_to chrono e ++ more) ≡ ok (e, more)
  from_bytes_normalises data' rest more e h g p =
      from_bytes-write_to chrono e more (from_bytes_sound data' rest e h p).0 g
