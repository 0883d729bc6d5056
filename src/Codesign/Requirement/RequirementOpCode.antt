-- ===== src/Codesign/Requirement/RequirementOpCode.antt =====
-- `RequirementOpCode` of code_requirement.rs and its numbers.
use apple_platform_rs.Base.{
  ℕ, ◌==◌, if◌then◌else◌, ok, err, ◌≡◌, refl, ◌<◌, arith, Ends, value, error, Ends-if,
}
use apple_platform_rs.Codesign.Error.{Result, requirement_unknown_opcode}

pub data RequirementOpCode : Type 0 where
  false true identifier anchor_apple anchor_certificate_hash : RequirementOpCode
  info_key_value_legacy and or code_directory_hash not : RequirementOpCode
  info_plist_expression certificate_field certificate_trusted : RequirementOpCode
  anchor_trusted certificate_generic anchor_apple_generic : RequirementOpCode
  entitlements_field certificate_policy named_anchor named_code : RequirementOpCode
  platform notarized certificate_field_date legacy_developer_id : RequirementOpCode

unfoldable pub to_u32 : RequirementOpCode → ℕ
to_u32 RequirementOpCode.false = 0
to_u32 RequirementOpCode.true = 1
to_u32 identifier = 2
to_u32 anchor_apple = 3
to_u32 anchor_certificate_hash = 4
to_u32 info_key_value_legacy = 5
to_u32 and = 6
to_u32 or = 7
to_u32 code_directory_hash = 8
to_u32 not = 9
to_u32 info_plist_expression = 10
to_u32 certificate_field = 11
to_u32 certificate_trusted = 12
to_u32 anchor_trusted = 13
to_u32 certificate_generic = 14
to_u32 anchor_apple_generic = 15
to_u32 entitlements_field = 16
to_u32 certificate_policy = 17
to_u32 named_anchor = 18
to_u32 named_code = 19
to_u32 platform = 20
to_u32 notarized = 21
to_u32 certificate_field_date = 22
to_u32 legacy_developer_id = 23

unfoldable pub try_from : ℕ → Result RequirementOpCode
try_from v =
    if v == 0
    then ok RequirementOpCode.false
    else if v == 1
    then ok RequirementOpCode.true
    else if v == 2
    then ok identifier
    else if v == 3
    then ok anchor_apple
    else if v == 4
    then ok anchor_certificate_hash
    else if v == 5
    then ok info_key_value_legacy
    else if v == 6
    then ok and
    else if v == 7
    then ok or
    else if v == 8
    then ok code_directory_hash
    else if v == 9
    then ok not
    else if v == 10
    then ok info_plist_expression
    else if v == 11
    then ok certificate_field
    else if v == 12
    then ok certificate_trusted
    else if v == 13
    then ok anchor_trusted
    else if v == 14
    then ok certificate_generic
    else if v == 15
    then ok anchor_apple_generic
    else if v == 16
    then ok entitlements_field
    else if v == 17
    then ok certificate_policy
    else if v == 18
    then ok named_anchor
    else if v == 19
    then ok named_code
    else if v == 20
    then ok platform
    else if v == 21
    then ok notarized
    else if v == 22
    then ok certificate_field_date
    else if v == 23
    then ok legacy_developer_id
    else err (requirement_unknown_opcode v)

pub try_from-to_u32 : (op : RequirementOpCode) → try_from (to_u32 op) ≡ ok op
unfolding try_from to_u32
try_from-to_u32 RequirementOpCode.false = refl
try_from-to_u32 _ = refl

-- An opcode survives the masking of the flags.
pub to_u32-lt : (op : RequirementOpCode) → to_u32 op < 24
unfolding to_u32
to_u32-lt RequirementOpCode.false = omega arith
to_u32-lt _ = omega arith

-- A number is accepted only as the number of the opcode.
pub to_u32-try_from : (v : ℕ) (op : RequirementOpCode) → try_from v ≡ ok op → to_u32 op ≡ v
unfolding try_from to_u32
to_u32-try_from v op h = ground arith

pub try_from-Ends : (v : ℕ) → Ends (λ (_ : RequirementOpCode). Unit {0}) (try_from v)
unfolding try_from
try_from-Ends v = search (Ends-if, value, error, tt) depth 28
