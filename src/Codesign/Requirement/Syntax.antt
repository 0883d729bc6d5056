-- ===== src/Codesign/Requirement/Syntax.antt =====
-- `CodeRequirementMatchExpression` and `CodeRequirementExpression` of code_requirement.rs, with the
-- opcodes that they are written under. `T` is the type of instants; an OID is its bytes.
use apple_platform_rs.Base.{ℕ, ℤ, Bytes}
use apple_platform_rs.Codesign.Requirement.Data.{Text, CodeRequirementValue}
use apple_platform_rs.Codesign.Requirement.RequirementOpCode.{RequirementOpCode}
use apple_platform_rs.Codesign.Requirement.MatchType.{MatchType}

pub data CodeRequirementMatchExpression (T : Type 0) : Type 0 where
  exists : CodeRequirementMatchExpression T
  equal contains begins_with ends_with : CodeRequirementValue → CodeRequirementMatchExpression T
  less_than greater_than : CodeRequirementValue → CodeRequirementMatchExpression T
  less_than_equal greater_than_equal : CodeRequirementValue → CodeRequirementMatchExpression T
  on before after on_or_before on_or_after : T → CodeRequirementMatchExpression T
  absent : CodeRequirementMatchExpression T

pub data CodeRequirementExpression (T : Type 0) : Type 0 where
  false true : CodeRequirementExpression T
  identifier : Text → CodeRequirementExpression T
  anchor_apple : CodeRequirementExpression T
  anchor_certificate_hash : ℤ → Bytes → CodeRequirementExpression T
  info_key_value_legacy : Text → Text → CodeRequirementExpression T
  and or : CodeRequirementExpression T → CodeRequirementExpression T → CodeRequirementExpression T
  code_directory_hash : Bytes → CodeRequirementExpression T
  not : CodeRequirementExpression T → CodeRequirementExpression T
  info_plist_key_field : Text → CodeRequirementMatchExpression T → CodeRequirementExpression T
  certificate_field : ℤ → Text → CodeRequirementMatchExpression T → CodeRequirementExpression T
  certificate_trusted : ℤ → CodeRequirementExpression T
  anchor_trusted : CodeRequirementExpression T
  certificate_generic : ℤ → Bytes → CodeRequirementMatchExpression T → CodeRequirementExpression T
  anchor_apple_generic : CodeRequirementExpression T
  entitlements_key : Text → CodeRequirementMatchExpression T → CodeRequirementExpression T
  certificate_policy : ℤ → Bytes → CodeRequirementMatchExpression T → CodeRequirementExpression T
  named_anchor named_code : Text → CodeRequirementExpression T
  platform : ℕ → CodeRequirementExpression T
  notarized : CodeRequirementExpression T
  certificate_field_date :
      ℤ → Bytes → CodeRequirementMatchExpression T → CodeRequirementExpression T
  legacy_developer_id : CodeRequirementExpression T

module _ {T : Type 0} where
  -- `MatchType::from(&CodeRequirementMatchExpression)`
  unfoldable pub match_type : CodeRequirementMatchExpression T → MatchType
  match_type exists = MatchType.exists
  match_type (equal _) = MatchType.equal
  match_type (contains _) = MatchType.contains
  match_type (begins_with _) = MatchType.begins_with
  match_type (ends_with _) = MatchType.ends_with
  match_type (less_than _) = MatchType.less_than
  match_type (greater_than _) = MatchType.greater_than
  match_type (less_than_equal _) = MatchType.less_than_equal
  match_type (greater_than_equal _) = MatchType.greater_than_equal
  match_type (on _) = MatchType.on
  match_type (before _) = MatchType.before
  match_type (after _) = MatchType.after
  match_type (on_or_before _) = MatchType.on_or_before
  match_type (on_or_after _) = MatchType.on_or_after
  match_type absent = MatchType.absent

  -- `RequirementOpCode::from(&CodeRequirementExpression)`
  unfoldable pub op_code : CodeRequirementExpression T → RequirementOpCode
  op_code CodeRequirementExpression.false = RequirementOpCode.false
  op_code CodeRequirementExpression.true = RequirementOpCode.true
  op_code (identifier _) = RequirementOpCode.identifier
  op_code anchor_apple = RequirementOpCode.anchor_apple
  op_code (anchor_certificate_hash _ _) = RequirementOpCode.anchor_certificate_hash
  op_code (info_key_value_legacy _ _) = RequirementOpCode.info_key_value_legacy
  op_code (and _ _) = RequirementOpCode.and
  op_code (or _ _) = RequirementOpCode.or
  op_code (code_directory_hash _) = RequirementOpCode.code_directory_hash
  op_code (not _) = RequirementOpCode.not
  op_code (info_plist_key_field _ _) = RequirementOpCode.info_plist_expression
  op_code (certificate_field _ _ _) = RequirementOpCode.certificate_field
  op_code (certificate_trusted _) = RequirementOpCode.certificate_trusted
  op_code anchor_trusted = RequirementOpCode.anchor_trusted
  op_code (certificate_generic _ _ _) = RequirementOpCode.certificate_generic
  op_code anchor_apple_generic = RequirementOpCode.anchor_apple_generic
  op_code (entitlements_key _ _) = RequirementOpCode.entitlements_field
  op_code (certificate_policy _ _ _) = RequirementOpCode.certificate_policy
  op_code (named_anchor _) = RequirementOpCode.named_anchor
  op_code (named_code _) = RequirementOpCode.named_code
  op_code (platform _) = RequirementOpCode.platform
  op_code notarized = RequirementOpCode.notarized
  op_code (certificate_field_date _ _ _) = RequirementOpCode.certificate_field_date
  op_code legacy_developer_id = RequirementOpCode.legacy_developer_id
