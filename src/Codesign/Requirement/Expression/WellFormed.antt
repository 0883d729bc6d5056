-- ===== src/Codesign/Requirement/Expression/WellFormed.antt =====
-- The expressions that the binary form of code_requirement.rs can carry.
use apple_platform_rs.Base.{◌%◌, ◌≡◌, IsU32, IsI32, length, true, is_utf8}
use apple_platform_rs.Codesign.Requirement.Chrono.{Chrono}
use apple_platform_rs.Codesign.Requirement.Data.{Text}
use apple_platform_rs.Codesign.Requirement.Syntax.{CodeRequirementExpression}
use apple_platform_rs.Codesign.Requirement.Match.RoundTrip.{IsWritable}

abbrev pub IsText : Text → Type 0
IsText s = IsU32 (length s) × (is_utf8 s ≡ true)

module _ {T : Type 0} (chrono : Chrono T) where
  -- Lengths and numbers fit their fields, texts are UTF-8, values and instants are canonical.
  abbrev pub IsWellFormed : CodeRequirementExpression T → Type 0
  IsWellFormed CodeRequirementExpression.false = Unit {0}
  IsWellFormed CodeRequirementExpression.true = Unit {0}
  IsWellFormed (CodeRequirementExpression.identifier s) = IsText s
  IsWellFormed CodeRequirementExpression.anchor_apple = Unit {0}
  IsWellFormed (CodeRequirementExpression.anchor_certificate_hash slot hash) =
      IsI32 slot × IsU32 (length hash)
  IsWellFormed (CodeRequirementExpression.info_key_value_legacy key value) =
      IsText key × IsText value
  IsWellFormed (CodeRequirementExpression.and a b) = IsWellFormed a × IsWellFormed b
  IsWellFormed (CodeRequirementExpression.or a b) = IsWellFormed a × IsWellFormed b
  IsWellFormed (CodeRequirementExpression.code_directory_hash hash) = IsU32 (length hash)
  IsWellFormed (CodeRequirementExpression.not expr) = IsWellFormed expr
  IsWellFormed (CodeRequirementExpression.info_plist_key_field key m) =
      IsText key × IsWritable chrono m
  IsWellFormed (CodeRequirementExpression.certificate_field slot field m) =
      IsI32 slot × IsText field × IsWritable chrono m
  IsWellFormed (CodeRequirementExpression.certificate_trusted slot) = IsI32 slot
  IsWellFormed CodeRequirementExpression.anchor_trusted = Unit {0}
  IsWellFormed (CodeRequirementExpression.certificate_generic slot oid m) =
      IsI32 slot × IsU32 (length oid) × IsWritable chrono m
  IsWellFormed CodeRequirementExpression.anchor_apple_generic = Unit {0}
  IsWellFormed (CodeRequirementExpression.entitlements_key key m) = IsText key × IsWritable chrono m
  IsWellFormed (CodeRequirementExpression.certificate_policy slot oid m) =
      IsI32 slot × IsU32 (length oid) × IsWritable chrono m
  IsWellFormed (CodeRequirementExpression.named_anchor name) = IsText name
  IsWellFormed (CodeRequirementExpression.named_code name) = IsText name
  IsWellFormed (CodeRequirementExpression.platform value) = IsU32 value
  IsWellFormed CodeRequirementExpression.notarized = Unit {0}
  IsWellFormed (CodeRequirementExpression.certificate_field_date slot oid m) =
      IsI32 slot × IsU32 (length oid) × IsWritable chrono m
  IsWellFormed CodeRequirementExpression.legacy_developer_id = Unit {0}

-- No certificate hash of the expression needs padding (SHA-1 and SHA-256 hashes need none).
abbrev pub IsAligned : {T : Type 0} → CodeRequirementExpression T → Type 0
IsAligned (CodeRequirementExpression.anchor_certificate_hash slot hash) = length hash % 4 ≡ 0
IsAligned (CodeRequirementExpression.and a b) = IsAligned a × IsAligned b
IsAligned (CodeRequirementExpression.or a b) = IsAligned a × IsAligned b
IsAligned (CodeRequirementExpression.not a) = IsAligned a
IsAligned _ = Unit {0}
