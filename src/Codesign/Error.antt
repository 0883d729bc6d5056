-- ===== src/Codesign/Error.antt =====
-- apple-codesign/src/error.rs: the variants of `AppleCodesignError` that the modelled code returns.
use apple_platform_rs.Base.Fallible.{Outcome}
use apple_platform_rs.Base.{ℕ, String}

-- `scroll` is a read past the end of a buffer.
pub data Error : Type 0 where
  scroll superblob_malformed binary_no_code_directory bad_time : Error
  digest_unknown_algorithm digest_unsupported_algorithm : Error
  code_directory_malformed_identifier code_directory_malformed_team : Error
  entitlements_bad_utf8 : Error
  bad_magic : String → Error
  requirement_malformed : String → Error
  requirement_unknown_opcode : ℕ → Error
  requirement_unknown_match_expression : ℕ → Error
  logic_error : String → Error
  unimplemented : String → Error
  signature_builder : String → Error

abbrev pub Result {ℓ} : Type ℓ → Type ℓ
Result A = Outcome Error A
