-- ===== src/Codesign/Blob/CodeSigningMagic.antt =====
-- `CodeSigningMagic` of embedded_signature.rs and its numbers.
use apple_platform_rs.Base.{ℕ, ◌≡◌, ◌==◌, if◌then◌else◌, arith}

pub data CodeSigningMagic : Type 0 where
  requirement requirement_set code_directory embedded_signature : CodeSigningMagic
  embedded_signature_old entitlements entitlements_der environment_contraints_der : CodeSigningMagic
  detached_signature blob_wrapper : CodeSigningMagic
  unknown : ℕ → CodeSigningMagic

unfoldable pub from_u32 : ℕ → CodeSigningMagic
from_u32 v =
    if v == 0xfade0c00
    then requirement
    else if v == 0xfade0c01
    then requirement_set
    else if v == 0xfade0c02
    then code_directory
    else if v == 0xfade0cc0
    then embedded_signature
    else if v == 0xfade0b02
    then embedded_signature_old
    else if v == 0xfade7171
    then entitlements
    else if v == 0xfade7172
    then entitlements_der
    else if v == 0xfade8181
    then environment_contraints_der
    else if v == 0xfade0cc1
    then detached_signature
    else if v == 0xfade0b01
    then blob_wrapper
    else unknown v

unfoldable pub to_u32 : CodeSigningMagic → ℕ
to_u32 requirement = 0xfade0c00
to_u32 requirement_set = 0xfade0c01
to_u32 code_directory = 0xfade0c02
to_u32 embedded_signature = 0xfade0cc0
to_u32 embedded_signature_old = 0xfade0b02
to_u32 entitlements = 0xfade7171
to_u32 entitlements_der = 0xfade7172
to_u32 environment_contraints_der = 0xfade8181
to_u32 detached_signature = 0xfade0cc1
to_u32 blob_wrapper = 0xfade0b01
to_u32 (unknown v) = v

-- No number is lost in the enumeration.
pub to_u32-from_u32 : (v : ℕ) → to_u32 (from_u32 v) ≡ v
unfolding to_u32 from_u32
to_u32-from_u32 v = ground arith
