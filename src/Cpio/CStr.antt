-- ===== src/Cpio/CStr.antt =====
-- `CStr::from_bytes_with_nul` and `to_string_lossy`.
use apple_platform_rs.Base.{
  ◌≢◌, ◌≡◌, refl, [], ◌∷◌, ◌++◌, Option, none, some, ◌==◌, if◌then◌else◌, Bytes, All, arith,
}
use mathlib.Core.Option

-- The bytes in front of the NUL, which must be the last byte and the only one.
unfoldable pub from_bytes_with_nul : Bytes → Option Bytes
from_bytes_with_nul [] = none
from_bytes_with_nul (b ∷ []) = if b == 0 then some [] else none
from_bytes_with_nul (b ∷ c ∷ rest) =
    let more = Option.map (λ s. b ∷ s) (from_bytes_with_nul (c ∷ rest)) in
    if b == 0 then none else more

pub from_bytes_with_nul-append :
    (s : Bytes) → All (λ b. b ≢ 0) s → from_bytes_with_nul (s ++ (0 ∷ [])) ≡ some s
unfolding from_bytes_with_nul
from_bytes_with_nul-append [] h = refl
from_bytes_with_nul-append (b ∷ []) h = ground (arith, h.0)
from_bytes_with_nul-append (b ∷ c ∷ s) h =
    ground (arith, h.0, from_bytes_with_nul-append (c ∷ s) h.1)
