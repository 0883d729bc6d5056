-- ===== src/Codesign/Blob/CodeSigningSlot.antt =====
-- `CodeSigningSlot` of embedded_signature.rs: its numbers, its order and its classes.
use apple_platform_rs.Base.{
  ℕ, ◌≡◌, ◌≤◌, ◌↔◌, ◌⊎◌, Bool, true, false, ◌&&◌, ◌==◌, leb, if◌then◌else◌, arith,
}

pub data CodeSigningSlot : Type 0 where
  code_directory info requirement_set resource_dir application entitlements : CodeSigningSlot
  rep_specific entitlements_der launch_constraints_self launch_constraints_parent : CodeSigningSlot
  launch_constraints_responsible_process library_constraints : CodeSigningSlot
  alternate_code_directory0 alternate_code_directory1 alternate_code_directory2 : CodeSigningSlot
  alternate_code_directory3 alternate_code_directory4 : CodeSigningSlot
  signature identification ticket : CodeSigningSlot
  unknown : ℕ → CodeSigningSlot

unfoldable pub from_u32 : ℕ → CodeSigningSlot
from_u32 v =
    if v == 0
    then code_directory
    else if v == 1
    then info
    else if v == 2
    then requirement_set
    else if v == 3
    then resource_dir
    else if v == 4
    then application
    else if v == 5
    then entitlements
    else if v == 6
    then rep_specific
    else if v == 7
    then entitlements_der
    else if v == 8
    then launch_constraints_self
    else if v == 9
    then launch_constraints_parent
    else if v == 10
    then launch_constraints_responsible_process
    else if v == 11
    then library_constraints
    else if v == 0x1000
    then alternate_code_directory0
    else if v == 0x1001
    then alternate_code_directory1
    else if v == 0x1002
    then alternate_code_directory2
    else if v == 0x1003
    then alternate_code_directory3
    else if v == 0x1004
    then alternate_code_directory4
    else if v == 0x10000
    then signature
    else if v == 0x10001
    then identification
    else if v == 0x10002
    then ticket
    else unknown v

unfoldable pub to_u32 : CodeSigningSlot → ℕ
to_u32 code_directory = 0
to_u32 info = 1
to_u32 requirement_set = 2
to_u32 resource_dir = 3
to_u32 application = 4
to_u32 entitlements = 5
to_u32 rep_specific = 6
to_u32 entitlements_der = 7
to_u32 launch_constraints_self = 8
to_u32 launch_constraints_parent = 9
to_u32 launch_constraints_responsible_process = 10
to_u32 library_constraints = 11
to_u32 alternate_code_directory0 = 0x1000
to_u32 alternate_code_directory1 = 0x1001
to_u32 alternate_code_directory2 = 0x1002
to_u32 alternate_code_directory3 = 0x1003
to_u32 alternate_code_directory4 = 0x1004
to_u32 signature = 0x10000
to_u32 identification = 0x10001
to_u32 ticket = 0x10002
to_u32 (unknown v) = v

-- `a <= b`, by the numbers.
unfoldable pub le : CodeSigningSlot → CodeSigningSlot → Bool
le a b = leb (to_u32 a) (to_u32 b)

unfoldable pub has_external_content : CodeSigningSlot → Bool
has_external_content info = true
has_external_content resource_dir = true
has_external_content _ = false

unfoldable pub is_alternative_code_directory : CodeSigningSlot → Bool
is_alternative_code_directory alternate_code_directory0 = true
is_alternative_code_directory alternate_code_directory1 = true
is_alternative_code_directory alternate_code_directory2 = true
is_alternative_code_directory alternate_code_directory3 = true
is_alternative_code_directory alternate_code_directory4 = true
is_alternative_code_directory _ = false

unfoldable pub is_code_directory_specials_expressible : CodeSigningSlot → Bool
is_code_directory_specials_expressible s = le info s && le s library_constraints

-- A slot that its number gives back: an unknown slot carries no known number.
abbrev pub IsNormal : CodeSigningSlot → Type 0
IsNormal s = from_u32 (to_u32 s) ≡ s

-- No number is lost in the enumeration.
pub to_u32-from_u32 : (v : ℕ) → to_u32 (from_u32 v) ≡ v
unfolding to_u32 from_u32
to_u32-from_u32 v = ground arith

pub from_u32-IsNormal : (v : ℕ) → IsNormal (from_u32 v)
from_u32-IsNormal v = rw to_u32-from_u32

-- The classes of slots by number, for every number: the slots expressible in the special digests
-- are 1 to 11, the alternative code directories are 0x1000 to 0x1004, and the slots with external
-- content are 1 and 3.
pub specials_exclusive :
    (v : ℕ)
    → ((is_code_directory_specials_expressible (from_u32 v) ≡ true) ↔ ((1 ≤ v) × (v ≤ 11)))
      × ((is_alternative_code_directory (from_u32 v) ≡ true) ↔ ((0x1000 ≤ v) × (v ≤ 0x1004)))
      × ((has_external_content (from_u32 v) ≡ true) ↔ ((v ≡ 1) ⊎ (v ≡ 3)))
unfolding is_code_directory_specials_expressible is_alternative_code_directory has_external_content
    from_u32 to_u32 le
specials_exclusive v = (ground arith, ground arith, ground arith)
