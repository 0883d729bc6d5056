-- ===== src/Codesign/Requirement/RequirementType.antt =====
-- `RequirementType` of code_requirement.rs and its numbers.
use apple_platform_rs.Base.{ℕ, ◌==◌, if◌then◌else◌}

pub data RequirementType : Type 0 where
  host guest designated library plugin : RequirementType
  unknown : ℕ → RequirementType

unfoldable pub from_u32 : ℕ → RequirementType
from_u32 v =
    if v == 1
    then host
    else if v == 2
    then guest
    else if v == 3
    then designated
    else if v == 4
    then library
    else if v == 5
    then plugin
    else unknown v

unfoldable pub to_u32 : RequirementType → ℕ
to_u32 host = 1
to_u32 guest = 2
to_u32 designated = 3
to_u32 library = 4
to_u32 plugin = 5
to_u32 (unknown v) = v
