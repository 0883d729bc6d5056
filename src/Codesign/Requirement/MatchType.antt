-- ===== src/Codesign/Requirement/MatchType.antt =====
-- `MatchType` of code_requirement.rs and its numbers.
use apple_platform_rs.Base.{
  ℕ, ◌==◌, if◌then◌else◌, ok, err, ◌≡◌, refl, ◌<◌, arith, Ends, value, error, Ends-if,
}
use apple_platform_rs.Codesign.Error.{Result, requirement_unknown_match_expression}

pub data MatchType : Type 0 where
  exists equal contains begins_with ends_with : MatchType
  less_than greater_than less_than_equal greater_than_equal : MatchType
  on before after on_or_before on_or_after absent : MatchType

unfoldable pub to_u32 : MatchType → ℕ
to_u32 exists = 0
to_u32 equal = 1
to_u32 contains = 2
to_u32 begins_with = 3
to_u32 ends_with = 4
to_u32 less_than = 5
to_u32 greater_than = 6
to_u32 less_than_equal = 7
to_u32 greater_than_equal = 8
to_u32 on = 9
to_u32 before = 10
to_u32 after = 11
to_u32 on_or_before = 12
to_u32 on_or_after = 13
to_u32 absent = 14

unfoldable pub try_from : ℕ → Result MatchType
try_from v =
    if v == 0
    then ok exists
    else if v == 1
    then ok equal
    else if v == 2
    then ok contains
    else if v == 3
    then ok begins_with
    else if v == 4
    then ok ends_with
    else if v == 5
    then ok less_than
    else if v == 6
    then ok greater_than
    else if v == 7
    then ok less_than_equal
    else if v == 8
    then ok greater_than_equal
    else if v == 9
    then ok on
    else if v == 10
    then ok before
    else if v == 11
    then ok after
    else if v == 12
    then ok on_or_before
    else if v == 13
    then ok on_or_after
    else if v == 14
    then ok absent
    else err (requirement_unknown_match_expression v)

pub try_from-to_u32 : (m : MatchType) → try_from (to_u32 m) ≡ ok m
unfolding try_from to_u32
try_from-to_u32 exists = refl
try_from-to_u32 _ = refl

pub to_u32-lt : (m : MatchType) → to_u32 m < 15
unfolding to_u32
to_u32-lt exists = omega arith
to_u32-lt _ = omega arith

-- A number is accepted only as the number of the match type.
pub to_u32-try_from : (v : ℕ) (m : MatchType) → try_from v ≡ ok m → to_u32 m ≡ v
unfolding try_from to_u32
to_u32-try_from v m h = ground arith

pub try_from-Ends : (v : ℕ) → Ends (λ (_ : MatchType). Unit {0}) (try_from v)
unfolding try_from
try_from-Ends v = search (Ends-if, value, error, tt) depth 18
