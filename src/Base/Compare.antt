-- ===== src/Base/Compare.antt =====
-- `==` of byte strings, and membership in a list of them.
use mathlib.Core.Path.{◌≡◌, refl}
use mathlib.Core.Logic.{◌≢◌, inl, inr}
use mathlib.Core.Bool.{Bool, true, false, ◌&&◌, ◌||◌}
use mathlib.Core.List.{List, [], ◌∷◌}
use native.Mathlib.Omega.{arith}
use apple_platform_rs.Base.Tests.{◌==◌, ==_refl, Bool-cases}
use apple_platform_rs.Base.Buffer.{Bytes}

unfoldable pub same : Bytes → Bytes → Bool
same [] [] = true
same [] (b ∷ ys) = false
same (a ∷ xs) [] = false
same (a ∷ xs) (b ∷ ys) = let rest = same xs ys in (a == b) && rest

pub same_refl : (bytes : Bytes) → same bytes bytes ≡ true
unfolding same
same_refl [] = refl
same_refl (b ∷ ys) = rw (==_refl b, same_refl ys)

pub same_sound : (a b : Bytes) → same a b ≡ true → a ≡ b
unfolding same
same_sound [] [] h = refl
same_sound [] (b ∷ ys) h = cc
same_sound (a ∷ xs) [] h = cc
same_sound (a ∷ xs) (b ∷ ys) h = ground (arith, same_sound xs ys)

pub same_distinct : (a b : Bytes) → a ≢ b → same a b ≡ false
same_distinct a b n = elim (Bool-cases (same a b)) [
  | inl h ↦ absurd (n (same_sound a b h))
  | inr h ↦ h
]

-- `HashSet::contains`
unfoldable pub contains : List Bytes → Bytes → Bool
contains [] dir = false
contains (d ∷ ds) dir = let rest = contains ds dir in same d dir || rest
