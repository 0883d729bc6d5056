-- ===== src/Base/Buffer/Reads.antt =====
-- What the reads of a buffer of bytes give when they succeed.
use Prim.Native.Nat.{ℕ, ◌+◌, ◌-◌, ◌≤◌, ◌<◌, ◌^◌}
use mathlib.Core.Path.{◌≡◌}
use mathlib.Core.Bool.{◌&&◌}
use mathlib.Core.Logic.{inl, inr, ◌≢◌}
use mathlib.Core.List.{◌∷◌}
use mathlib.Core.Option.{some}
use native.Mathlib.Omega.{arith}
use apple_platform_rs.Base.Tests.{leb, Bool-cases}
use apple_platform_rs.Base.Lists.{
  length, take, drop, All, All-take, All-drop, length-take, length-drop,
}
use apple_platform_rs.Base.Fallible.{stuck}
use apple_platform_rs.Base.Postcondition.{Ends, value, abort, Ends-ok_or, Ends-bind, Ends-of_ok}
use apple_platform_rs.Base.Buffer.{
  Bytes, IsByte, IsU32, u32_at, pread_u32, pread_u64, slice, slice_from, slice_ok, slice_from_ok,
}

u32_at-IsU32 : (bytes : Bytes) → All IsByte bytes → {n : ℕ} → u32_at bytes ≡ some n → IsU32 n
unfolding u32_at
u32_at-IsU32 (a ∷ b ∷ c ∷ d ∷ _) h e = ground arith
u32_at-IsU32 _ h e = cc

module _ {E : Type 0} (e : E) (bytes : Bytes) (h : All IsByte bytes) where
  pub pread_u32-Ends : (offset : ℕ) → Ends IsU32 (pread_u32 e bytes offset)
  unfolding pread_u32
  pread_u32-Ends offset =
      Ends-ok_or (u32_at (drop offset bytes)) e
        (λ n p. u32_at-IsU32 (drop offset bytes) (All-drop IsByte offset bytes h) p)

  pub pread_u64-Ends : (offset : ℕ) → Ends (λ n. n < 2 ^ 64) (pread_u64 e bytes offset)
  unfolding pread_u64
  pread_u64-Ends offset =
      Ends-bind (pread_u32-Ends offset)
        λ high p. Ends-bind (pread_u32-Ends (offset + 4)) λ low q. value (omega arith)

module _ {E : Type 0} (bytes : Bytes) (h : All IsByte bytes) where
  pub slice_from-Ends :
      (n : ℕ)
      → Ends
          (λ rest. All IsByte rest × (length rest + n ≡ length bytes))
          (slice_from {E = E} n bytes)
  unfolding slice_from
  slice_from-Ends n = elim (Bool-cases (leb n (length bytes))) [
    | inl fits ↦ rw fits (value (All-drop IsByte n bytes h, ground (arith, length-drop n bytes)))
    | inr beyond ↦ rw beyond abort
  ]

  pub slice-Ends :
      (from to : ℕ)
      → Ends (λ part. All IsByte part × (length part ≡ to - from)) (slice {E = E} from to bytes)
  unfolding slice
  slice-Ends from to = elim (Bool-cases (leb from to && leb to (length bytes))) [
    | inl fits ↦ rw fits (
        value (
          All-take IsByte (to - from) (drop from bytes) (All-drop IsByte from bytes h),
          ground (arith, length-take (to - from) (drop from bytes), length-drop from bytes),
        ))
    | inr beyond ↦ rw beyond abort
  ]

-- The same on any list.
module _ {E : Type 0} (e : E) (bytes : Bytes) where
  pub pread_u32-ne-stuck : (offset : ℕ) → pread_u32 e bytes offset ≢ stuck
  unfolding pread_u32
  pread_u32-ne-stuck offset = ground arith

  pub pread_u32-Ends_any : (offset : ℕ) → Ends (λ _. Unit {0}) (pread_u32 e bytes offset)
  pread_u32-Ends_any offset =
      Ends-of_ok (pread_u32 e bytes offset) (pread_u32-ne-stuck offset) (λ _ _. tt)

module _ {E : Type 0} (bytes : Bytes) where
  pub slice-Ends_any :
      (from to : ℕ)
      → Ends
          (λ part. (from ≤ to) × (to ≤ length bytes) × (part ≡ take (to - from) (drop from bytes)))
          (slice {E = E} from to bytes)
  unfolding slice
  slice-Ends_any from to =
      Ends-of_ok (slice {E = E} from to bytes) (ground arith)
        (λ part h. slice_ok from to bytes part h)

  pub slice_from-Ends_any :
      (n : ℕ)
      → Ends (λ rest. (n ≤ length bytes) × (rest ≡ drop n bytes)) (slice_from {E = E} n bytes)
  unfolding slice_from
  slice_from-Ends_any n =
      Ends-of_ok (slice_from {E = E} n bytes) (ground arith)
        (λ rest h. slice_from_ok n bytes rest h)
