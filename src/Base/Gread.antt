-- ===== src/Base/Gread.antt =====
-- Reads of big endian numbers at an offset that moves on, `gread_with(offset, scroll::BE)`.
use Prim.Native.Nat.{ℕ, ◌+◌, ◌*◌, ◌/◌, ◌%◌, ◌^◌}
use mathlib.Core.Path.{◌≡◌, ap, sym, ◌∙◌}
use mathlib.Core.List.{[], ◌∷◌, ◌++◌, append_assoc}
use mathlib.Core.Option.{Option, none, some}
use native.Mathlib.Omega.{arith}
use apple_platform_rs.Base.Lists.{length, drop, drop-append, drop-drop}
use apple_platform_rs.Base.Fallible.{Outcome, ok, ok_or, ◌>>=◌}
use apple_platform_rs.Base.Buffer.{
  Bytes, u32_bytes, u64_bytes, pread_u32, pread_u64, pread_u32-u32_bytes,
}

-- `iowrite_with` of a u8 and of a u16.
unfoldable pub u8_bytes : ℕ → Bytes
u8_bytes n = n % 256 ∷ []

unfoldable pub u16_bytes : ℕ → Bytes
u16_bytes n = n / 2 ^ 8 % 256 ∷ n % 256 ∷ []

u8_at : Bytes → Option ℕ
u8_at (a ∷ _) = some a
u8_at [] = none

u16_at : Bytes → Option ℕ
u16_at (a ∷ b ∷ _) = some (a * 2 ^ 8 + b)
u16_at _ = none

-- The value read, and the offset behind it.
module _ {E : Type 0} (e : E) (data' : Bytes) (offset : ℕ) where
  unfoldable pub gread_u8 : Outcome E (ℕ × ℕ)
  unfolding u8_at
  gread_u8 = do v ← ok_or (u8_at (drop offset data')) e; ok (v, offset + 1)

  unfoldable pub gread_u16 : Outcome E (ℕ × ℕ)
  unfolding u16_at
  gread_u16 = do v ← ok_or (u16_at (drop offset data')) e; ok (v, offset + 2)

  unfoldable pub gread_u32 : Outcome E (ℕ × ℕ)
  gread_u32 = do v ← pread_u32 e data' offset; ok (v, offset + 4)

  unfoldable pub gread_u64 : Outcome E (ℕ × ℕ)
  gread_u64 = do v ← pread_u64 e data' offset; ok (v, offset + 8)

-- The bytes `xs` stand at an offset, and `rest` behind them.
abbrev pub At : Bytes → ℕ → Bytes → Bytes → Type 0
At data' offset xs rest = drop offset data' ≡ xs ++ rest

pub At-next :
    (data' : Bytes) (offset : ℕ) (xs ys rest : Bytes)
    → drop offset data' ≡ xs ++ (ys ++ rest)
    → At data' (offset + length xs) ys rest
At-next data' offset xs ys rest h =
    sym (drop-drop (length xs) offset data') ∙ ap (λ t. drop (length xs) t) h ∙ drop-append xs _

module _ {E : Type 0} (e : E) (data' : Bytes) (offset n : ℕ) (rest : Bytes) where
  pub gread_u8-At :
      At data' offset (u8_bytes n) rest → gread_u8 e data' offset ≡ ok (n % 256, offset + 1)
  unfolding gread_u8 u8_at u8_bytes
  gread_u8-At h = rw h

  pub gread_u16-At :
      At data' offset (u16_bytes n) rest → gread_u16 e data' offset ≡ ok (n % 2 ^ 16, offset + 2)
  unfolding gread_u16 u16_at u16_bytes
  gread_u16-At h = rw h (ap (λ v. ok (v, offset + 2)) (omega arith))

  pread_u32-At : At data' offset (u32_bytes n) rest → pread_u32 e data' offset ≡ ok (n % 2 ^ 32)
  unfolding pread_u32
  pread_u32-At h = rw h (unfold pread_u32 in pread_u32-u32_bytes e n rest)

  pub gread_u32-At :
      At data' offset (u32_bytes n) rest → gread_u32 e data' offset ≡ ok (n % 2 ^ 32, offset + 4)
  unfolding gread_u32
  gread_u32-At h = rw (pread_u32-At h)

module _ {E : Type 0} (e : E) (data' : Bytes) (offset n : ℕ) (rest : Bytes) where
  pub gread_u64-At :
      At data' offset (u64_bytes n) rest → gread_u64 e data' offset ≡ ok (n % 2 ^ 64, offset + 8)
  unfolding gread_u64 pread_u64 u64_bytes
  gread_u64-At h =
      rw
        (
          pread_u32-At e data' offset (n / 2 ^ 32) (u32_bytes n ++ rest) high,
          pread_u32-At e data' (offset + 4) n rest low,
        )
        (ap (λ v. ok (v, offset + 8)) (omega arith))
    where
      high : drop offset data' ≡ u32_bytes (n / 2 ^ 32) ++ (u32_bytes n ++ rest)
      high = h ∙ append_assoc (u32_bytes (n / 2 ^ 32)) (u32_bytes n) rest

      low : drop (offset + 4) data' ≡ u32_bytes n ++ rest
      low =
          unfold u32_bytes in At-next data' offset (u32_bytes (n / 2 ^ 32)) (u32_bytes n) rest high
