-- ===== src/Base/Buffer.antt =====
-- Byte buffers: big endian words written and read, and slices that panic out of range.
pub mod Reads
use Prim.Native.Nat.{ℕ, zero, suc, ◌+◌, ◌-◌, ◌*◌, ◌/◌, ◌%◌, ◌^◌, ◌≤◌, ◌<◌, min}
use mathlib.Core.Path.{◌≡◌, refl, ap, ◌∙◌, sym}
use mathlib.Core.Bool.{Bool, true, false, ◌&&◌}
use mathlib.Core.List.{List, [], ◌∷◌, ◌++◌, append_assoc}
use mathlib.Core.Option.{Option, none, some}
use native.Mathlib.Omega.{arith}
use apple_platform_rs.Base.Tests.{leb, if◌then◌else◌, le→leb, gt→leb}
use apple_platform_rs.Base.Lists.{
  length, take, drop, All, length-append, take-append, drop-append, length-drop, length-take,
}
use apple_platform_rs.Base.Fallible.{Outcome, ok, err, panic, ok_or, ◌>>=◌}

abbrev pub Bytes : Type 0
Bytes = List ℕ

abbrev pub IsByte : ℕ → Type 0
IsByte b = b < 256

abbrev pub IsU32 : ℕ → Type 0
IsU32 n = n < 2 ^ 32

-- `iowrite_with(n, scroll::BE)` of a u32 (the number is taken modulo 2 ^ 32).
unfoldable pub u32_bytes : ℕ → Bytes
u32_bytes n = n / 2 ^ 24 % 256 ∷ n / 2 ^ 16 % 256 ∷ n / 2 ^ 8 % 256 ∷ n % 256 ∷ []

-- The same of a u64: high word, then low word.
unfoldable pub u64_bytes : ℕ → Bytes
u64_bytes n = u32_bytes (n / 2 ^ 32) ++ u32_bytes n

u32_at : Bytes → Option ℕ
u32_at (a ∷ b ∷ c ∷ d ∷ _) = some (a * 2 ^ 24 + b * 2 ^ 16 + c * 2 ^ 8 + d)
u32_at _ = none

-- `pread_with::<u32>(offset, scroll::BE)`, with the error of a short buffer.
unfoldable pub pread_u32 : {E : Type 0} → E → Bytes → ℕ → Outcome E ℕ
unfolding u32_at
pread_u32 e data' offset = ok_or (u32_at (drop offset data')) e

-- `pread_with::<i64>(offset, scroll::BE)`, as the unsigned pattern.
unfoldable pub pread_u64 : {E : Type 0} → E → Bytes → ℕ → Outcome E ℕ
unfolding pread_u32
pread_u64 e data' offset = do
  high ← pread_u32 e data' offset
  low ← pread_u32 e data' (offset + 4)
  ok (high * 2 ^ 32 + low)

-- `&data[from..]`
unfoldable pub slice_from : {E : Type 0} → ℕ → Bytes → Outcome E Bytes
slice_from from data' = if leb from (length data') then ok (drop from data') else panic

-- `&data[from..to]`
unfoldable pub slice : {E : Type 0} → ℕ → ℕ → Bytes → Outcome E Bytes
slice from to data' =
    if leb from to && leb to (length data') then ok (take (to - from) (drop from data')) else panic

pub u32_bytes-IsByte : (n : ℕ) → All IsByte (u32_bytes n)
unfolding u32_bytes
u32_bytes-IsByte n = omega arith

pub length-u32_bytes : (n : ℕ) → length (u32_bytes n) ≡ 4
unfolding u32_bytes
length-u32_bytes n = refl

pub pread_u32-u32_bytes :
    {E : Type 0} (e : E) (n : ℕ) (rest : Bytes)
    → pread_u32 e (u32_bytes n ++ rest) 0 ≡ ok (n % 2 ^ 32)
unfolding pread_u32 u32_bytes
pread_u32-u32_bytes e n rest = ap ok (omega arith)

-- The word behind the first one.
pub pread_u32-u32_bytes_next :
    {E : Type 0} (e : E) (m n : ℕ) (rest : Bytes)
    → pread_u32 e (u32_bytes m ++ (u32_bytes n ++ rest)) 4 ≡ ok (n % 2 ^ 32)
unfolding pread_u32 u32_bytes
pread_u32-u32_bytes_next e m n rest = ap ok (omega arith)

pub pread_u64-u64_bytes :
    {E : Type 0} (e : E) (n : ℕ) (rest : Bytes)
    → pread_u64 e (u64_bytes n ++ rest) 0 ≡ ok (n % 2 ^ 64)
unfolding pread_u64 u64_bytes u32_bytes
pread_u64-u64_bytes e n rest = ap ok (omega arith)

pub slice_from-append :
    {E : Type 0} (n : ℕ) (xs ys : Bytes) → length xs ≡ n → slice_from {E = E} n (xs ++ ys) ≡ ok ys
unfolding slice_from
slice_from-append {E} n xs ys e = rw (← e) (rw (le→leb _ _ fits) (ap ok (drop-append xs ys)))
  where
    fits : length xs ≤ length (xs ++ ys)
    fits = omega (arith, length-append xs ys)

pub slice-append :
    {E : Type 0} (from to : ℕ) (xs ys zs : Bytes)
    → length xs ≡ from
    → from + length ys ≡ to
    → slice {E = E} from to (xs ++ (ys ++ zs)) ≡ ok ys
unfolding slice
slice-append {E} from to xs ys zs e f =
    rw (le→leb from to (omega arith), le→leb to (length (xs ++ (ys ++ zs))) fits) (ap ok cut)
  where
    fits : to ≤ length (xs ++ (ys ++ zs))
    fits = omega (arith, length-append xs (ys ++ zs), length-append ys zs)

    width : to - from ≡ length ys
    width = omega arith

    cut : take (to - from) (drop from (xs ++ (ys ++ zs))) ≡ ys
    cut = rw (width, ← e, drop-append) (take-append ys zs)

pub slice_from_u32 :
    {E : Type 0} (n : ℕ) (rest : Bytes) → slice_from {E = E} 4 (u32_bytes n ++ rest) ≡ ok rest
slice_from_u32 n rest = slice_from-append 4 (u32_bytes n) rest (length-u32_bytes n)

pub slice_from_panics :
    {E : Type 0} (n : ℕ) (xs : Bytes) → length xs < n → slice_from {E = E} n xs ≡ panic
unfolding slice_from
slice_from_panics n xs h = rw (gt→leb n (length xs) h)

pub slice_panics :
    {E : Type 0} (from to : ℕ) (xs : Bytes) → length xs < to → slice {E = E} from to xs ≡ panic
unfolding slice
slice_panics from to xs h = ground arith

-- A successful cut keeps no more than there was.
pub slice_from_ok :
    {E : Type 0} (n : ℕ) (xs ys : Bytes)
    → slice_from {E = E} n xs ≡ ok ys
    → (n ≤ length xs) × (ys ≡ drop n xs)
unfolding slice_from
slice_from_ok n xs ys h = ground arith

pub length-slice_from :
    {E : Type 0} (n : ℕ) (xs ys : Bytes)
    → slice_from {E = E} n xs ≡ ok ys
    → length ys + n ≡ length xs
length-slice_from {E} n xs ys h =
    let (fits, e) = slice_from_ok n xs ys h in rw e (omega (arith, length-drop n xs))

pub slice_ok :
    {E : Type 0} (from to : ℕ) (xs ys : Bytes)
    → slice {E = E} from to xs ≡ ok ys
    → (from ≤ to) × (to ≤ length xs) × (ys ≡ take (to - from) (drop from xs))
unfolding slice
slice_ok from to xs ys h = ground arith

pub length-slice :
    {E : Type 0} (from to : ℕ) (xs ys : Bytes)
    → slice {E = E} from to xs ≡ ok ys
    → length ys ≡ to - from
length-slice {E} from to xs ys h =
    let (a, b, e) = slice_ok from to xs ys h in
    rw e (omega (arith, length-take (to - from) (drop from xs), length-drop from xs))

pub pread_u32-append :
    {E : Type 0} (e : E) (offset n : ℕ) (front rest : Bytes)
    → length front ≡ offset
    → pread_u32 e (front ++ (u32_bytes n ++ rest)) offset ≡ ok (n % 2 ^ 32)
unfolding pread_u32
pread_u32-append e offset n front rest h =
    rw (← h, drop-append) (unfold pread_u32 in pread_u32-u32_bytes e n rest)
