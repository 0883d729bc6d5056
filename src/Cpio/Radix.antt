-- ===== src/Cpio/Radix.antt =====
-- Numbers in the headers of cpio archives, in octal (cpio-archive/src/odc.rs) and in hexadecimal
-- (cpio-archive/src/newc.rs), by the standard library's `from_str_radix` and `{:o}`.
pub mod Octal
pub mod Sizes
use apple_platform_rs.Base.{
  ℕ, zero, suc, ◌+◌, ◌-◌, ◌*◌, ◌/◌, ◌%◌, ◌^◌, Bool, true, false, List, [], ◌∷◌, ◌++◌, Option, none,
  some, ltb, leb, ◌==◌, in_range, if◌then◌else◌, length, replicate, Bytes, ok, err, panic, is_utf8,
  ok_or,
}
use apple_platform_rs.Base.Fallible.{Outcome, assert}
use apple_platform_rs.Cpio.Error.{Error, bad_header_string, bad_header_hex, value_too_large}
use apple_platform_rs.Cpio.Io.{M, ◌>>=◌, ◌>>◌, lift, write_all, read_exact}

-- `char::to_digit`
unfoldable pub to_digit : ℕ → ℕ → Option ℕ
to_digit radix c =
    let d =
      if in_range b'0' b'9' c
      then c - b'0'
      else if in_range b'a' b'z' c
      then c - b'a' + 10
      else if in_range b'A' b'Z' c
      then c - b'A' + 10
      else radix in
    if ltb d radix then some d else none

-- The digits behind those that made `acc`; `none` is a bad digit or a number above `limit`.
unfoldable pub parse_digits : ℕ → ℕ → ℕ → Bytes → Option ℕ
parse_digits limit radix acc [] = some acc
parse_digits limit radix acc (c ∷ cs) = elim (to_digit radix c) [
  | none ↦ none
  | some d ↦
      let rest = parse_digits limit radix (acc * radix + d) cs in
      if ltb limit (acc * radix + d) then none else rest
]

-- A sign `+` is accepted in front of digits.
unfoldable pub from_str_radix : ℕ → ℕ → Bytes → Option ℕ
from_str_radix limit radix [] = none
from_str_radix limit radix (c ∷ []) =
    if c == b'+' then none else parse_digits limit radix 0 (c ∷ [])
from_str_radix limit radix (c ∷ d ∷ cs) =
    if c == b'+'
    then parse_digits limit radix 0 (d ∷ cs)
    else parse_digits limit radix 0 (c ∷ d ∷ cs)

abbrev pub u32_max : ℕ
u32_max = 2 ^ 32 - 1

abbrev pub u64_max : ℕ
u64_max = 2 ^ 64 - 1

-- `u32_from_octal` and the like, by the largest value of the type and the radix.
unfoldable pub from_radix : ℕ → ℕ → Bytes → Outcome Error ℕ
from_radix limit radix bytes =
    if is_utf8 bytes
    then ok_or (from_str_radix limit radix bytes) (bad_header_hex bytes)
    else err bad_header_string

unfoldable pub u32_from_octal : Bytes → Outcome Error ℕ
u32_from_octal = from_radix u32_max 8

unfoldable pub u64_from_octal : Bytes → Outcome Error ℕ
u64_from_octal = from_radix u64_max 8

unfoldable pub read_octal_u32 : ℕ → M Bytes ℕ
read_octal_u32 count = do buffer ← read_exact count; lift (u32_from_octal buffer)

unfoldable pub read_octal_u64 : ℕ → M Bytes ℕ
read_octal_u64 count = do buffer ← read_exact count; lift (u64_from_octal buffer)

unfoldable pub u32_from_hex : Bytes → Outcome Error ℕ
u32_from_hex = from_radix u32_max 16

unfoldable pub u64_from_hex : Bytes → Outcome Error ℕ
u64_from_hex = from_radix u64_max 16

unfoldable pub read_hex_u32 : ℕ → M Bytes ℕ
read_hex_u32 count = do buffer ← read_exact count; lift (u32_from_hex buffer)

unfoldable pub read_hex_u64 : ℕ → M Bytes ℕ
read_hex_u64 count = do buffer ← read_exact count; lift (u64_from_hex buffer)

-- The octal digits of a number below 8 ^ (fuel + 1).
unfoldable pub octal_digits : ℕ → ℕ → Bytes
octal_digits zero value = (b'0' + value % 8) ∷ []
octal_digits (suc fuel) value =
    let front = octal_digits fuel (value / 8) in
    if ltb value 8 then (b'0' + value) ∷ [] else front ++ ((b'0' + value % 8) ∷ [])

-- `format!("{value:o}")`; a u64 has at most 22 octal digits.
unfoldable pub format_octal : ℕ → Bytes
format_octal value = octal_digits 21 value

-- `size - s.len()` panics below zero.
unfoldable pub write_octal : ℕ → ℕ → M Bytes (Unit {0})
write_octal value size = if ltb (8 ^ size) value then lift (err value_too_large) else do
  let s = format_octal value
  lift (assert (leb (length s) size))
  write_all (replicate (size - length s) b'0')
  write_all s
