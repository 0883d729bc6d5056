-- ===== src/Cpio/Newc/Header/Fields.antt =====
-- Hexadecimal fields of newc.rs.
use native.Mathlib.Nat.{pow-suc}
use apple_platform_rs.Base.{
  ℕ, zero, suc, ◌+◌, ◌-◌, ◌*◌, ◌/◌, ◌%◌, ◌^◌, ◌<◌, ◌≤◌, ◌≡◌, ◌≢◌, refl, ap, ◌∙◌, true, [], ◌∷◌,
  ◌++◌, some, ltb, if◌then◌else◌, length, All, All-append, All-mono, Bytes, ok, arith,
  length-append, append_assoc, append-nil, is_utf8, is_utf8-ascii, ge→ltb,
}
use apple_platform_rs.Cpio.Io.{read_exact-append}
use apple_platform_rs.Cpio.Radix.{
  to_digit, parse_digits, from_str_radix, from_radix, u32_max, u64_max, u32_from_hex, u64_from_hex,
  read_hex_u32, read_hex_u64,
}

-- A digit in lower case.
unfoldable pub digit : ℕ → ℕ
digit d = if ltb d 10 then b'0' + d else b'a' + (d - 10)

-- Exactly `size` hexadecimal digits of a number below 16 ^ size.
unfoldable pub field : ℕ → ℕ → Bytes
field zero value = []
field (suc size) value = field size (value / 16) ++ (digit (value % 16) ∷ [])

pub length-field : (size value : ℕ) → length (field size value) ≡ size
unfolding field
length-field zero value = refl
length-field (suc size) value = omega (
  arith,
  length-append (field size (value / 16)) (digit (value % 16) ∷ []),
  length-field size (value / 16),
)

digit_text : (d : ℕ) → d < 16 → (b'0' ≤ digit d) × (digit d < 128)
unfolding digit
digit_text d h = ground arith

field-ascii : (size value : ℕ) → All (λ b. (b'0' ≤ b) × (b < 128)) (field size value)
unfolding field
field-ascii zero value = tt
field-ascii (suc size) value =
    All-append _ (field size (value / 16)) _ (field-ascii size (value / 16))
      (digit_text (value % 16) (omega arith), tt)

digit_read : (d : ℕ) → d < 16 → to_digit 16 (digit d) ≡ some d
unfolding to_digit digit
digit_read d h = ground arith

last_digit :
    (limit acc d : ℕ) (rest : Bytes)
    → d < 16
    → acc * 16 + d ≤ limit
    → parse_digits limit 16 acc (digit d ∷ rest) ≡ parse_digits limit 16 (acc * 16 + d) rest
unfolding parse_digits
last_digit limit acc d rest h fits =
    rw (digit_read d h, parse_digits) (rw (ge→ltb limit (acc * 16 + d) fits))

whole :
    (size value acc : ℕ)
    → (acc * 16 ^ size + value / 16) * 16 + value % 16 ≡ acc * 16 ^ suc size + value
whole size value acc = omega (arith, ap (λ (t : ℕ). acc * t) (pow-suc 16 size))

parse_digits-field :
    (size value acc limit : ℕ) (rest : Bytes)
    → value < 16 ^ size
    → acc * 16 ^ size + value ≤ limit
    → parse_digits limit 16 acc (field size value ++ rest)
      ≡ parse_digits limit 16 (acc * 16 ^ size + value) rest
unfolding field
parse_digits-field zero value acc limit rest h fits = rw nothing
  where
    nothing : acc * 1 + value ≡ acc
    nothing = omega arith
parse_digits-field (suc size) value acc limit rest h fits = rw (
  append_assoc,
  parse_digits-field size (value / 16) acc limit (digit (value % 16) ∷ rest)
      (omega (arith, pow-suc 16 size)) (omega (arith, whole size value acc)),
  last_digit limit (acc * 16 ^ size + value / 16) (value % 16) rest (omega arith)
      (omega (arith, whole size value acc)),
  whole size value acc,
)

no_sign :
    (limit : ℕ) (bytes : Bytes)
    → bytes ≢ []
    → All (λ b. (b'0' ≤ b) × (b < 128)) bytes
    → from_str_radix limit 16 bytes ≡ parse_digits limit 16 0 bytes
unfolding from_str_radix
no_sign limit [] n h = absurd (n refl)
no_sign limit (c ∷ []) n h = ground (arith, h.0)
no_sign limit (c ∷ d ∷ cs) n h = ground (arith, h.0)

from_radix-field :
    (limit size value : ℕ)
    → value < 16 ^ suc size
    → value ≤ limit
    → from_radix limit 16 (field (suc size) value) ≡ ok value
unfolding from_radix
from_radix-field limit size value h fits =
    rw (text, no_sign limit _ nonempty (field-ascii (suc size) value), digits)
  where
    text : is_utf8 (field (suc size) value) ≡ true
    text = is_utf8-ascii _ (All-mono _ (λ b (lo, hi). omega arith) (field-ascii (suc size) value))

    nonempty : field (suc size) value ≢ []
    nonempty e = absurd (omega (arith, length-field (suc size) value, ap length e))

    none_before : 0 * 16 ^ suc size + value ≡ value
    none_before = omega arith

    digits : parse_digits limit 16 0 (field (suc size) value) ≡ some value
    digits =
        rw (append-nil, none_before) at
          (parse_digits-field (suc size) value 0 limit [] h (omega arith))
        ∙ (unfold parse_digits in refl)

-- A field of eight digits in front of other bytes.
pub read_hex_u32-field :
    (value : ℕ) (rest : Bytes)
    → value < 2 ^ 32
    → read_hex_u32 8 (field 8 value ++ rest) ≡ (ok value, rest)
unfolding read_hex_u32 u32_from_hex
read_hex_u32-field value rest h = rw (
  read_exact-append 8 (field 8 value) rest (length-field 8 value),
  from_radix-field u32_max 7 value (omega arith) (omega arith),
)

pub read_hex_u64-field :
    (value : ℕ) (rest : Bytes)
    → value < 2 ^ 32
    → read_hex_u64 8 (field 8 value ++ rest) ≡ (ok value, rest)
unfolding read_hex_u64 u64_from_hex
read_hex_u64-field value rest h = rw (
  read_exact-append 8 (field 8 value) rest (length-field 8 value),
  from_radix-field u64_max 7 value (omega arith) (omega arith),
)
