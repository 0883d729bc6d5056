-- ===== src/Cpio/Radix/Octal.antt =====
-- Octal fields of odc headers: fixed width, written and read back.
use native.Mathlib.Nat.{pow-suc}
use apple_platform_rs.Base.{
  ℕ, zero, suc, ◌+◌, ◌-◌, ◌*◌, ◌/◌, ◌%◌, ◌^◌, ◌<◌, ◌≤◌, ◌≡◌, ◌≢◌, refl, ap, ◌∙◌, true, [], ◌∷◌,
  ◌++◌, some, ltb, length, replicate, All, All-append, All-mono, Bytes, ok, err, panic, arith,
  length-append, append_assoc, append-nil, is_utf8, is_utf8-ascii, Bool-cases, inl, inr, ltb→lt,
  ge→ltb, lt→ltb, le→leb, gt→leb,
}
use apple_platform_rs.Cpio.Error.{value_too_large}
use apple_platform_rs.Cpio.Io.{read_exact-append}
use apple_platform_rs.Cpio.Radix.{
  to_digit, parse_digits, from_str_radix, from_radix, u32_max, u64_max, u32_from_octal,
  u64_from_octal, read_octal_u32, read_octal_u64, octal_digits, format_octal, write_octal,
}

-- Exactly `size` octal digits of a number below 8 ^ size.
unfoldable pub field : ℕ → ℕ → Bytes
field zero value = []
field (suc size) value = field size (value / 8) ++ ((b'0' + value % 8) ∷ [])

pub length-field : (size value : ℕ) → length (field size value) ≡ size
unfolding field
length-field zero value = refl
length-field (suc size) value = omega (
  arith,
  length-field size (value / 8),
  length-append (field size (value / 8)) ((b'0' + value % 8) ∷ []),
)

field-ascii : (size value : ℕ) → All (λ b. (b'0' ≤ b) × (b < b'0' + 8)) (field size value)
unfolding field
field-ascii zero value = tt
field-ascii (suc size) value =
    All-append _ (field size (value / 8)) _ (field-ascii size (value / 8)) (omega arith)

replicate_snoc : (n a : ℕ) → replicate n a ++ (a ∷ []) ≡ replicate (suc n) a
replicate_snoc zero a = refl
replicate_snoc (suc n) a = ap (λ t. a ∷ t) (replicate_snoc n a)

field-zero : (size : ℕ) → field size 0 ≡ replicate size b'0'
unfolding field
field-zero zero = refl
field-zero (suc size) = ap (λ t. t ++ (b'0' ∷ [])) (field-zero size) ∙ replicate_snoc size b'0'

shrink : (size value : ℕ) → value < 8 ^ suc size → value / 8 < 8 ^ size
shrink size value h = omega (arith, pow-suc 8 size)

one_digit :
    (size value : ℕ)
    → value < 8
    → replicate (suc size - 1) b'0' ++ ((b'0' + value) ∷ []) ≡ field (suc size) value
unfolding field
one_digit size value h = rw (drop_one, none_left, same, field-zero size)
  where
    drop_one : suc size - 1 ≡ size
    drop_one = omega arith

    none_left : value / 8 ≡ 0
    none_left = omega arith

    same : value % 8 ≡ value
    same = omega arith

-- The digits are no more than the field.
length-octal_digits :
    (size fuel value : ℕ) → value < 8 ^ suc size → length (octal_digits fuel value) ≤ suc size
unfolding octal_digits
length-octal_digits size zero value h = omega arith
length-octal_digits zero (suc fuel) value h = rw (lt→ltb value 8 (omega arith)) (omega arith)
length-octal_digits (suc size) (suc fuel) value h = ground (
  arith,
  length-append (octal_digits fuel (value / 8)) ((b'0' + value % 8) ∷ []),
  length-octal_digits size fuel (value / 8) (shrink (suc size) value h),
)

next_digit :
    (size value : ℕ) (front : Bytes)
    → replicate (suc size - length front) b'0' ++ front ≡ field (suc size) (value / 8)
    → let whole : Bytes = front ++ ((b'0' + value % 8) ∷ []) in
      replicate (suc (suc size) - length whole) b'0' ++ whole ≡ field (suc (suc size)) value
unfolding field
next_digit size value front h = rw (width, ← append_assoc _ front (digit ∷ []), h)
  where
    digit : ℕ
    digit = b'0' + value % 8

    width : suc (suc size) - length (front ++ (digit ∷ [])) ≡ suc size - length front
    width = omega (arith, length-append front (digit ∷ []))

-- With zeros in front the digits are the field.
pad-octal_digits :
    (size fuel value : ℕ)
    → size ≤ fuel
    → value < 8 ^ suc size
    → replicate (suc size - length (octal_digits fuel value)) b'0' ++ octal_digits fuel value
      ≡ field (suc size) value
unfolding octal_digits
pad-octal_digits zero zero value f h = unfold field in refl
pad-octal_digits (suc size) zero value f h = absurd (omega arith)
pad-octal_digits zero (suc fuel) value f h =
    rw (lt→ltb value 8 (omega arith)) (one_digit 0 value (omega arith))
pad-octal_digits (suc size) (suc fuel) value f h = elim (Bool-cases (ltb value 8)) [
  | inl small ↦ rw small (one_digit (suc size) value (ltb→lt value 8 small))
  | inr large ↦ rw large (
      next_digit size value (octal_digits fuel (value / 8))
        (pad-octal_digits size fuel (value / 8) (omega arith) (shrink (suc size) value h)))
]

-- A value that fits its field is written as the field.
pub write_octal-field :
    (size value : ℕ) (written : Bytes)
    → size ≤ 21
    → value < 8 ^ suc size
    → write_octal value (suc size) written ≡ (ok tt, written ++ field (suc size) value)
unfolding write_octal format_octal
write_octal-field size value written s h = rw (
  ge→ltb (8 ^ suc size) value (omega arith),
  le→leb (length (octal_digits 21 value)) (suc size) (length-octal_digits size 21 value h),
  append_assoc,
  pad-octal_digits size 21 value s h,
)

pow_pos : (n : ℕ) → 1 ≤ 8 ^ n
pow_pos zero = omega arith
pow_pos (suc n) = omega (arith, pow-suc 8 n, pow_pos n)

above : (size value : ℕ) → 8 ^ suc size ≤ value → (8 ≤ value) × (8 ^ size ≤ value / 8)
above size value h = (omega (arith, pow-suc 8 size, pow_pos size), omega (arith, pow-suc 8 size))

-- A number of at least 8 ^ size has more than size digits.
octal_digits_wide :
    (size fuel value : ℕ)
    → size ≤ fuel
    → 8 ^ size ≤ value
    → suc size ≤ length (octal_digits fuel value)
unfolding octal_digits
octal_digits_wide zero zero value f h = omega arith
octal_digits_wide zero (suc fuel) value f h =
    ground (arith, length-append (octal_digits fuel (value / 8)) ((b'0' + value % 8) ∷ []))
octal_digits_wide (suc size) zero value f h = absurd (omega arith)
octal_digits_wide (suc size) (suc fuel) value f h =
    let (eight, grown) = above size value h in
    ground (
      arith,
      length-append (octal_digits fuel (value / 8)) ((b'0' + value % 8) ∷ []),
      octal_digits_wide size fuel (value / 8) (omega arith) grown,
    )

-- The one value above the field that passes the guard has a digit too many.
pub write_octal-panics :
    (size : ℕ) (written : Bytes)
    → size ≤ 20
    → write_octal (8 ^ suc size) (suc size) written ≡ (panic, written)
unfolding write_octal format_octal
write_octal-panics size written s = rw (
  ge→ltb (8 ^ suc size) (8 ^ suc size) (omega arith),
  gt→leb (length (octal_digits 21 (8 ^ suc size))) (suc size)
      (octal_digits_wide (suc size) 21 (8 ^ suc size) (omega arith) (omega arith)),
)

pub write_octal-too_large :
    (size value : ℕ) (written : Bytes)
    → 8 ^ size < value
    → write_octal value size written ≡ (err value_too_large, written)
unfolding write_octal
write_octal-too_large size value written h = rw (lt→ltb (8 ^ size) value h)

digit_read : (d : ℕ) → d < 8 → to_digit 8 (b'0' + d) ≡ some d
unfolding to_digit
digit_read d h = ground arith

last_digit :
    (limit acc d : ℕ) (rest : Bytes)
    → d < 8
    → acc * 8 + d ≤ limit
    → parse_digits limit 8 acc ((b'0' + d) ∷ rest) ≡ parse_digits limit 8 (acc * 8 + d) rest
unfolding parse_digits
last_digit limit acc d rest h fits =
    rw (digit_read d h, parse_digits) (rw (ge→ltb limit (acc * 8 + d) fits))

whole :
    (size value acc : ℕ) → (acc * 8 ^ size + value / 8) * 8 + value % 8 ≡ acc * 8 ^ suc size + value
whole size value acc = omega (arith, ap (λ (t : ℕ). acc * t) (pow-suc 8 size))

parse_digits-field :
    (size value acc limit : ℕ) (rest : Bytes)
    → value < 8 ^ size
    → acc * 8 ^ size + value ≤ limit
    → parse_digits limit 8 acc (field size value ++ rest)
      ≡ parse_digits limit 8 (acc * 8 ^ size + value) rest
unfolding field
parse_digits-field zero value acc limit rest h fits = rw nothing
  where
    nothing : acc * 1 + value ≡ acc
    nothing = omega arith
parse_digits-field (suc size) value acc limit rest h fits = rw (
  append_assoc,
  parse_digits-field size (value / 8) acc limit ((b'0' + value % 8) ∷ rest) (shrink size value h)
      (omega (arith, whole size value acc)),
  last_digit limit (acc * 8 ^ size + value / 8) (value % 8) rest (omega arith)
      (omega (arith, whole size value acc)),
  whole size value acc,
)

no_sign :
    (limit : ℕ) (bytes : Bytes)
    → bytes ≢ []
    → All (λ b. (b'0' ≤ b) × (b < b'0' + 8)) bytes
    → from_str_radix limit 8 bytes ≡ parse_digits limit 8 0 bytes
unfolding from_str_radix
no_sign limit [] n h = absurd (n refl)
no_sign limit (c ∷ []) n h = ground (arith, h.0)
no_sign limit (c ∷ d ∷ cs) n h = ground (arith, h.0)

-- A field is read back, where its number fits the type.
from_radix-field :
    (limit size value : ℕ)
    → value < 8 ^ suc size
    → value ≤ limit
    → from_radix limit 8 (field (suc size) value) ≡ ok value
unfolding from_radix
from_radix-field limit size value h fits =
    rw (text, no_sign limit _ nonempty (field-ascii (suc size) value), digits)
  where
    text : is_utf8 (field (suc size) value) ≡ true
    text = is_utf8-ascii _ (All-mono _ (λ b (lo, hi). omega arith) (field-ascii (suc size) value))

    nonempty : field (suc size) value ≢ []
    nonempty e = absurd (omega (arith, length-field (suc size) value, ap length e))

    none_before : 0 * 8 ^ suc size + value ≡ value
    none_before = omega arith

    digits : parse_digits limit 8 0 (field (suc size) value) ≡ some value
    digits =
        rw (append-nil, none_before) at
          (parse_digits-field (suc size) value 0 limit [] h (omega arith))
        ∙ (unfold parse_digits in refl)

pub read_octal_u32-field :
    (size value : ℕ) (rest : Bytes)
    → value < 8 ^ suc size
    → value ≤ u32_max
    → read_octal_u32 (suc size) (field (suc size) value ++ rest) ≡ (ok value, rest)
unfolding read_octal_u32 u32_from_octal
read_octal_u32-field size value rest h fits = rw (
  read_exact-append (suc size) (field (suc size) value) rest (length-field (suc size) value),
  from_radix-field u32_max size value h fits,
)

pub read_octal_u64-field :
    (size value : ℕ) (rest : Bytes)
    → value < 8 ^ suc size
    → value ≤ u64_max
    → read_octal_u64 (suc size) (field (suc size) value ++ rest) ≡ (ok value, rest)
unfolding read_octal_u64 u64_from_octal
read_octal_u64-field size value rest h fits = rw (
  read_exact-append (suc size) (field (suc size) value) rest (length-field (suc size) value),
  from_radix-field u64_max size value h fits,
)
