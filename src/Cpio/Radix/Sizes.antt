-- ===== src/Cpio/Radix/Sizes.antt =====
-- What `write_octal` of odc.rs does with a number of any size.
use apple_platform_rs.Base.{
  ℕ, suc, ◌^◌, ◌<◌, ◌≤◌, ◌≡◌, false, ◌++◌, ltb, ◌==◌, ==_refl, if◌then◌else◌, Bytes, ok, err, panic,
  arith, inl, inr, ◌⊎◌, ge→ltb, lt→ltb, dec_lt,
}
use apple_platform_rs.Cpio.Error.{value_too_large}
use apple_platform_rs.Cpio.Radix.{write_octal}
use apple_platform_rs.Cpio.Radix.Octal.{
  field, write_octal-field, write_octal-panics, write_octal-too_large,
}

-- write_octal with a field of 1 to 21 digits writes exactly the zero padded digits of a number
-- below 8^size, panics on the number 8^size with nothing written, and returns ValueTooLarge for
-- any larger number.
pub write_octal_outcome :
    (size value : ℕ) (written : Bytes)
    → size ≤ 20
    → write_octal value (suc size) written ≡ (
        if ltb value (8 ^ suc size)
        then (ok tt, written ++ field (suc size) value)
        else if value == 8 ^ suc size
        then (panic, written)
        else (err value_too_large, written))
write_octal_outcome size value written h = elim (compare_cases value (8 ^ suc size)) [
  | inl less ↦
      rw (lt→ltb value (8 ^ suc size) less, write_octal-field size value written (omega arith) less)
  | inr (inl equal) ↦ rw (
    equal,
    write_octal-panics size written h,
    ge→ltb (8 ^ suc size) (8 ^ suc size) (omega arith),
    ==_refl (8 ^ suc size),
  )
  | inr (inr more) ↦ rw (
    write_octal-too_large (suc size) value written more,
    ge→ltb value (8 ^ suc size) (omega arith),
    distinct value (8 ^ suc size) more,
  )
]
  where
    compare_cases : (m n : ℕ) → (m < n) ⊎ ((m ≡ n) ⊎ (n < m))
    compare_cases m n = elim (dec_lt m n) [
      | yes l ↦ inl l
      | no l ↦ elim (dec_lt n m) [ yes g ↦ inr (inr g) | no g ↦ inr (inl (omega arith)) ]
    ]

    distinct : (m n : ℕ) → n < m → (m == n) ≡ false
    distinct m n l = ground arith
