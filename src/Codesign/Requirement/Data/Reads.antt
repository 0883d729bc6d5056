-- ===== src/Codesign/Requirement/Data/Reads.antt =====
-- What `read_data` gives on any bytes: the unsafe conversion to text that follows it, and its panics.
use apple_platform_rs.Base.{
  ℕ, ◌+◌, ◌≤◌, ◌<◌, ◌≡◌, refl, true, [], ◌∷◌, arith, length, All, all, Bytes, IsByte, IsU32, IsI32,
  is_utf8, is_utf8-ascii, String, Ends, value, error, Ends-bind, pread_u32-Ends, slice-Ends,
  slice_from-Ends, Bool-cases, i32_of_pattern-IsI32, inl, inr,
}
use apple_platform_rs.Codesign.Error.{scroll}
use apple_platform_rs.Codesign.Requirement.Data.{
  align, read_data, read_i32, from_utf8, string, is_ascii_printable, value_of, value_bytes,
}

align-ge : (n : ℕ) → n ≤ align n
unfolding align
align-ge n = ground arith

-- A success leaves bytes, at least four fewer, and its value is shorter than 2 ^ 32.
pub read_data-Ends :
    (data' : Bytes)
    → All IsByte data'
    → Ends
        (λ (v, rest). IsU32 (length v) × All IsByte rest × (length rest + 4 ≤ length data'))
        (read_data data')
unfolding read_data
read_data-Ends data' h = Ends-bind (pread_u32-Ends scroll data' h 0) λ len small.
    Ends-bind (slice-Ends data' h 4 (4 + len)) λ v (_, width).
      Ends-bind (slice_from-Ends data' h (align (4 + len)))
        λ rest (kept, left). value (omega arith, kept, omega (arith, align-ge (4 + len)))

pub read_i32-Ends : (data' : Bytes) → All IsByte data' → Ends IsI32 (read_i32 data')
unfolding read_i32
read_i32-Ends data' h =
    Ends-bind (pread_u32-Ends scroll data' h 0) λ w small. value (i32_of_pattern-IsI32 w small)

pub from_utf8-Ends :
    (what : String) (v : Bytes) → Ends (λ s. (s ≡ v) × (is_utf8 s ≡ true)) (from_utf8 what v)
unfolding from_utf8
from_utf8-Ends what v = elim (Bool-cases (is_utf8 v)) [
  | inl yes' ↦ rw yes' (value (refl, yes'))
  | inr no' ↦ rw no' error
]

pub value_bytes-value_of : (v : Bytes) → value_bytes (value_of v) ≡ v
unfolding value_bytes value_of
value_bytes-value_of v = ground arith

printable→ascii : (v : Bytes) → all is_ascii_printable v ≡ true → All (λ b. b < 0x80) v
unfolding is_ascii_printable
printable→ascii [] h = tt
printable→ascii (b ∷ bs) h = (ground arith, printable→ascii bs (ground arith))

-- The unchecked conversion in CodeRequirementValue::from is sound: bytes that it takes for a
-- string are UTF-8.
pub value_of_sound : (v s : Bytes) → value_of v ≡ string s → is_utf8 s ≡ true
unfolding value_of
value_of_sound v s h = ground (arith, is_utf8-ascii v, printable→ascii v)
