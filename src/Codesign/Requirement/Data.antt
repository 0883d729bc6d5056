-- ===== src/Codesign/Requirement/Data.antt =====
-- `read_data`, `write_data` and `CodeRequirementValue` of code_requirement.rs: byte strings behind
-- their length, padded with NULL to a multiple of four. A text is the list of its UTF-8 bytes.
pub mod Reads
use apple_platform_rs.Base.{
  ℕ, zero, suc, ◌+◌, ◌-◌, ◌%◌, ◌<◌, ◌≡◌, refl, sym, ap, ◌∙◌, Bool, true, false, ◌&&◌, ◌||◌, List,
  [], ◌∷◌, ◌++◌, arith, ◌==◌, if◌then◌else◌, in_range, length, replicate, all, ok, err, panic,
  ◌>>=◌, Bytes, IsU32, u32_bytes, pread_u32, slice, slice_from, ℤ, i32_pattern, i32_of_pattern,
  is_utf8, String, append_assoc, length-append, length-replicate, length-u32_bytes, slice-append,
  slice_from-append, pread_u32-u32_bytes, IsI32, i32_of_pattern-i32_pattern,
}
use apple_platform_rs.Codesign.Error.{Result, Error, scroll, requirement_malformed}

abbrev pub Text : Type 0
Text = Bytes

-- The next element starts on a 4 byte boundary.
unfoldable pub align : ℕ → ℕ
align offset = if offset % 4 == 0 then offset else offset + 4 - offset % 4

unfoldable pub read_data : Bytes → Result (Bytes × Bytes)
read_data data' = do
  len ← pread_u32 scroll data' 0
  value ← slice 4 (4 + len) data'
  remaining ← slice_from (align (4 + len)) data'
  ok (value, remaining)

-- The NULL bytes behind data of a length.
unfoldable pub padding : ℕ → Bytes
padding n = if n % 4 == 0 then [] else replicate (4 - n % 4) 0

-- The bytes that `write_data` appends to its destination.
unfoldable pub write_data : Bytes → Bytes
write_data data' = u32_bytes (length data') ++ (data' ++ padding (length data'))

-- `data.pread_with::<i32>(0, scroll::BE)` and its writer.
unfoldable pub read_i32 : Bytes → Result ℤ
read_i32 data' = do w ← pread_u32 scroll data' 0; ok (i32_of_pattern w)

unfoldable pub write_i32 : ℤ → Bytes
write_i32 z = u32_bytes (i32_pattern z)

-- `std::str::from_utf8(value).map_err(|_| RequirementMalformed(what))`
unfoldable pub from_utf8 : String → Bytes → Result Text
from_utf8 what value = if is_utf8 value then ok value else err (requirement_malformed what)

pub data CodeRequirementValue : Type 0 where
  string : Text → CodeRequirementValue
  bytes : Bytes → CodeRequirementValue

-- `is_ascii_alphanumeric() || is_ascii_whitespace() || is_ascii_punctuation()`
unfoldable pub is_ascii_printable : ℕ → Bool
is_ascii_printable c =
    (in_range b'0' b'9' c || in_range b'A' b'Z' c || in_range b'a' b'z' c)
    || (c == b' ' || c == 9 || c == 10 || c == 12 || c == 13)
    || (in_range 33 47 c || in_range 58 64 c || in_range 91 96 c || in_range 123 126 c)

-- `CodeRequirementValue::from(&[u8])`
unfoldable pub value_of : Bytes → CodeRequirementValue
value_of value = if all is_ascii_printable value then string value else bytes value

-- The data that `write_encoded` writes: those of the value, or of the text.
unfoldable pub value_bytes : CodeRequirementValue → Bytes
value_bytes (string s) = s
value_bytes (bytes b) = b

unfoldable pub write_encoded : CodeRequirementValue → Bytes
write_encoded v = write_data (value_bytes v)

-- Laws.
align_pad : (n : ℕ) → align (4 + n) ≡ 4 + (n + length (padding n))
unfolding align padding
align_pad n = ground (arith, length-replicate (4 - n % 4) zero)

pub length-write_data : (v : Bytes) → length (write_data v) ≡ align (4 + length v)
unfolding write_data
length-write_data v = omega (
  arith,
  align_pad (length v),
  length-u32_bytes (length v),
  length-append (u32_bytes (length v)) (v ++ padding (length v)),
  length-append v (padding (length v)),
)

-- What `write_data` wrote is read back, and what follows it is left.
pub read_data-write_data :
    (v rest : Bytes) → IsU32 (length v) → read_data (write_data v ++ rest) ≡ ok (v, rest)
unfolding read_data
read_data-write_data v rest h = rw (len, cut, left)
  where
    open_up : write_data v ++ rest ≡ u32_bytes (length v) ++ (v ++ (padding (length v) ++ rest))
    open_up = unfold write_data in simp append_assoc

    len : pread_u32 scroll (write_data v ++ rest) 0 ≡ ok (length v)
    len = rw (open_up, pread_u32-u32_bytes) (ap ok (omega arith))

    cut : slice {E = Error} 4 (4 + length v) (write_data v ++ rest) ≡ ok v
    cut = rw open_up (slice-append 4 _ _ v _ (length-u32_bytes _) refl)

    left : slice_from {E = Error} (align (4 + length v)) (write_data v ++ rest) ≡ ok rest
    left = slice_from-append _ (write_data v) rest (length-write_data v)

pub read_i32-write_i32 : (z : ℤ) (rest : Bytes) → IsI32 z → read_i32 (write_i32 z ++ rest) ≡ ok z
unfolding read_i32 write_i32
read_i32-write_i32 z rest h = rw pread_u32-u32_bytes (ap ok (i32_of_pattern-i32_pattern z h))
