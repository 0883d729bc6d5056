-- ===== src/Codesign/Blob/Header.antt =====
-- The blob header of embedded_signature.rs: magic and inclusive length.
use apple_platform_rs.Base.{
  ℕ, ◌+◌, ◌%◌, ◌^◌, ◌≡◌, refl, ◌++◌, arith, ok, err, ◌>>=◌, Bytes, length, u32_bytes, pread_u32,
  slice_from, String, ◌==◌, if◌then◌else◌, IsU32, pread_u32-u32_bytes, pread_u32-u32_bytes_next,
  slice_from-append, append_assoc, ==_refl,
}
use apple_platform_rs.Codesign.Error.{Error, Result, scroll, bad_magic}

unfoldable pub read_blob_header : Bytes → Result (ℕ × ℕ × Bytes)
read_blob_header data' = do
  magic ← pread_u32 scroll data' 0
  len ← pread_u32 scroll data' 4
  payload ← slice_from 8 data'
  ok (magic, len, payload)

unfoldable pub read_and_validate_blob_header : Bytes → ℕ → String → Result Bytes
read_and_validate_blob_header data' expected_magic what = do
  (magic, _, payload) ← read_blob_header data'
  if magic == expected_magic then ok payload else err (bad_magic what)

-- `Blob::to_blob_bytes` on a serialised payload. `payload.len() as u32 + 8` wraps in a release build.
unfoldable pub to_blob_bytes : ℕ → Bytes → Bytes
to_blob_bytes magic payload =
    u32_bytes magic ++ (u32_bytes ((length payload % 2 ^ 32 + 8) % 2 ^ 32) ++ payload)

pub read_blob_header-append :
    (magic len : ℕ) (payload : Bytes)
    → IsU32 magic
    → read_blob_header (u32_bytes magic ++ (u32_bytes len ++ payload))
      ≡ ok (magic, len % 2 ^ 32, payload)
unfolding read_blob_header
read_blob_header-append magic len payload hm = rw (
  pread_u32-u32_bytes,
  pread_u32-u32_bytes_next,
  ← append_assoc (u32_bytes magic) (u32_bytes len) payload,
  slice_from-append {E = Error} 8 (u32_bytes magic ++ u32_bytes len) payload width,
  same_magic,
)
  where
    width : length (u32_bytes magic ++ u32_bytes len) ≡ 8
    width = unfold u32_bytes in refl

    same_magic : magic % 2 ^ 32 ≡ magic
    same_magic = omega arith

-- A serialised blob is read back with its magic, its whole length and its payload.
pub read_blob_header-to_blob_bytes :
    (magic : ℕ) (payload : Bytes)
    → IsU32 magic
    → IsU32 (length payload + 8)
    → read_blob_header (to_blob_bytes magic payload) ≡ ok (magic, length payload + 8, payload)
unfolding to_blob_bytes
read_blob_header-to_blob_bytes magic payload hm hl =
    rw (read_blob_header-append magic _ payload hm, fits)
  where
    fits : (length payload % 2 ^ 32 + 8) % 2 ^ 32 % 2 ^ 32 ≡ length payload + 8
    fits = omega arith

-- The validation looks at the magic only, whatever the length field says.
pub read_and_validate-append :
    (magic len : ℕ) (payload : Bytes) (what : String)
    → IsU32 magic
    → read_and_validate_blob_header (u32_bytes magic ++ (u32_bytes len ++ payload)) magic what
      ≡ ok payload
unfolding read_and_validate_blob_header
read_and_validate-append magic len payload what hm =
    rw (read_blob_header-append magic len payload hm, ==_refl magic)

pub read_and_validate-to_blob_bytes :
    (magic : ℕ) (payload : Bytes) (what : String)
    → IsU32 magic
    → read_and_validate_blob_header (to_blob_bytes magic payload) magic what ≡ ok payload
unfolding to_blob_bytes
read_and_validate-to_blob_bytes magic payload what hm =
    read_and_validate-append magic _ payload what hm
