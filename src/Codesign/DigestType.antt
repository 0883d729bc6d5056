-- ===== src/Codesign/DigestType.antt =====
-- `DigestType` of cryptography.rs, and its numbers in embedded_signature.rs.
use apple_platform_rs.Base.{ℕ, ◌==◌, if◌then◌else◌, ◌≡◌, arith, Bytes, ok, err, ◌>>=◌, take}
use apple_platform_rs.Codesign.Error.{
  Result, digest_unknown_algorithm, digest_unsupported_algorithm,
}

pub data DigestType : Type 0 where
  none sha1 sha256 sha256_truncated sha384 sha512 : DigestType
  unknown : ℕ → DigestType

unfoldable pub from_u8 : ℕ → DigestType
from_u8 v =
    if v == 0
    then none
    else if v == 1
    then sha1
    else if v == 2
    then sha256
    else if v == 3
    then sha256_truncated
    else if v == 4
    then sha384
    else if v == 5
    then sha512
    else unknown v

unfoldable pub to_u8 : DigestType → ℕ
to_u8 none = 0
to_u8 sha1 = 1
to_u8 sha256 = 2
to_u8 sha256_truncated = 3
to_u8 sha384 = 4
to_u8 sha512 = 5
to_u8 (unknown v) = v

-- A type that its number gives back: an unknown type carries no known number.
abbrev pub IsNormal : DigestType → Type 0
IsNormal t = from_u8 (to_u8 t) ≡ t

pub to_u8-from_u8 : (v : ℕ) → to_u8 (from_u8 v) ≡ v
unfolding to_u8 from_u8
to_u8-from_u8 v = ground arith

-- The algorithms of `ring::digest`, which are those of `DigestAlgorithm` of x509_certificate.
pub data Algorithm : Type 0 where
  sha1_algorithm sha256_algorithm sha384_algorithm sha512_algorithm : Algorithm

-- `ring::digest::Context`, from the algorithm and the data to the digest.
abbrev pub Hasher : Type 0
Hasher = Algorithm → Bytes → Bytes

unfoldable pub as_hasher : DigestType → Result Algorithm
as_hasher none = err digest_unknown_algorithm
as_hasher sha1 = ok sha1_algorithm
as_hasher sha256 = ok sha256_algorithm
as_hasher sha256_truncated = ok sha256_algorithm
as_hasher sha384 = ok sha384_algorithm
as_hasher sha512 = ok sha512_algorithm
as_hasher (unknown _) = err digest_unknown_algorithm

-- `hash.truncate(20)` of the truncated type.
unfoldable pub truncate_hash : DigestType → Bytes → Bytes
truncate_hash sha256_truncated hash = take 20 hash
truncate_hash _ hash = hash

unfoldable pub digest_data : Hasher → DigestType → Bytes → Result Bytes
digest_data hasher t bytes = do
  algorithm ← as_hasher t
  ok (truncate_hash t (hasher algorithm bytes))

-- `DigestAlgorithm::try_from`
unfoldable pub try_from : DigestType → Result Algorithm
try_from sha1 = ok sha1_algorithm
try_from sha256 = ok sha256_algorithm
try_from sha256_truncated = ok sha256_algorithm
try_from sha384 = ok sha384_algorithm
try_from sha512 = ok sha512_algorithm
try_from (unknown _) = err digest_unknown_algorithm
try_from none = err digest_unsupported_algorithm
