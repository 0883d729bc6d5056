-- ===== src/Codesign/BlobData/Capacity.antt =====
-- `BlobData::from_blob_bytes` of embedded_signature.rs on what `CodeRequirements::to_blob_data` of
-- code_requirement.rs writes, whose length field is the capacity of a vector.
use apple_platform_rs.Base.{
  ℕ, suc, ◌+◌, ◌-◌, ◌%◌, ◌^◌, ◌≤◌, ◌≡◌, refl, ◌∙◌, ◌∷◌, ◌++◌, subst, arith, leb, if◌then◌else◌, ok,
  panic, Bytes, IsU32, u32_bytes, length, length-append, take, slice, append_assoc, Bool-cases, inl,
  inr,
}
use apple_platform_rs.Codesign.Error.{Error}
use apple_platform_rs.Codesign.Blob.CodeSigningMagic
use apple_platform_rs.Codesign.Blob.Header.{read_blob_header-append, read_and_validate-append}
use apple_platform_rs.Codesign.Requirement.Chrono.{Chrono}
use apple_platform_rs.Codesign.Requirement.Set.{
  CodeRequirements, write_to, to_blob_data, requirement_from_blob_bytes,
}
use apple_platform_rs.Codesign.BlobData.{requirement, parse_by_magic, from_blob_bytes}

slice_eight :
    (a b c d e f g h k : ℕ) (body : Bytes)
    → slice {E = Error} 0 (8 + k) (a ∷ b ∷ c ∷ d ∷ e ∷ f ∷ g ∷ h ∷ body) ≡ (
        if leb (8 + k) (8 + length body)
        then ok (a ∷ b ∷ c ∷ d ∷ e ∷ f ∷ g ∷ h ∷ take k body)
        else panic)
unfolding slice
slice_eight a b c d e f g h k body = rw eight (ground arith)
  where
    eight : 8 + k ≡ suc (suc (suc (suc (suc (suc (suc (suc k)))))))
    eight = omega arith

-- A header in front of a body, cut to a length.
slice_header :
    (magic n : ℕ) (body : Bytes)
    → 8 ≤ n
    → slice {E = Error} 0 n (u32_bytes magic ++ (u32_bytes n ++ body)) ≡ (
        if leb n (8 + length body)
        then ok (u32_bytes magic ++ (u32_bytes n ++ take (n - 8) body))
        else panic)
unfolding slice u32_bytes
slice_header magic n body h =
    subst
      (λ m. slice {E = Error} 0 m (u32_bytes magic ++ (u32_bytes n ++ body)) ≡ (
        if leb m (8 + length body)
        then ok (u32_bytes magic ++ (u32_bytes n ++ take (n - 8) body))
        else panic))
      rejoined (slice_eight _ _ _ _ _ _ _ _ (n - 8) body)
  where
    rejoined : 8 + (n - 8) ≡ n
    rejoined = omega arith

from_blob_bytes_requirement :
    (n : ℕ) (body : Bytes)
    → 8 ≤ n
    → IsU32 n
    → from_blob_bytes
        (u32_bytes (CodeSigningMagic.to_u32 CodeSigningMagic.requirement) ++ (u32_bytes n ++ body))
      ≡ (if leb n (8 + length body) then ok (requirement (take (n - 8) body)) else panic)
unfolding from_blob_bytes
from_blob_bytes_requirement n body low fits =
    rw
      (
        read_blob_header-append (CodeSigningMagic.to_u32 CodeSigningMagic.requirement) n body
            magic_fits,
        small,
        slice_header,
        kind,
      )
      (elim (Bool-cases (leb n (8 + length body))) [
        | inl whole ↦ rw (whole, parsed) refl
        | inr short ↦ rw short refl
      ])
  where
    magic_fits : IsU32 (CodeSigningMagic.to_u32 CodeSigningMagic.requirement)
    magic_fits = unfold CodeSigningMagic.to_u32 in omega arith

    small : n % 2 ^ 32 ≡ n
    small = omega arith

    kind :
        CodeSigningMagic.from_u32 (CodeSigningMagic.to_u32 CodeSigningMagic.requirement)
        ≡ CodeSigningMagic.requirement
    kind = unfold CodeSigningMagic.from_u32 CodeSigningMagic.to_u32 in refl

    parsed :
        parse_by_magic CodeSigningMagic.requirement (
          u32_bytes (CodeSigningMagic.to_u32 CodeSigningMagic.requirement)
          ++ (u32_bytes n ++ take (n - 8) body))
        ≡ ok (requirement (take (n - 8) body))
    parsed =
        unfold parse_by_magic requirement_from_blob_bytes in
        rw
          (read_and_validate-append (CodeSigningMagic.to_u32 CodeSigningMagic.requirement) n
            (take (n - 8) body) "requirement blob" magic_fits)
          refl

-- On what CodeRequirements::to_blob_data writes and any bytes behind it, BlobData::from_blob_bytes
-- goes by the capacity of the vector that is in the length field: it panics if the capacity is
-- more than there is, and otherwise gives a requirement of all bytes up to the capacity, those
-- behind the blob included, provided a vector has at least the capacity that was asked for and the
-- capacity fits 32 bits.
pub from_blob_bytes-to_blob_data :
    {T : Type 0} (chrono : Chrono T) (capacity : ℕ → ℕ) (es : CodeRequirements T) (rest : Bytes)
    → ((n : ℕ) → n ≤ capacity n)
    → IsU32 (capacity (length (write_to chrono es) + 8))
    → from_blob_bytes (to_blob_data chrono capacity es ++ rest) ≡ (
        if leb
          (capacity (length (write_to chrono es) + 8))
          (length (write_to chrono es) + 8 + length rest)
        then ok (
            requirement
              (take (capacity (length (write_to chrono es) + 8) - 8) (write_to chrono es ++ rest)))
        else panic)
unfolding to_blob_data
from_blob_bytes-to_blob_data chrono capacity es rest least fits =
    rw (append_assoc, append_assoc)
      (from_blob_bytes_requirement (capacity (length (write_to chrono es) + 8))
          (write_to chrono es ++ rest) (omega (arith, least (length (write_to chrono es) + 8))) fits
        ∙ rw total refl)
  where
    total : 8 + length (write_to chrono es ++ rest) ≡ length (write_to chrono es) + 8 + length rest
    total = omega (arith, length-append (write_to chrono es) rest)
