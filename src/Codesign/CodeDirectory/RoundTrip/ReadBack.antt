-- ===== src/Codesign/CodeDirectory/RoundTrip/ReadBack.antt =====
-- `from_blob_bytes` of code_directory.rs on the bytes that `to_blob_bytes` gives.
use native.Mathlib.Nat.{mul_comm, pow-le-pow_right}
use apple_platform_rs.Base.{
  ℕ, ◌+◌, ◌*◌, ◌%◌, ◌^◌, ◌≤◌, ◌≡◌, refl, sym, ap, ap₂, ◌∙◌, Option, none, some, [], if◌then◌else◌,
  ok, ◌>>=◌, Bytes, length, drop, All, arith, IsU32, u32_bytes,
}
use apple_platform_rs.Codesign.Error.{code_directory_malformed_identifier}
use apple_platform_rs.Codesign.CodeDirectory.Data.{CodeDirectoryBlob, supports_team_id}
use apple_platform_rs.Codesign.CodeDirectory.Slots.{highest_slot}
use apple_platform_rs.Codesign.CodeDirectory.Serialize.{supports, trailing_zeros, to_blob_bytes}
use apple_platform_rs.Codesign.CodeDirectory.Parse.{
  from_blob_bytes, specials_offset, read_team_name, non_zero,
}
use apple_platform_rs.Codesign.Blob.CodeSigningMagic
use apple_platform_rs.Codesign.Blob.Header
use apple_platform_rs.Codesign.Blob.Header.{
  read_and_validate_blob_header, read_and_validate-to_blob_bytes,
}
use apple_platform_rs.Codesign.CodeDirectory.RoundTrip.Fixed.{fixed_of, read_fixed-At}
use apple_platform_rs.Codesign.CodeDirectory.RoundTrip.Fields.{
  read_limit-At, read_exec_seg-At, read_runtime-At, read_linkage-At,
}
use apple_platform_rs.Codesign.CodeDirectory.RoundTrip.Texts.{
  read_text-At, get_hashes-At, read_scatter-At, read_team-At, read_team_name-At,
}
use apple_platform_rs.Codesign.CodeDirectory.RoundTrip.Positions.{
  from_team, from_limit, from_exec_seg, from_runtime, from_linkage, team_offset, limit_offset,
  exec_seg_offset, runtime_offset, linkage_offset, team_position_lem, exec_seg_position,
  runtime_position, linkage_position, At-fixed, At-scatter, At-team, At-limit, At-exec_seg,
  At-runtime, At-linkage, At-ident, At-team_text, At-specials, At-codes,
}
use apple_platform_rs.Codesign.CodeDirectory.RoundTrip.Variable.{
  highest_slot_bound, IsExpressible-HasLength,
}
use apple_platform_rs.Codesign.CodeDirectory.RoundTrip.Written.{serialize_payload-layout}
use apple_platform_rs.Codesign.CodeDirectory.RoundTrip.Bounds.{
  length-layout, InBounds, layout-InBounds,
}
use apple_platform_rs.Codesign.CodeDirectory.RoundTrip.Digests.{
  length-specials_down, length-concat, specials_down-length, count-concat, trailing_zeros-pow,
  collect_specials-specials_down,
}
use apple_platform_rs.Codesign.CodeDirectory.RoundTrip.{
  IsWritable, normalised, offset_of, team_text, ident_at, team_at, team_field, special_digests_of,
  digests_at, tail_bytes, layout, concat, specials_down,
}

module _ (b : CodeDirectoryBlob) (w : IsWritable b) (data' : Bytes)
    (whole : length data' ≡ length (layout b) + 8) (h : drop 8 data' ≡ layout b)
    (headed : read_and_validate_blob_header data'
        (CodeSigningMagic.to_u32 CodeSigningMagic.code_directory)
        "code directory blob"
      ≡ ok (layout b)) where
  i : InBounds b
  i = layout-InBounds b w.fits

  inside : digests_at b ≤ length data'
  inside = omega (arith, length-layout b, whole)

  abbrev slots : ℕ
  slots = highest_slot b.special_digests

  slots_fit : IsU32 slots
  slots_fit = omega (arith, highest_slot_bound b.digest_size b.special_digests w.special_digests)

  codes_fit : IsU32 (length b.code_digests)
  codes_fit = omega (
    arith,
    length-layout b,
    w.fits,
    count-concat b.digest_size b.code_digests w.positive w.code_digests,
  )

  page_zeros : trailing_zeros 32 b.page_size ≡ w.page
  page_zeros = ap (λ n. trailing_zeros 32 n) w.page_size ∙ trailing_zeros-pow 32 w.page w.page_bits

  page_same : 2 ^ trailing_zeros 32 b.page_size % 2 ^ 32 ≡ b.page_size
  page_same = rw (page_zeros, w.page_size) (omega (arith, short))
    where
      short : 2 ^ w.page ≤ 2 ^ 31
      short =
          pow-le-pow_right {n = 2} (omega arith) {i = w.page} {j = 31} (omega (arith, w.page_bits))

  special_lengths : All (λ d. length d ≡ b.digest_size) (specials_down b slots)
  special_lengths =
      specials_down-length b slots
        (IsExpressible-HasLength b.digest_size b.special_digests w.special_digests)

  specials_same :
      specials_offset (
        fixed_of b w.range
          (digests_at b)
          (ident_at b)
          slots
          (length b.code_digests)
          (trailing_zeros 32 b.page_size))
      ≡ team_at b + length (team_text b)
  unfolding specials_offset digests_at special_digests_of
  specials_same = rw (product) (omega (arith, i.digests_high))
    where
      product :
          b.digest_size * highest_slot b.special_digests
          ≡ length (concat (specials_down b (highest_slot b.special_digests)))
      product =
          mul_comm b.digest_size slots
          ∙ ap (λ n. n * b.digest_size) (sym (length-specials_down b slots))
          ∙ sym (length-concat b.digest_size (specials_down b slots) special_lengths)

  team_field_fits : IsU32 (team_field b)
  team_field_fits = unfold team_field in go b.team_name
    where
      go : (name : Option Bytes) → IsU32 (offset_of (team_at b) name)
      go none = omega arith
      go (some name) = omega (arith, i.team_digests, i.digests_high)

  specials_before : team_at b + length (team_text b) ≤ digests_at b
  specials_before = unfold digests_at in omega arith

  name :
      read_team_name data'
        (if supports supports_team_id b.version then non_zero (team_field b) else none)
      ≡ ok (if supports supports_team_id b.version then b.team_name else none)
  name =
      unfold team_field in
      read_team_name-At b data' _ (team_at b) (omega (arith, i.ident_team))
        (omega (arith, inside, i.team_digests)) w.team_name (At-team_text b data' h)

  pub from_layout : from_blob_bytes data' ≡ ok (normalised b)
  unfolding from_blob_bytes normalised
  from_layout =
      rw
        (
          headed,
          read_fixed-At b w.range (digests_at b) (ident_at b) slots (length b.code_digests)
              (trailing_zeros 32 b.page_size) data' _ i.digests_high
              (omega (arith, i.ident_team, i.team_digests, i.digests_high)) slots_fit codes_fit
              (omega (arith, page_zeros, w.page_bits)) (At-fixed b data' h),
          read_scatter-At b data' 44 (from_team b) w.no_scatter (At-scatter b data' h),
          read_team-At b data' (team_offset b) (from_limit b) (team_field b) team_field_fits
              (team_position_lem b) (At-team b data' h),
          read_limit-At b w.range data' (limit_offset b) (from_exec_seg b) (At-limit b data' h),
          read_exec_seg-At b w.range data' (exec_seg_offset b) (from_runtime b)
              (exec_seg_position b) (At-exec_seg b data' h),
          read_runtime-At b w.range data' (runtime_offset b) (from_linkage b) (runtime_position b)
              (At-runtime b data' h),
          read_linkage-At b w.range data' (linkage_offset b) (tail_bytes b) (linkage_position b)
              (At-linkage b data' h),
          read_text-At data' (ident_at b) (omega (arith, inside, i.ident_team, i.team_digests)) _
              code_directory_malformed_identifier b.ident w.ident (At-ident b data' h),
          name,
          get_hashes-At data' (digests_at b) inside [] b.digest_size (length b.code_digests)
              b.code_digests w.positive refl w.code_digests (At-codes b data' h),
          specials_same,
          get_hashes-At data' (team_at b + length (team_text b))
              (omega (arith, inside, specials_before)) (concat b.code_digests) b.digest_size slots
              (specials_down b slots) w.positive (length-specials_down b slots) special_lengths
              (unfold special_digests_of in At-specials b data' h),
          collect_specials-specials_down b slots,
        )
        (ap₂
          (λ digest_type page_size.
            ok (record (normalised b) { digest_type = digest_type; page_size = page_size }))
          w.digest_type page_same)

-- A code directory that is serialised to a blob is read back as its normal form: the optional
-- fields of its version with 0 where they were not set, newer fields dropped, and a digest, if
-- need be of zeros, for every special slot up to the highest one. The values fit their fields, the
-- digest type is no Unknown of a number that has a name, the page size is a power of two below
-- 2^32, digests have the stated size, which is not 0, special slots are 1 to 11, no scatter offset
-- is set that the version has, texts are UTF-8 without a NUL, and the blob fits 32 bits.
pub from_blob_bytes-to_blob_bytes :
    (b : CodeDirectoryBlob)
    → IsWritable b
    → (to_blob_bytes b >>= from_blob_bytes) ≡ ok (normalised b)
unfolding to_blob_bytes
from_blob_bytes-to_blob_bytes b w =
    rw (serialize_payload-layout b w) (from_layout b w blob whole behind headed)
  where
    magic : ℕ
    magic = CodeSigningMagic.to_u32 CodeSigningMagic.code_directory

    blob : Bytes
    blob = Header.to_blob_bytes magic (layout b)

    whole : length blob ≡ length (layout b) + 8
    whole = unfold Header.to_blob_bytes u32_bytes in omega arith

    behind : drop 8 blob ≡ layout b
    behind = unfold Header.to_blob_bytes u32_bytes in refl

    headed : read_and_validate_blob_header blob magic "code directory blob" ≡ ok (layout b)
    headed =
        read_and_validate-to_blob_bytes magic (layout b) "code directory blob"
          (unfold CodeSigningMagic.to_u32 in omega arith)
