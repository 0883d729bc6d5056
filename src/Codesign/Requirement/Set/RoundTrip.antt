-- ===== src/Codesign/Requirement/Set/RoundTrip.antt =====
-- Round trips of `CodeRequirements` of code_requirement.rs and of its blob.
use apple_platform_rs.Base.{
  ℕ, ◌%◌, ◌^◌, ◌≡◌, refl, [], ◌∷◌, ◌++◌, ok, Bytes, length, IsU32, All, arith, append_assoc,
  append-nil, pread_u32-u32_bytes, slice_from_u32, ◌>>=◌,
}
use apple_platform_rs.Codesign.Blob.CodeSigningMagic
use apple_platform_rs.Codesign.Blob.Header.{
  read_and_validate-append, read_and_validate-to_blob_bytes,
}
use apple_platform_rs.Codesign.Requirement.Chrono.{Chrono}
use apple_platform_rs.Codesign.Requirement.Expression.WellFormed.{IsWellFormed, IsAligned}
use apple_platform_rs.Codesign.Requirement.Expression.RoundTrip.{from_bytes-write_to}
use apple_platform_rs.Codesign.Requirement.Set.{
  CodeRequirements, parse_elements, parse_binary, parse_blob, write_elements, write_to,
  to_blob_data, requirement_blob, parse_expressions, requirement_from_blob_bytes,
  requirement_to_blob_bytes,
}

module _ {T : Type 0} (chrono : Chrono T) where
  -- Every expression can be written, and the count fits its field.
  pub record IsWritable (es : CodeRequirements T) : Type 0 where
    pub counted : IsU32 (length es)
    pub formed : All (IsWellFormed chrono) es
    pub aligned : All IsAligned es

  parse_elements-write_elements :
      (es : CodeRequirements T) (rest : Bytes)
      → All (IsWellFormed chrono) es
      → All IsAligned es
      → parse_elements chrono (length es) (write_elements chrono es ++ rest) ≡ ok (es, rest)
  unfolding parse_elements write_elements
  parse_elements-write_elements [] rest h g = refl
  parse_elements-write_elements (e ∷ es) rest h g = rw (
    append_assoc,
    from_bytes-write_to chrono e (write_elements chrono es ++ rest) h.0 g.0,
    parse_elements-write_elements es rest h.1 g.1,
  )

  pub parse_binary-write_to :
      (es : CodeRequirements T) (rest : Bytes)
      → IsWritable es
      → parse_binary chrono (write_to chrono es ++ rest) ≡ ok (es, rest)
  unfolding parse_binary write_to
  parse_binary-write_to es rest w =
      rw (append_assoc, pread_u32-u32_bytes, slice_from_u32, count)
        (parse_elements-write_elements es rest w.formed w.aligned)
    where
      count : length es % 2 ^ 32 ≡ length es
      count = omega (arith, w.counted)

  -- parse_blob reads back the requirements that to_blob_data writes, whatever capacity the vector
  -- has from which the length field is taken, provided the expressions are well formed, no anchor
  -- certificate hash in them has a length that is not a multiple of four, and their number fits 32
  -- bits.
  pub parse_blob-to_blob_data :
      (capacity : ℕ → ℕ) (es : CodeRequirements T) (rest : Bytes)
      → IsWritable es
      → parse_blob chrono (to_blob_data chrono capacity es ++ rest) ≡ ok (es, rest)
  unfolding parse_blob to_blob_data
  parse_blob-to_blob_data capacity es rest w =
      rw
        (
          append_assoc,
          append_assoc,
          read_and_validate-append (CodeSigningMagic.to_u32 CodeSigningMagic.requirement) _ _ _
              magic_fits,
        )
        (parse_binary-write_to es rest w)
    where
      magic_fits : IsU32 (CodeSigningMagic.to_u32 CodeSigningMagic.requirement)
      magic_fits = unfold CodeSigningMagic.to_u32 in omega arith

  -- Requirements that are made a RequirementBlob and serialised are given back by from_blob_bytes
  -- and parse_expressions, provided the expressions are well formed, no anchor certificate hash in
  -- them has a length that is not a multiple of four, and their number fits 32 bits.
  pub parse_expressions-blob :
      (es : CodeRequirements T)
      → IsWritable es
      → (requirement_from_blob_bytes (requirement_to_blob_bytes (requirement_blob chrono es))
          >>= parse_expressions chrono)
        ≡ ok es
  unfolding requirement_from_blob_bytes requirement_to_blob_bytes requirement_blob parse_expressions
  parse_expressions-blob es w = rw (
    read_and_validate-to_blob_bytes (CodeSigningMagic.to_u32 CodeSigningMagic.requirement)
        (write_to chrono es) "requirement blob" magic_fits,
    whole,
  )
    where
      magic_fits : IsU32 (CodeSigningMagic.to_u32 CodeSigningMagic.requirement)
      magic_fits = unfold CodeSigningMagic.to_u32 in omega arith

      whole : parse_binary chrono (write_to chrono es) ≡ ok (es, [])
      whole = rw append-nil at (parse_binary-write_to es [] w)
