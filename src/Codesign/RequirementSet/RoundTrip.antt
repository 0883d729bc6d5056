-- ===== src/Codesign/RequirementSet/RoundTrip.antt =====
-- Round trip of the requirement sets of embedded_signature.rs.
use mathlib.Core.Logic.{if_neg}
use apple_platform_rs.Base.{
  ℕ, suc, ◌+◌, ◌*◌, ◌%◌, ◌^◌, ◌≡◌, ◌≢◌, refl, sym, ap, ◌∙◌, List, [], ◌∷◌, ◌++◌, ok, Bytes, IsU32,
  length, All, All-append, arith, append_assoc, append-nil, length-append, u32_bytes, pread_u32,
  slice-append,
}
use apple_platform_rs.Codesign.Error.{Error, scroll}
use apple_platform_rs.Codesign.Blob.CodeSigningMagic
use apple_platform_rs.Codesign.Blob.Header
use apple_platform_rs.Codesign.Blob.Header.{
  read_and_validate_blob_header, read_and_validate-to_blob_bytes,
}
use apple_platform_rs.Codesign.Blob.SuperBlob.RoundTrip.{length-write_indices}
use apple_platform_rs.Codesign.Blob.SuperBlob.{BlobIndex, write_indices, end_of}
use apple_platform_rs.Codesign.Blob.SuperBlob.Entries.{
  IsIndex, read_indices-write_indices, length-to_blob_bytes,
}
use apple_platform_rs.Codesign.Requirement.RequirementType
use apple_platform_rs.Codesign.Requirement.RequirementType.{RequirementType}
use apple_platform_rs.Codesign.Requirement.Set.{
  requirement_from_blob_bytes, requirement_to_blob_bytes,
}
use apple_platform_rs.Codesign.RequirementSet.{
  RequirementSetBlob, insert, read_requirements, from_blob_bytes, requirement_indices,
  write_requirements, serialize_payload, to_blob_bytes,
}

-- The keys of a map are distinct.
abbrev pub HasDistinctKeys : RequirementSetBlob → Type 0
HasDistinctKeys [] = Unit {0}
HasDistinctKeys ((typ, blob) ∷ entries) =
    All (λ entry. typ ≢ entry.0) entries × HasDistinctKeys entries

-- A type that its number, which fits 32 bits, gives back.
abbrev pub HasNumber : RequirementType × Bytes → Type 0
HasNumber (typ, blob) =
    (RequirementType.from_u32 (RequirementType.to_u32 typ) ≡ typ)
    × IsU32 (RequirementType.to_u32 typ)

-- The bytes of all requirements.
abbrev pub size : RequirementSetBlob → ℕ
size [] = 0
size ((typ, blob) ∷ entries) = length blob + 8 + size entries

abbrev indices_from : ℕ → RequirementSetBlob → List BlobIndex
indices_from offset [] = []
indices_from offset ((typ, blob) ∷ entries) =
    record { typ = RequirementType.to_u32 typ; offset = offset }
    ∷ indices_from (offset + (length blob + 8)) entries

length-requirement : (blob : Bytes) → length (requirement_to_blob_bytes blob) ≡ length blob + 8
unfolding requirement_to_blob_bytes
length-requirement blob = length-to_blob_bytes _ blob

requirement_indices-from :
    (start written : ℕ) (entries : RequirementSetBlob)
    → IsU32 (start + written + size entries)
    → requirement_indices start written entries ≡ indices_from (start + written) entries
unfolding requirement_indices
requirement_indices-from start written [] h = refl
requirement_indices-from start written ((typ, blob) ∷ entries) h = rw (
  length-requirement blob,
  here,
  next,
  requirement_indices-from start (written + (length blob + 8)) entries (omega arith),
  sum,
)
  where
    here : (start + written) % 2 ^ 32 ≡ start + written
    here = omega arith

    next : (written + (length blob + 8) % 2 ^ 32) % 2 ^ 32 ≡ written + (length blob + 8)
    next = omega arith

    sum : start + (written + (length blob + 8)) ≡ start + written + (length blob + 8)
    sum = omega arith

length-requirement_indices :
    (start written : ℕ) (entries : RequirementSetBlob)
    → length (requirement_indices start written entries) ≡ length entries
unfolding requirement_indices
length-requirement_indices start written [] = refl
length-requirement_indices start written ((typ, blob) ∷ entries) = ap suc (
    length-requirement_indices start
      ((written + length (requirement_to_blob_bytes blob) % 2 ^ 32) % 2 ^ 32) entries)

length-indices_from :
    (offset : ℕ) (entries : RequirementSetBlob)
    → length (indices_from offset entries) ≡ length entries
length-indices_from offset [] = refl
length-indices_from offset ((typ, blob) ∷ entries) =
    ap suc (length-indices_from (offset + (length blob + 8)) entries)

indices_from-IsIndex :
    (offset : ℕ) (entries : RequirementSetBlob)
    → All HasNumber entries
    → IsU32 (offset + size entries)
    → All IsIndex (indices_from offset entries)
indices_from-IsIndex offset [] n h = tt
indices_from-IsIndex offset ((typ, blob) ∷ entries) n h = (
  (n.0.1, omega arith),
  indices_from-IsIndex (offset + (length blob + 8)) entries n.1 (omega arith),
)

length-write_requirements :
    (entries : RequirementSetBlob) → length (write_requirements entries) ≡ size entries
unfolding write_requirements
length-write_requirements [] = refl
length-write_requirements ((typ, blob) ∷ entries) = omega (
  arith,
  length-append (requirement_to_blob_bytes blob) (write_requirements entries),
  length-requirement blob,
  length-write_requirements entries,
)

end_of-indices_from :
    (data' : Bytes) (offset : ℕ) (entries : RequirementSetBlob)
    → length data' ≡ offset + size entries
    → end_of data' (indices_from offset entries) ≡ offset
unfolding end_of
end_of-indices_from data' offset [] h = omega arith
end_of-indices_from data' offset ((typ, blob) ∷ entries) h = refl

insert-new :
    (typ : RequirementType) (blob : Bytes) (entries : RequirementSetBlob)
    → All (λ entry. entry.0 ≢ typ) entries
    → insert typ blob entries ≡ entries ++ ((typ, blob) ∷ [])
unfolding insert
insert-new typ blob [] h = refl
insert-new typ blob ((key, value) ∷ entries) h = rw (if_neg _ h.0, insert-new typ blob entries h.1)

-- Every key of the map so far differs from the keys to come.
abbrev AreNew : RequirementSetBlob → RequirementSetBlob → Type 0
AreNew before entries = All (λ entry. All (λ old. old.0 ≢ entry.0) before) entries

AreNew-next :
    (before entries : RequirementSetBlob) (typ : RequirementType) (blob : Bytes)
    → AreNew before entries
    → All (λ entry. typ ≢ entry.0) entries
    → AreNew (before ++ ((typ, blob) ∷ [])) entries
AreNew-next before [] typ blob h k = tt
AreNew-next before (entry ∷ entries) typ blob h k = (
  All-append (λ old. old.0 ≢ entry.0) before ((typ, blob) ∷ []) h.0 (k.0, tt),
  AreNew-next before entries typ blob h.1 k.1,
)

read_requirements-write_requirements :
    (entries before : RequirementSetBlob) (front : Bytes) (offset : ℕ)
    → All HasNumber entries
    → HasDistinctKeys entries
    → AreNew before entries
    → length front ≡ offset
    → read_requirements (front ++ write_requirements entries) (indices_from offset entries) before
      ≡ ok (before ++ entries)
unfolding read_requirements write_requirements
read_requirements-write_requirements [] before front offset n d a w =
    ap ok (sym (append-nil before))
read_requirements-write_requirements ((typ, blob) ∷ entries) before front offset n d a w =
    rw
      (
        end,
        slice-append {E = Error} offset (offset + (length blob + 8)) front bytes rest w width,
        read,
        n.0.0,
        insert-new typ blob before a.0,
      )
      (ap
          (λ xs.
            read_requirements xs (indices_from (offset + (length blob + 8)) entries)
              (before ++ ((typ, blob) ∷ [])))
          (sym (append_assoc front bytes rest))
        ∙ read_requirements-write_requirements entries (before ++ ((typ, blob) ∷ []))
            (front ++ bytes) (offset + (length blob + 8)) n.1 d.1
            (AreNew-next before entries typ blob a.1 d.0) longer
        ∙ ap ok (append_assoc before ((typ, blob) ∷ []) entries))
  where
    bytes : Bytes
    bytes = requirement_to_blob_bytes blob

    rest : Bytes
    rest = write_requirements entries

    width : offset + length bytes ≡ offset + (length blob + 8)
    width = ap (λ n. offset + n) (length-requirement blob)

    longer : length (front ++ bytes) ≡ offset + (length blob + 8)
    longer = omega (arith, length-append front bytes, length-requirement blob, w)

    end :
        end_of (front ++ (bytes ++ rest)) (indices_from (offset + (length blob + 8)) entries)
        ≡ offset + (length blob + 8)
    end = end_of-indices_from _ _ entries (
        omega (
          arith,
          length-append front (bytes ++ rest),
          length-append bytes rest,
          length-requirement blob,
          length-write_requirements entries,
          w,
        ))

    read : requirement_from_blob_bytes bytes ≡ ok blob
    read =
        unfold requirement_from_blob_bytes requirement_to_blob_bytes in
        read_and_validate-to_blob_bytes _ blob "requirement blob"
          (unfold CodeSigningMagic.to_u32 in omega arith)

-- The blob in one piece.
front_of : RequirementSetBlob → Bytes
front_of requirements =
    u32_bytes (CodeSigningMagic.to_u32 CodeSigningMagic.requirement_set)
    ++ (u32_bytes ((length (serialize_payload requirements) % 2 ^ 32 + 8) % 2 ^ 32)
        ++ u32_bytes (length requirements))

shape :
    (requirements : RequirementSetBlob)
    → IsU32 (12 + 8 * length requirements + size requirements)
    → to_blob_bytes requirements
      ≡ front_of requirements
        ++ (write_indices (indices_from (12 + 8 * length requirements) requirements)
            ++ write_requirements requirements)
unfolding to_blob_bytes front_of Header.to_blob_bytes serialize_payload u32_bytes
shape requirements fits = rw (
  start,
  requirement_indices-from (12 + 8 * length requirements) 0 requirements (omega arith),
  zero,
)
  where
    start : (8 + 4 + 8 * (length requirements % 2 ^ 32)) % 2 ^ 32 ≡ 12 + 8 * length requirements
    start = omega arith

    zero : 12 + 8 * length requirements + 0 ≡ 12 + 8 * length requirements
    zero = omega arith

pub length-serialize_payload_set :
    (requirements : RequirementSetBlob)
    → IsU32 (12 + 8 * length requirements + size requirements)
    → length (serialize_payload requirements) + 8 ≡ 12 + 8 * length requirements + size requirements
unfolding serialize_payload u32_bytes
length-serialize_payload_set requirements fits = omega (
  arith,
  length-append (write_indices indices) (write_requirements requirements),
  length-write_indices indices,
  length-write_requirements requirements,
  counted,
)
  where
    indices : List BlobIndex
    indices =
        requirement_indices ((8 + 4 + 8 * (length requirements % 2 ^ 32)) % 2 ^ 32) 0 requirements

    counted : length indices ≡ length requirements
    counted = length-requirement_indices _ 0 requirements

-- A requirement set that is serialised, its requirements in any order, is read back as the same
-- set, provided its types are distinct, no type is an Unknown of a number that has a name, the
-- numbers fit 32 bits and so does the total length.
pub from_blob_bytes-to_blob_bytes_set :
    (requirements : RequirementSetBlob)
    → HasDistinctKeys requirements
    → All HasNumber requirements
    → IsU32 (12 + 8 * length requirements + size requirements)
    → from_blob_bytes (to_blob_bytes requirements) ≡ ok requirements
unfolding from_blob_bytes
from_blob_bytes-to_blob_bytes_set requirements d n fits =
    rw
      (
        headed,
        shape requirements fits,
        count,
        read_indices-write_indices indices 12 (front_of requirements) bodies
            (indices_from-IsIndex start requirements n fits) front_width,
      )
      (ap (λ xs. read_requirements xs indices [])
          (sym (append_assoc (front_of requirements) (write_indices indices) bodies))
        ∙ read_requirements-write_requirements requirements []
            (front_of requirements ++ write_indices indices) start n d (none_before requirements)
            width)
  where
    start : ℕ
    start = 12 + 8 * length requirements

    indices : List BlobIndex
    indices = indices_from start requirements

    bodies : Bytes
    bodies = write_requirements requirements

    headed :
        read_and_validate_blob_header
          (to_blob_bytes requirements)
          (CodeSigningMagic.to_u32 CodeSigningMagic.requirement_set)
          "requirement set blob"
        ≡ ok (serialize_payload requirements)
    headed =
        unfold to_blob_bytes in
        read_and_validate-to_blob_bytes _ (serialize_payload requirements) "requirement set blob"
          (unfold CodeSigningMagic.to_u32 in omega arith)

    front_width : length (front_of requirements) ≡ 12
    front_width = unfold front_of u32_bytes in refl

    count :
        pread_u32 scroll (front_of requirements ++ (write_indices indices ++ bodies)) 8
        ≡ ok (length indices)
    count =
        unfold front_of pread_u32 u32_bytes in
        ap ok (omega (arith, fits, length-indices_from start requirements))

    width : length (front_of requirements ++ write_indices indices) ≡ start
    width = omega (
      arith,
      front_width,
      length-append (front_of requirements) (write_indices indices),
      length-write_indices indices,
      length-indices_from start requirements,
    )

    none_before : (entries : RequirementSetBlob) → AreNew [] entries
    none_before [] = tt
    none_before (entry ∷ entries) = (tt, none_before entries)
