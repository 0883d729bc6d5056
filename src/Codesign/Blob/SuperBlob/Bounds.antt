-- ===== src/Codesign/Blob/SuperBlob/Bounds.antt =====
-- `EmbeddedSignature::from_bytes` of embedded_signature.rs on any bytes.
use apple_platform_rs.Base.{
  ℕ, zero, suc, ◌+◌, ◌-◌, ◌≤◌, ◌≡◌, refl, ap, ◌∙◌, List, [], ◌∷◌, true, ok, Bytes, length, take,
  drop, All, arith, slice, length-take, length-drop, Ends, value, error, Ends-bind, Ends-ok,
  Ends-of_ok, pread_u32-Ends_any, slice-Ends_any, slice_from-Ends_any, Bool-cases, inl, inr,
}
use apple_platform_rs.Codesign.Error.{scroll}
use apple_platform_rs.Codesign.Blob.CodeSigningMagic
use apple_platform_rs.Codesign.Blob.CodeSigningSlot.{IsNormal, from_u32-IsNormal}
use apple_platform_rs.Codesign.Blob.Header.{read_blob_header}
use apple_platform_rs.Codesign.Blob.SuperBlob.{
  BlobIndex, BlobEntry, EmbeddedSignature, read_indices, cut_blob, read_entry, read_entries,
  from_bytes, is_embedded_signature,
}

-- The entry's bytes are those of the data at its offset, as many as its length says.
abbrev pub IsWithin : Bytes → BlobEntry → Type 0
IsWithin data' e =
    (e.offset + e.len ≤ length data')
    × (e.bytes ≡ take e.len (drop e.offset data'))
    × IsNormal e.slot

-- The entries are numbered from `i` on.
abbrev pub IsNumbered : ℕ → List BlobEntry → Type 0
IsNumbered i [] = Unit {0}
IsNumbered i (e ∷ entries) = (e.index ≡ i) × IsNumbered (i + 1) entries

take-take : (n m : ℕ) (xs : Bytes) → n ≤ m → take n (take m xs) ≡ take n xs
take-take zero m xs h = refl
take-take (suc n) zero xs h = absurd (omega arith)
take-take (suc n) (suc m) [] h = refl
take-take (suc n) (suc m) (x ∷ xs) h = ap (λ t. x ∷ t) (take-take n m xs (omega arith))

take_all : (n : ℕ) (xs : Bytes) → n ≡ length xs → take n xs ≡ xs
take_all zero [] h = refl
take_all zero (x ∷ xs) h = absurd (omega arith)
take_all (suc n) [] h = absurd (omega arith)
take_all (suc n) (x ∷ xs) h = ap (λ t. x ∷ t) (take_all n xs (omega arith))

-- The cut is as long as it should be, and comes from the front.
cut_blob_ok :
    (n : ℕ) (full blob : Bytes)
    → cut_blob n full ≡ ok blob
    → (n ≤ length full) × (blob ≡ take n full)
unfolding cut_blob slice
cut_blob_ok n full blob h = ground (arith, take_all n full)

cut_blob-Ends :
    (n : ℕ) (full : Bytes)
    → Ends (λ blob. (n ≤ length full) × (blob ≡ take n full)) (cut_blob n full)
cut_blob-Ends n full =
    Ends-of_ok (cut_blob n full) (unfold cut_blob slice in ground arith) (cut_blob_ok n full)

read_blob_header-Ends : (bytes : Bytes) → Ends (λ _. Unit {0}) (read_blob_header bytes)
unfolding read_blob_header
read_blob_header-Ends bytes = Ends-bind (pread_u32-Ends_any scroll bytes 0) λ magic _.
    Ends-bind (pread_u32-Ends_any scroll bytes 4)
      λ len _. Ends-bind (slice_from-Ends_any bytes 8) λ payload _. value tt

-- A cut of a slice is a slice.
cut_of_slice :
    (data' full blob : Bytes) (from to n : ℕ)
    → from ≤ to
    → to ≤ length data'
    → full ≡ take (to - from) (drop from data')
    → n ≤ length full
    → blob ≡ take n full
    → (from + n ≤ length data') × (blob ≡ take n (drop from data'))
cut_of_slice data' full blob from to n h k f m b = (omega (arith, width), cut)
  where
    width : length full ≡ to - from
    width = rw f (omega (arith, length-take (to - from) (drop from data'), length-drop from data'))

    cut : blob ≡ take n (drop from data')
    cut = rw (b, f) (take-take n (to - from) (drop from data') (omega (arith, width)))

read_entry-IsWithin :
    (data' : Bytes) (i end : ℕ) (index : BlobIndex)
    → Ends (λ e. IsWithin data' e × (e.index ≡ i)) (read_entry data' i index end)
unfolding read_entry
read_entry-IsWithin data' i end index =
    Ends-bind (slice-Ends_any data' index.offset end) λ full (ordered, inside, cut).
      Ends-bind (read_blob_header-Ends full) λ header _.
        Ends-bind (cut_blob-Ends header.1 full) λ blob (fits, taken).
          let (bound, bytes) = cut_of_slice data' full blob _ _ _ ordered inside cut fits taken in
          value ((bound, bytes, from_u32-IsNormal index.typ), refl)

read_entries-IsWithin :
    (data' : Bytes) (i : ℕ) (indices : List BlobIndex)
    → Ends
        (λ entries.
          All (IsWithin data') entries × IsNumbered i entries × (length entries ≡ length indices))
        (read_entries data' i indices)
unfolding read_entries
read_entries-IsWithin data' i [] = value (tt, tt, refl)
read_entries-IsWithin data' i (index ∷ indices) =
    Ends-bind (read_entry-IsWithin data' i _ index) λ e (within, number).
      Ends-bind (read_entries-IsWithin data' (i + 1) indices)
        λ entries (all', numbers, count). value ((within, all'), (number, numbers), ap suc count)

read_indices-Ends :
    (count offset : ℕ) (data' : Bytes)
    → Ends (λ indices. length indices ≡ count) (read_indices count offset data')
unfolding read_indices
read_indices-Ends zero offset data' = value refl
read_indices-Ends (suc count) offset data' =
    Ends-bind (pread_u32-Ends_any scroll data' offset) λ typ _.
      Ends-bind (pread_u32-Ends_any scroll data' (offset + 4)) λ start _.
        Ends-bind (read_indices-Ends count (offset + 8) data') λ rest same. value (ap suc same)

-- What holds of a parsed signature.
pub record IsSound (data' : Bytes) (s : EmbeddedSignature) : Type 0 where
  pub magic_is : s.magic ≡ CodeSigningMagic.embedded_signature
  pub whole : s.bytes ≡ data'
  pub counted : length s.blobs ≡ s.count
  pub numbered : IsNumbered 0 s.blobs
  pub within : All (IsWithin data') s.blobs

is_embedded_signature→eq :
    (m : CodeSigningMagic.CodeSigningMagic)
    → is_embedded_signature m ≡ true
    → m ≡ CodeSigningMagic.embedded_signature
unfolding is_embedded_signature
is_embedded_signature→eq m h = ground arith

from_bytes-Ends : (data' : Bytes) → Ends (IsSound data') (from_bytes data')
unfolding from_bytes
from_bytes-Ends data' = Ends-bind (pread_u32-Ends_any scroll data' 0) λ raw _.
    elim (Bool-cases (is_embedded_signature (CodeSigningMagic.from_u32 raw))) [
      | inr other ↦ rw other error
      | inl embedded ↦ rw embedded (
          Ends-bind (pread_u32-Ends_any scroll data' 4) λ len _.
            Ends-bind (pread_u32-Ends_any scroll data' 8) λ count _.
              Ends-bind (read_indices-Ends count 12 data') λ indices same.
                Ends-bind (read_entries-IsWithin data' 0 indices) λ blobs (all', numbers, size).
                  value record {
                    magic_is = is_embedded_signature→eq _ embedded;
                    whole = refl;
                    counted = size ∙ same;
                    numbered = numbers;
                    within = all';
                  })
    ]

-- Whatever the data, a superblob that EmbeddedSignature::from_bytes accepts has the magic of an
-- embedded signature, as many blobs as it says, numbered in order, and each of them lies inside
-- the data at its offset, with the length that it states, under a slot that is Unknown only for a
-- number without a name.
pub from_bytes-IsSound :
    (data' : Bytes) (signature : EmbeddedSignature)
    → from_bytes data' ≡ ok signature
    → IsSound data' signature
from_bytes-IsSound data' signature h = Ends-ok (from_bytes-Ends data') h
