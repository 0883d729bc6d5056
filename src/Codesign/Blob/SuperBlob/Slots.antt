-- ===== src/Codesign/Blob/SuperBlob/Slots.antt =====
-- `find_slot` on a superblob that `create_superblob` wrote.
use apple_platform_rs.Base.{
  ℕ, ◌+◌, ◌*◌, ◌≡◌, ◌≢◌, refl, ap, List, [], ◌∷◌, ◌++◌, some, ok, IsU32, length, All, arith, ◌∙◌,
}
use mathlib.Core.Logic.{if_pos, if_neg}
use apple_platform_rs.Codesign.Blob.CodeSigningMagic
use apple_platform_rs.Codesign.Blob.SuperBlob.{
  EmbeddedSignature, create_superblob, from_bytes, find_blob, find_slot,
}
use apple_platform_rs.Codesign.Blob.SuperBlob.Entries.{
  Stored, IsStored, serialise, size, entry, entries_from,
}
use apple_platform_rs.Codesign.Blob.SuperBlob.RoundTrip.{from_bytes-create_superblob}

find_blob-entries_from :
    (front back : List Stored) (stored : Stored) (i offset : ℕ)
    → All (λ other. other.0 ≢ stored.0) front
    → find_blob stored.0 (entries_from i offset (front ++ (stored ∷ back)))
      ≡ some (entry (i + length front) (offset + size front) stored)
unfolding find_blob
find_blob-entries_from [] back (slot, magic, payload) i offset h = rw (if_pos _ refl) (ground arith)
find_blob-entries_from ((slot', magic', payload') ∷ front) back stored i offset h =
    rw
      (
        if_neg _ h.0,
        find_blob-entries_from front back stored (i + 1) (offset + (length payload' + 8)) h.1,
      )
      (ground arith)

-- On the signature read from a superblob that create_superblob wrote, find_slot gives the first
-- blob that was stored under the slot, with its index and offset, provided slot numbers, magics
-- and the total length fit 32 bits and no slot is an Unknown of a number that has a name.
pub find_slot-create_superblob :
    (front back : List Stored) (stored : Stored) (signature : EmbeddedSignature)
    → All IsStored (front ++ (stored ∷ back))
    → IsU32 (12 + 8 * length (front ++ (stored ∷ back)) + size (front ++ (stored ∷ back)))
    → All (λ other. other.0 ≢ stored.0) front
    → from_bytes (
        create_superblob CodeSigningMagic.embedded_signature (serialise (front ++ (stored ∷ back))))
      ≡ ok signature
    → find_slot signature stored.0
      ≡ some (entry (length front) (12 + 8 * length (front ++ (stored ∷ back)) + size front) stored)
unfolding find_slot
find_slot-create_superblob front back stored signature s h first e = rw (← same) (
    find_blob-entries_from front back stored 0 (12 + 8 * length (front ++ (stored ∷ back))) first
    ∙ ap (λ n. some (entry n (12 + 8 * length (front ++ (stored ∷ back)) + size front) stored))
        zero_add)
  where
    zero_add : 0 + length front ≡ length front
    zero_add = omega arith

    same :
        entries_from 0 (12 + 8 * length (front ++ (stored ∷ back))) (front ++ (stored ∷ back))
        ≡ signature.blobs
    same = cc (from_bytes-create_superblob (front ++ (stored ∷ back)) s h)
