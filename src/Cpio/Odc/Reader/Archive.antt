-- ===== src/Cpio/Odc/Reader/Archive.antt =====
-- Whole archives under `OdcReader` of odc.rs: the bytes of entries and trailer, and a client that reads them.
use apple_platform_rs.Base.{
  ℕ, zero, suc, min, ◌≡◌, ◌≢◌, refl, ap, Option, none, some, List, [], ◌∷◌, ◌++◌, map, ok, stuck,
  length, take, drop, All, Bytes, arith, append_assoc, drop-append, subst, ◌<◌, ◌∙◌, take-prefix,
}
use apple_platform_rs.Cpio.Io.{M, ◌>>=◌, pure}
use apple_platform_rs.Cpio.Odc.Header.{OdcHeader, trailer}
use apple_platform_rs.Cpio.Odc.Header.RoundTrip.{IsWritable, encoded}
use apple_platform_rs.Cpio.Odc.Reader.{OdcReader, new, read_next}
use apple_platform_rs.Cpio.Odc.Reader.Entry.{
  IsBefore, new-IsBefore, inside, ended, read_next-entry, read_next-trailer, reads, reads_data, sum,
}

pub record ArchiveEntry : Type 0 where
  pub header : OdcHeader
  pub data' : Bytes

pub record IsEntry (e : ArchiveEntry) : Type 0 where
  pub writable : IsWritable e.header
  pub sized : length e.data' ≡ e.header.file_size
  pub named : e.header.name ≢ trailer

unfoldable pub entries_bytes : List ArchiveEntry → Bytes
entries_bytes [] = []
entries_bytes (e ∷ es) = encoded e.header ++ (e.data' ++ entries_bytes es)

-- The client's round: the pieces of the entry that was found, then the rest of the archive.
unfoldable pub round :
    (OdcHeader → List ℕ)
    → M OdcReader (List (OdcHeader × Bytes))
    → Option OdcHeader
    → M OdcReader (List (OdcHeader × Bytes))
round plan others none = pure []
round plan others (some header) = do
  bytes ← reads (plan header)
  rest ← others
  pure ((header, bytes) ∷ rest)

-- A client that lists an archive and reads of each entry as many pieces as `plan` says.
unfoldable pub extract : ℕ → (OdcHeader → List ℕ) → M OdcReader (List (OdcHeader × Bytes))
extract zero plan s = (stuck, s)
extract (suc fuel) plan s = (read_next >>= round plan (extract fuel plan)) s

-- What the plan reads of an entry.
abbrev pub planned : (OdcHeader → List ℕ) → ArchiveEntry → OdcHeader × Bytes
planned plan e = (e.header, take (min (sum (plan e.header)) e.header.file_size) e.data')

module _ (plan : OdcHeader → List ℕ) (end : OdcHeader) (beyond : Bytes) where
  extract-entries :
      (es : List ArchiveEntry) (fuel : ℕ) (s : OdcReader)
      → IsWritable end
      → end.name ≡ trailer
      → All IsEntry es
      → length es < fuel
      → IsBefore (entries_bytes es ++ (encoded end ++ beyond)) s
      → extract fuel plan s ≡ (ok (map (planned plan) es), ended)
  unfolding extract round entries_bytes
  extract-entries es zero s w named all fits before = absurd (omega arith)
  extract-entries [] (suc fuel) s w named all fits before =
      rw (read_next-trailer end beyond s w named before)
  extract-entries (e ∷ es) (suc fuel) s w named all fits before =
      let (s', bytes, next) =
        reads_data (plan e.header) (inside tail e.header.file_size) _ refl refl in
      rw (
        read_next-entry e.header tail s (all.0).writable (all.0).named
            (subst (λ b. IsBefore b s) regroup before),
        bytes,
        extract-entries es fuel s' w named all.1 (omega arith)
            (subst (λ b. IsBefore b s') skipped next),
        take-prefix (min (sum (plan e.header)) e.header.file_size) e.data'
            (entries_bytes es ++ (encoded end ++ beyond)) (omega (arith, (all.0).sized)),
      )
    where
      tail : Bytes
      tail = e.data' ++ (entries_bytes es ++ (encoded end ++ beyond))

      regroup :
          (encoded e.header ++ (e.data' ++ entries_bytes es)) ++ (encoded end ++ beyond)
          ≡ encoded e.header ++ tail
      regroup =
          append_assoc (encoded e.header) (e.data' ++ entries_bytes es) (encoded end ++ beyond)
          ∙ ap (λ t. encoded e.header ++ t)
              (append_assoc e.data' (entries_bytes es) (encoded end ++ beyond))

      skipped : drop e.header.file_size tail ≡ entries_bytes es ++ (encoded end ++ beyond)
      skipped = rw (← (all.0).sized) (drop-append e.data' _)

-- A client that lists the bytes of writable entries and a trailer with an OdcReader, and reads any
-- number of pieces of each entry, gets the headers in order and, of each entry, the first bytes up
-- to the sum of the piece sizes and to its size; what follows the trailer is not read.
pub extract_archive :
    (plan : OdcHeader → List ℕ) (es : List ArchiveEntry) (end : OdcHeader) (beyond : Bytes)
    → All IsEntry es
    → IsWritable end
    → end.name ≡ trailer
    → extract (suc (length es)) plan (new (entries_bytes es ++ (encoded end ++ beyond)))
      ≡ (ok (map (planned plan) es), ended)
extract_archive plan es end beyond all w named =
    extract-entries plan end beyond es (suc (length es)) _ w named all (omega arith)
      (new-IsBefore _)
