-- ===== src/Cpio/Newc/Reader/Archive.antt =====
-- Whole archives under `NewcReader` of newc.rs: the bytes of entries and trailer, and a client that reads them.
use apple_platform_rs.Base.{
  ℕ, zero, suc, ◌<◌, min, ◌≡◌, ◌≢◌, refl, ap, ◌∙◌, subst, true, false, Option, none, some, List, [],
  ◌∷◌, ◌++◌, map, ok, stuck, length, take, drop, All, Bytes, arith, append_assoc, drop-append,
  same_refl, same_distinct, take-prefix, length-replicate,
}
use apple_platform_rs.Cpio.Io.{M, ◌>>=◌, pure, read_exact-append}
use apple_platform_rs.Cpio.Odc.Header.{trailer}
use apple_platform_rs.Cpio.Odc.Reader.{Take, take_read}
use apple_platform_rs.Cpio.Odc.Reader.Entry.{take_of, drain-behind, take_read-behind}
use apple_platform_rs.Cpio.Newc.Header.{NewcHeader, magic, pad_to_4}
use apple_platform_rs.Cpio.Newc.Header.RoundTrip.{
  IsReadable, encoded, encoded_fields, zeros, from_reader_aligned,
}
use apple_platform_rs.Cpio.Newc.Reader.{
  NewcReader, new, restore, skip_pad, finish, open_entry, check_magic, find_header, read_next, read,
}

pub record NewcEntry : Type 0 where
  pub header : NewcHeader
  pub data' : Bytes

pub record IsEntry (e : NewcEntry) : Type 0 where
  pub readable : IsReadable e.header
  pub sized : length e.data' ≡ e.header.file_size
  pub named : e.header.name ≢ trailer

-- Each entry is followed by zeros up to a multiple of four.
unfoldable pub entries_bytes : List NewcEntry → Bytes
entries_bytes [] = []
entries_bytes (e ∷ es) =
    encoded e.header ++ (e.data' ++ (zeros e.header.file_size ++ entries_bytes es))

-- A client's round: one piece of the entry that was found, then the rest of the archive.
unfoldable pub round :
    (NewcHeader → ℕ)
    → M NewcReader (List (NewcHeader × Bytes))
    → Option NewcHeader
    → M NewcReader (List (NewcHeader × Bytes))
round plan others none = pure []
round plan others (some header) = do
  bytes ← read (plan header)
  rest ← others
  pure ((header, bytes) ∷ rest)

-- A client that lists an archive and reads of each entry a piece of the size that `plan` says.
unfoldable pub extract : ℕ → (NewcHeader → ℕ) → M NewcReader (List (NewcHeader × Bytes))
extract zero plan s = (stuck, s)
extract (suc fuel) plan s = (read_next >>= round plan (extract fuel plan)) s

-- What the plan reads of an entry.
abbrev pub planned : (NewcHeader → ℕ) → NewcEntry → NewcHeader × Bytes
planned plan e = (e.header, take (min (plan e.header) e.header.file_size) e.data')

-- In front of an entry, inside one, and behind the trailer.
abbrev pub idle : Bytes → NewcReader
idle rest = record {
  archive_reader = some rest;
  entry_reader = none;
  entry_data_pad = 0;
  seen_trailer = false;
}

abbrev pub inside : Take → ℕ → NewcReader
inside t pad = record {
  archive_reader = none;
  entry_reader = some t;
  entry_data_pad = pad;
  seen_trailer = false;
}

abbrev pub ended : NewcReader
ended = record {
  archive_reader = none;
  entry_reader = none;
  entry_data_pad = 0;
  seen_trailer = true;
}

finish-inside :
    (t : Take) (n : ℕ) (rest : Bytes)
    → drop t.limit t.left ≡ zeros n ++ rest
    → finish (inside t (pad_to_4 n)) ≡ (ok tt, idle rest)
unfolding finish skip_pad restore
finish-inside t n rest e = rw (
  drain-behind (suc (length t.left)) t (omega arith),
  e,
  read_exact-append (pad_to_4 n) (zeros n) rest (length-replicate (pad_to_4 n) 0),
)

module _ (h : NewcHeader) (tail : Bytes) (s : NewcReader) (w : IsReadable h) where
  read_next-entry :
      h.name ≢ trailer
      → finish s ≡ (ok tt, idle (encoded h ++ tail))
      → read_next s ≡ (ok (some h), inside (take_of tail h.file_size) (pad_to_4 h.file_size))
  unfolding read_next find_header check_magic open_entry
  read_next-entry named before = rw (
    before,
    read_exact-append 6 magic (encoded_fields h ++ tail) refl,
    same_refl magic,
    (from_reader_aligned h tail w).0,
    same_distinct h.name trailer named,
  )

  read_next-trailer :
      h.name ≡ trailer
      → finish s ≡ (ok tt, idle (encoded h ++ tail))
      → read_next s ≡ (ok none, ended)
  unfolding read_next find_header check_magic open_entry
  read_next-trailer named before = rw (
    before,
    read_exact-append 6 magic (encoded_fields h ++ tail) refl,
    same_refl magic,
    (from_reader_aligned h tail w).0,
    named,
    same_refl trailer,
  )

module _ (plan : NewcHeader → ℕ) (end : NewcHeader) (beyond : Bytes) where
  extract-entries :
      (es : List NewcEntry) (fuel : ℕ) (s : NewcReader)
      → IsReadable end
      → end.name ≡ trailer
      → All IsEntry es
      → length es < fuel
      → finish s ≡ (ok tt, idle (entries_bytes es ++ (encoded end ++ beyond)))
      → extract fuel plan s ≡ (ok (map (planned plan) es), ended)
  unfolding extract round entries_bytes read
  extract-entries es zero s w named all fits before = absurd (omega arith)
  extract-entries [] (suc fuel) s w named all fits before =
      rw (read_next-trailer end beyond s w named before)
  extract-entries (e ∷ es) (suc fuel) s w named all fits before = rw (
    read_next-entry e.header tail s (all.0).readable (all.0).named
        (subst (λ b. finish s ≡ (ok tt, idle b)) regroup before),
    extract-entries es fuel (inside (take_read (plan e.header) t).1 (pad_to_4 e.header.file_size)) w
        named all.1 (omega arith)
        (finish-inside _ e.header.file_size (entries_bytes es ++ (encoded end ++ beyond))
          (take_read-behind (plan e.header) t ∙ skipped)),
    piece,
  )
    where
      tail : Bytes
      tail = e.data' ++ (zeros e.header.file_size ++ (entries_bytes es ++ (encoded end ++ beyond)))

      t : Take
      t = take_of tail e.header.file_size

      regroup :
          (encoded e.header ++ (e.data' ++ (zeros e.header.file_size ++ entries_bytes es)))
            ++ (encoded end ++ beyond)
          ≡ encoded e.header ++ tail
      regroup =
          append_assoc (encoded e.header)
            (e.data' ++ (zeros e.header.file_size ++ entries_bytes es)) (encoded end ++ beyond)
          ∙ ap (λ t. encoded e.header ++ t)
              (append_assoc e.data' (zeros e.header.file_size ++ entries_bytes es)
                  (encoded end ++ beyond)
                ∙ ap (λ t. e.data' ++ t)
                    (append_assoc (zeros e.header.file_size) (entries_bytes es)
                      (encoded end ++ beyond)))

      skipped :
          drop e.header.file_size tail
          ≡ zeros e.header.file_size ++ (entries_bytes es ++ (encoded end ++ beyond))
      skipped = rw (← (all.0).sized) (drop-append e.data' _)

      piece :
          (take_read (plan e.header) t).0 ≡ take (min (plan e.header) e.header.file_size) e.data'
      piece =
          unfold take_read in
          take-prefix (min (plan e.header) e.header.file_size) e.data' _
            (omega (arith, (all.0).sized))

-- A client that lists the bytes of readable newc entries, each padded to a multiple of four, and a
-- trailer with a NewcReader, and reads one piece of any size of each entry, gets the headers in
-- order and the first bytes of each entry, up to the size of the piece and to the entry's end;
-- what follows the trailer is not read.
pub extract_newc_archive :
    (plan : NewcHeader → ℕ) (es : List NewcEntry) (end : NewcHeader) (beyond : Bytes)
    → All IsEntry es
    → IsReadable end
    → end.name ≡ trailer
    → extract (suc (length es)) plan (new (entries_bytes es ++ (encoded end ++ beyond)))
      ≡ (ok (map (planned plan) es), ended)
unfolding new
extract_newc_archive plan es end beyond all w named =
    extract-entries plan end beyond es (suc (length es)) _ w named all (omega arith)
      (unfold finish in refl)
