-- ===== src/Cpio/Odc/Reader/Entry.antt =====
-- One entry under `OdcReader` of odc.rs: reads inside it, and the search for the next header.
use apple_platform_rs.Base.{
  ℕ, zero, suc, ◌+◌, ◌-◌, ◌<◌, min, ◌≡◌, ◌≢◌, refl, ap, ap₂, ◌∙◌, true, false, none, some, List, [],
  ◌∷◌, ◌++◌, ok, length, take, drop, Bytes, arith, same_refl, same_distinct, length-take, drop_same,
  drop-drop, inl, inr, ◌⊎◌, length-drop, subst, take-take-drop, take_same,
}
use apple_platform_rs.Base.Tests.{Bool-cases, ==_iff, ◌==◌}
use apple_platform_rs.Cpio.Io.{M, ◌>>=◌, pure, read_exact-append}
use apple_platform_rs.Cpio.Odc.Header.{OdcHeader, magic, trailer}
use apple_platform_rs.Cpio.Odc.Header.RoundTrip.{
  IsWritable, encoded, encoded_fields, from_reader-encoded,
}
use apple_platform_rs.Cpio.Odc.Reader.{
  new, Take, take_read, buffer_size, drain, OdcReader, finish, open_entry, check_magic, find_header,
  read_next, read,
}

abbrev pub take_of : Bytes → ℕ → Take
take_of left limit = record { left = left; limit = limit }

same_take :
    {left left' : Bytes} {limit limit' : ℕ}
    → left ≡ left'
    → limit ≡ limit'
    → take_of left limit ≡ take_of left' limit'
same_take e e' = ap₂ take_of e e'

module _ (n : ℕ) (t : Take) where
  length-take_read : length (take_read n t).0 ≡ min (min n t.limit) (length t.left)
  unfolding take_read
  length-take_read = length-take (min n t.limit) t.left

  -- A read moves towards the end of the entry, and the end stays where it is.
  pub take_read-behind : drop (take_read n t).1.limit (take_read n t).1.left ≡ drop t.limit t.left
  unfolding take_read
  take_read-behind =
      drop-drop (t.limit - length (take (min n t.limit) t.left)) (min n t.limit) t.left
      ∙ drop_same _ t.limit t.left (omega (arith, length-take_read))

  take_read-limit :
      (take_read n t).1.limit - length (take_read n t).1.left ≡ t.limit - length t.left
  unfolding take_read
  take_read-limit = omega (arith, length-take_read, length-drop (min n t.limit) t.left)

  take_read-shorter : length (take_read n t).1.left ≡ length t.left - length (take_read n t).0
  unfolding take_read
  take_read-shorter = omega (arith, length-take_read, length-drop (min n t.limit) t.left)

-- However much of the entry was read, `finish` stands behind it.
pub drain-behind :
    (fuel : ℕ) (t : Take)
    → length t.left < fuel
    → drain fuel t ≡ ok (take_of (drop t.limit t.left) (t.limit - length t.left))
unfolding drain take_read
drain-behind zero t h = absurd (omega arith)
drain-behind (suc fuel) t h = elim (Bool-cases (length (take_read buffer_size t).0 == 0)) [
  | inl stop ↦ rw stop (ap ok (at_end ((==_iff _ _).0 stop)))
  | inr more ↦
      rw (more, drain-behind fuel (take_read buffer_size t).1 (shorter more))
        (ap ok (same_take (take_read-behind buffer_size t) (take_read-limit buffer_size t)))
]
  where
    at_end :
        length (take_read buffer_size t).0 ≡ 0
        → (take_read buffer_size t).1 ≡ take_of (drop t.limit t.left) (t.limit - length t.left)
    at_end e =
        same_take (drop_same _ t.limit t.left (omega (arith, length-take_read buffer_size t)))
          (omega (arith, length-take_read buffer_size t))

    shorter :
        (length (take_read buffer_size t).0 == 0) ≡ false
        → length (take_read buffer_size t).1.left < fuel
    shorter more = ground (arith, take_read-shorter buffer_size t, length-take_read buffer_size t)

-- `rest` follows the entry that the reader is in.
pub record IsBefore (rest : Bytes) (s : OdcReader) : Type 0 where
  pub open_archive : s.seen_trailer ≡ false
  pub behind :
      ((t : Take) × (s.entry_reader ≡ some t) × (drop t.limit t.left ≡ rest))
      ⊎ ((s.entry_reader ≡ none) × (s.archive_reader ≡ some rest))

-- What `finish` leaves.
abbrev idle : Bytes → OdcReader
idle rest = record { archive_reader = some rest; entry_reader = none; seen_trailer = false }

finish-IsBefore : (rest : Bytes) (s : OdcReader) → IsBefore rest s → finish s ≡ (ok tt, idle rest)
unfolding finish
finish-IsBefore rest s h = elim h.behind [
  | inl (t, e, back) ↦
      rw (e, drain-behind (suc (length t.left)) t (omega arith), h.open_archive, back)
  | inr (e, e') ↦ rw (e, e', h.open_archive)
]

pub new-IsBefore : (bytes : Bytes) → IsBefore bytes (new bytes)
unfolding new
new-IsBefore bytes = record { open_archive = refl; behind = inr (refl, refl) }

-- Inside an entry with `size` bytes of data that `left` starts with.
abbrev pub inside : Bytes → ℕ → OdcReader
inside left size = record {
  archive_reader = none;
  entry_reader = some (take_of left size);
  seen_trailer = false;
}

abbrev pub ended : OdcReader
ended = record { archive_reader = none; entry_reader = none; seen_trailer = true }

module _ (h : OdcHeader) (tail : Bytes) (s : OdcReader) (w : IsWritable h) where
  pub read_next-entry :
      h.name ≢ trailer
      → IsBefore (encoded h ++ tail) s
      → read_next s ≡ (ok (some h), inside tail h.file_size)
  unfolding read_next find_header check_magic open_entry
  read_next-entry named before = rw (
    finish-IsBefore _ s before,
    read_exact-append 6 magic (encoded_fields h ++ tail) refl,
    same_refl magic,
    from_reader-encoded h tail w,
    same_distinct h.name trailer named,
  )

  pub read_next-trailer :
      h.name ≡ trailer → IsBefore (encoded h ++ tail) s → read_next s ≡ (ok none, ended)
  unfolding read_next find_header check_magic open_entry
  read_next-trailer named before = rw (
    finish-IsBefore _ s before,
    read_exact-append 6 magic (encoded_fields h ++ tail) refl,
    same_refl magic,
    from_reader-encoded h tail w,
    named,
    same_refl trailer,
  )

-- A client that reads pieces of the sizes `ns` and puts them together.
unfoldable pub reads : List ℕ → M OdcReader Bytes
reads [] = pure []
reads (n ∷ ns) = do bytes ← read n; more ← reads ns; pure (bytes ++ more)

abbrev pub sum : List ℕ → ℕ
sum [] = 0
sum (n ∷ ns) = n + sum ns

piece_and_more :
    (n m : ℕ) (t : Take)
    → (take_read n t).0 ++ take (min m (take_read n t).1.limit) (take_read n t).1.left
      ≡ take (min (n + m) t.limit) t.left
unfolding take_read
piece_and_more n m t =
    take-take-drop (min n t.limit) (min m (t.limit - length (take (min n t.limit) t.left))) t.left
    ∙ take_same _ (min (n + m) t.limit) t.left (omega (arith, length-take_read n t))

-- Inside an entry, reads of any sizes give together the first bytes of what is left, up to their
-- sum and to the entry's end, and leave the reader in front of what follows the entry.
pub reads_data :
    (ns : List ℕ) (s : OdcReader) (t : Take)
    → s.entry_reader ≡ some t
    → s.seen_trailer ≡ false
    → (s' : OdcReader) × (reads ns s ≡ (ok (take (min (sum ns) t.limit) t.left), s'))
      × IsBefore (drop t.limit t.left) s'
unfolding reads read
reads_data [] s t e o = (s, rw zero_min, record { open_archive = o; behind = inl (t, e, refl) })
  where
    zero_min : min 0 t.limit ≡ 0
    zero_min = omega arith
reads_data (n ∷ ns) s t e o =
    let step : OdcReader = record s { entry_reader = some (take_read n t).1 } in
    let (s', data', before) = reads_data ns step (take_read n t).1 refl o in
    (
      s',
      rw (e, data', piece_and_more n (sum ns) t),
      subst (λ rest. IsBefore rest s') (take_read-behind n t) before,
    )
