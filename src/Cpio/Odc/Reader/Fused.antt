-- ===== src/Cpio/Odc/Reader/Fused.antt =====
-- `OdcReader` of odc.rs at the end of its iteration.
use apple_platform_rs.Base.{
  suc, ◌≡◌, ◌≢◌, refl, ◌⊎◌, inl, inr, Bool, Option, none, some, ok, err, panic, stuck, Bytes, arith,
  same, length, sym, subst, ap₂, drop,
}
use apple_platform_rs.Base.Fallible.{Outcome}
use apple_platform_rs.Base.Tests.{Bool-cases, Option-cases}
use apple_platform_rs.Cpio.Error.{
  Error, unexpected_eof, no_entry, bad_magic, bad_header_string, bad_header_hex, filename_decode,
  value_too_large, size_mismatch, not_a_file,
}
use apple_platform_rs.Cpio.Odc.Header.{OdcHeader, trailer, magic, from_reader}
use apple_platform_rs.Cpio.Io.{read_exact}
use apple_platform_rs.Cpio.Odc.Reader.{
  OdcReader, finish, open_entry, check_magic, find_header, read_next, item, next,
}
use apple_platform_rs.Cpio.Odc.Reader.Entry.{drain-behind}

-- The reader has given up its source.
record IsClosed (s : OdcReader) : Type 0 where
  pub no_entry_reader : s.entry_reader ≡ none
  pub no_archive_reader : s.archive_reader ≡ none

-- A header was found, or the reader is closed.
abbrev FoundOrClosed : Outcome Error (Option OdcHeader) × OdcReader → Type 0
FoundOrClosed r = ((h : OdcHeader) × (r.0 ≡ ok (some h))) ⊎ IsClosed r.1

open_entry-closed :
    (s : OdcReader) (r : Outcome Error OdcHeader × Bytes)
    → IsClosed s
    → FoundOrClosed (open_entry s r)
unfolding open_entry
open_entry-closed s (ok h, left) c = elim (Bool-cases (same h.name trailer)) [
  | inl e ↦
      rw e (
        inr record { no_entry_reader = c.no_entry_reader; no_archive_reader = c.no_archive_reader })
  | inr e ↦ rw e (inl (h, refl))
]
open_entry-closed s (err e, left) c = inr c
open_entry-closed s (panic, left) c = inr c
open_entry-closed s (stuck, left) c = inr c

check_magic-closed :
    (s : OdcReader) (r : Outcome Error Bytes × Bytes) → IsClosed s → FoundOrClosed (check_magic s r)
unfolding check_magic
check_magic-closed s (ok found, left) c = elim (Bool-cases (same found magic)) [
  | inl e ↦ rw e (open_entry-closed s (from_reader left) c)
  | inr e ↦ rw e (inr c)
]
check_magic-closed s (err unexpected_eof, left) c = inr c
check_magic-closed s (err no_entry, left) c = inr c
check_magic-closed s (err bad_magic, left) c = inr c
check_magic-closed s (err bad_header_string, left) c = inr c
check_magic-closed s (err (bad_header_hex b), left) c = inr c
check_magic-closed s (err filename_decode, left) c = inr c
check_magic-closed s (err value_too_large, left) c = inr c
check_magic-closed s (err size_mismatch, left) c = inr c
check_magic-closed s (err not_a_file, left) c = inr c
check_magic-closed s (panic, left) c = inr c
check_magic-closed s (stuck, left) c = inr c

abbrev pub finished : Option Bytes → Bool → OdcReader
finished left seen = record { archive_reader = left; entry_reader = none; seen_trailer = seen }

pub finish_total :
    (s : OdcReader) → (left : Option Bytes) × (finish s ≡ (ok tt, finished left s.seen_trailer))
unfolding finish
finish_total s = elim (Option-cases s.entry_reader) [
  | inl e ↦ (s.archive_reader, rw e)
  | inr (t, e) ↦ elim (Bool-cases s.seen_trailer) [
    | inl seen ↦
        (s.archive_reader, rw (e, drain-behind (suc (length t.left)) t (omega arith), seen))
    | inr unseen ↦ (
      some (drop t.limit t.left),
      rw (e, drain-behind (suc (length t.left)) t (omega arith), unseen),
    )
  ]
]

find_header-closed :
    (left : Option Bytes) (seen : Bool) → FoundOrClosed (find_header (ok tt, finished left seen))
unfolding find_header
find_header-closed none seen = inr record { no_entry_reader = refl; no_archive_reader = refl }
find_header-closed (some left) seen =
    check_magic-closed (finished none seen) (read_exact 6 left)
      record { no_entry_reader = refl; no_archive_reader = refl }

read_next-closed : (s : OdcReader) → FoundOrClosed (read_next s)
unfolding read_next
read_next-closed s =
    let (left, done) = finish_total s in rw done (find_header-closed left s.seen_trailer)

closed_form : (s : OdcReader) → IsClosed s → s ≡ finished none s.seen_trailer
closed_form s c =
    ap₂
      (λ left entry. record {
        archive_reader = left;
        entry_reader = entry;
        seen_trailer = s.seen_trailer;
      })
      c.no_archive_reader c.no_entry_reader

next_at_end : (s : OdcReader) → IsClosed s → next s ≡ (none, s)
unfolding next item read_next find_header finish
next_at_end s c = subst (λ s. next s ≡ (none, s)) (sym (closed_form s c)) refl

item_state : (r : Outcome Error (Option OdcHeader) × OdcReader) → (item r).1 ≡ r.1
unfolding item
item_state (ok none, s) = refl
item_state (ok (some h), s) = refl
item_state (err e, s) = refl
item_state (panic, s) = refl
item_state (stuck, s) = refl

item_found :
    (r : Outcome Error (Option OdcHeader) × OdcReader) (h : OdcHeader)
    → r.0 ≡ ok (some h)
    → (item r).0 ≡ some (ok h)
unfolding item
item_found (o, s) h e = rw e

-- The iterator is fused in every state: after an item that is no header, be it the end or an
-- error, next gives the end forever and leaves the reader as it is.
pub next_fused :
    (s : OdcReader)
    → ((h : OdcHeader) → (next s).0 ≢ some (ok h))
    → next (next s).1 ≡ (none, (next s).1)
unfolding next
next_fused s other = elim (read_next-closed s) [
  | inl (h, e) ↦ absurd (other h (item_found (read_next s) h e))
  | inr c ↦ next_at_end (next s).1 (subst IsClosed (sym (item_state (read_next s))) c)
]
