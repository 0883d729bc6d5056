-- ===== src/Cpio/Newc/Reader.antt =====
-- `NewcReader` of newc.rs, over an archive that is held in memory.
pub mod Archive
use apple_platform_rs.Base.{
  ℕ, suc, Bool, true, false, Option, none, some, Bytes, if◌then◌else◌, length, ok, err, panic,
  stuck, same,
}
use apple_platform_rs.Base.Fallible.{Outcome}
use apple_platform_rs.Cpio.Error.{Error, unexpected_eof, bad_magic, no_entry}
use apple_platform_rs.Cpio.Io.{M, read_exact}
use apple_platform_rs.Cpio.Odc.Header.{trailer}
use apple_platform_rs.Cpio.Odc.Reader.{Take, take_read, drain}
use apple_platform_rs.Cpio.Newc.Header.{NewcHeader, magic, pad_to_4, from_reader}

pub record NewcReader : Type 0 where
  pub archive_reader : Option Bytes
  pub entry_reader : Option Take
  pub entry_data_pad : ℕ
  pub seen_trailer : Bool

unfoldable pub new : Bytes → NewcReader
new reader = record {
  archive_reader = some reader;
  entry_reader = none;
  entry_data_pad = 0;
  seen_trailer = false;
}

-- What follows the read of the padding behind an entry.
unfoldable pub restore :
    NewcReader → Outcome Error Bytes × Bytes → Outcome Error (Unit {0}) × NewcReader
restore s (ok pad, left) = (
  ok tt,
  if s.seen_trailer
      then record s { entry_data_pad = 0 }
      else record s { entry_data_pad = 0; archive_reader = some left },
)
restore s (err e, left) = (err e, s)
restore s (panic, left) = (panic, s)
restore s (stuck, left) = (stuck, s)

-- What follows the loop over the data of an entry.
unfoldable pub skip_pad : NewcReader → Outcome Error Take → Outcome Error (Unit {0}) × NewcReader
skip_pad s (ok t) = restore s (read_exact s.entry_data_pad t.left)
skip_pad s (err e) = (err e, s)
skip_pad s panic = (panic, s)
skip_pad s stuck = (stuck, s)

-- Every read but the last takes a byte, so the bytes that are left bound the reads.
unfoldable pub finish : M NewcReader (Unit {0})
finish s = elim s.entry_reader [
  | none ↦ (ok tt, s)
  | some t ↦ skip_pad (record s { entry_reader = none }) (drain (suc (length t.left)) t)
]

-- What follows when the header was read, or was not.
unfoldable pub open_entry :
    NewcReader → Outcome Error NewcHeader × Bytes → Outcome Error (Option NewcHeader) × NewcReader
open_entry s (ok header, left) =
    if same header.name trailer then (ok none, record s { seen_trailer = true }) else (
      ok (some header),
      record s {
        entry_reader = some record { left = left; limit = header.file_size };
        entry_data_pad = pad_to_4 header.file_size;
      },
    )
open_entry s (err e, left) = (err e, s)
open_entry s (panic, left) = (panic, s)
open_entry s (stuck, left) = (stuck, s)

-- What follows the six bytes of the magic; the archive may end in front of them.
unfoldable pub check_magic :
    NewcReader → Outcome Error Bytes × Bytes → Outcome Error (Option NewcHeader) × NewcReader
check_magic s (ok found, left) =
    if same found magic then open_entry s (from_reader left) else (err bad_magic, s)
check_magic s (err unexpected_eof, left) = (ok none, s)
check_magic s (err e, left) = (err e, s)
check_magic s (panic, left) = (panic, s)
check_magic s (stuck, left) = (stuck, s)

-- What follows the `finish` of the entry in front.
unfoldable pub find_header :
    Outcome Error (Unit {0}) × NewcReader → Outcome Error (Option NewcHeader) × NewcReader
find_header (ok u, s) = elim s.archive_reader [
  | none ↦ (ok none, s)
  | some reader ↦ check_magic (record s { archive_reader = none }) (read_exact 6 reader)
]
find_header (err e, s) = (err e, s)
find_header (panic, s) = (panic, s)
find_header (stuck, s) = (stuck, s)

unfoldable pub read_next : M NewcReader (Option NewcHeader)
read_next s = find_header (finish s)

-- `Read::read` into a buffer of `n` bytes.
unfoldable pub read : ℕ → M NewcReader Bytes
read n s = elim s.entry_reader [
  | none ↦ (err no_entry, s)
  | some t ↦ (ok (take_read n t).0, record s { entry_reader = some (take_read n t).1 })
]

-- The item that `next` makes of the outcome of `read_next`; a panic is passed on.
unfoldable pub item :
    Outcome Error (Option NewcHeader) × NewcReader → Option (Outcome Error NewcHeader) × NewcReader
item (ok (some header), s) = (some (ok header), s)
item (ok none, s) = (none, s)
item (err e, s) = (some (err e), s)
item (panic, s) = (some panic, s)
item (stuck, s) = (some stuck, s)

-- `Iterator::next`
unfoldable pub next : NewcReader → Option (Outcome Error NewcHeader) × NewcReader
next s = item (read_next s)
