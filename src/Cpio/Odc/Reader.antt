-- ===== src/Cpio/Odc/Reader.antt =====
-- `OdcReader` of odc.rs, over an archive that is held in memory.
pub mod Entry
pub mod Archive
pub mod Fused
pub mod Total
use apple_platform_rs.Base.{
  ℕ, zero, suc, ◌+◌, ◌-◌, min, Bool, true, false, Option, none, some, List, [], ◌∷◌, ◌++◌, ◌==◌,
  if◌then◌else◌, length, take, drop, Bytes, ok, err, panic, stuck, same,
}
use apple_platform_rs.Base.Fallible.{Outcome}
use apple_platform_rs.Cpio.Error.{Error, unexpected_eof, bad_magic, no_entry}
use apple_platform_rs.Cpio.Io.{M, read_exact}
use apple_platform_rs.Cpio.Odc.Header.{OdcHeader, magic, trailer, from_reader}

-- `std::io::Take`: a reader that gives at most `limit` bytes of what `left` holds.
pub record Take : Type 0 where
  pub left : Bytes
  pub limit : ℕ

-- `Take::read` into a buffer of `n` bytes.
unfoldable pub take_read : ℕ → Take → Bytes × Take
take_read n t = (
  take (min n t.limit) t.left,
  record {
    left = drop (min n t.limit) t.left;
    limit = t.limit - length (take (min n t.limit) t.left);
  },
)

abbrev pub buffer_size : ℕ
buffer_size = 32768

-- The loop of `finish`: reads until a read gives nothing.
unfoldable pub drain : ℕ → Take → Outcome Error Take
drain zero t = stuck
drain (suc fuel) t =
    let rest = drain fuel (take_read buffer_size t).1 in
    if length (take_read buffer_size t).0 == 0 then ok (take_read buffer_size t).1 else rest

pub record OdcReader : Type 0 where
  pub archive_reader : Option Bytes
  pub entry_reader : Option Take
  pub seen_trailer : Bool

unfoldable pub new : Bytes → OdcReader
new reader = record { archive_reader = some reader; entry_reader = none; seen_trailer = false }

-- Every read but the last takes a byte, so the bytes that are left bound the reads.
unfoldable pub finish : M OdcReader (Unit {0})
finish s = elim s.entry_reader [
  | none ↦ (ok tt, s)
  | some t ↦ restore (record s { entry_reader = none }) (drain (suc (length t.left)) t)
]
  where
    restore : OdcReader → Outcome Error Take → Outcome Error (Unit {0}) × OdcReader
    restore s (ok t) =
        (ok tt, if s.seen_trailer then s else record s { archive_reader = some t.left })
    restore s (err e) = (err e, s)
    restore s panic = (panic, s)
    restore s stuck = (stuck, s)

-- What follows when the header was read, or was not.
unfoldable pub open_entry :
    OdcReader → Outcome Error OdcHeader × Bytes → Outcome Error (Option OdcHeader) × OdcReader
open_entry s (ok header, left) =
    if same header.name trailer then (ok none, record s { seen_trailer = true }) else (
      ok (some header),
      record s { entry_reader = some record { left = left; limit = header.file_size } },
    )
open_entry s (err e, left) = (err e, s)
open_entry s (panic, left) = (panic, s)
open_entry s (stuck, left) = (stuck, s)

-- What follows the six bytes of the magic; the archive may end in front of them.
unfoldable pub check_magic :
    OdcReader → Outcome Error Bytes × Bytes → Outcome Error (Option OdcHeader) × OdcReader
check_magic s (ok found, left) =
    if same found magic then open_entry s (from_reader left) else (err bad_magic, s)
check_magic s (err unexpected_eof, left) = (ok none, s)
check_magic s (err e, left) = (err e, s)
check_magic s (panic, left) = (panic, s)
check_magic s (stuck, left) = (stuck, s)

-- What follows the `finish` of the entry in front.
unfoldable pub find_header :
    Outcome Error (Unit {0}) × OdcReader → Outcome Error (Option OdcHeader) × OdcReader
find_header (ok u, s) = elim s.archive_reader [
  | none ↦ (ok none, s)
  | some reader ↦ check_magic (record s { archive_reader = none }) (read_exact 6 reader)
]
find_header (err e, s) = (err e, s)
find_header (panic, s) = (panic, s)
find_header (stuck, s) = (stuck, s)

unfoldable pub read_next : M OdcReader (Option OdcHeader)
read_next s = find_header (finish s)

-- `Read::read` into a buffer of `n` bytes.
unfoldable pub read : ℕ → M OdcReader Bytes
read n s = elim s.entry_reader [
  | none ↦ (err no_entry, s)
  | some t ↦ (ok (take_read n t).0, record s { entry_reader = some (take_read n t).1 })
]

-- The item that `next` makes of the outcome of `read_next`; a panic is passed on.
unfoldable pub item :
    Outcome Error (Option OdcHeader) × OdcReader → Option (Outcome Error OdcHeader) × OdcReader
item (ok (some header), s) = (some (ok header), s)
item (ok none, s) = (none, s)
item (err e, s) = (some (err e), s)
item (panic, s) = (some panic, s)
item (stuck, s) = (some stuck, s)

-- `Iterator::next`
unfoldable pub next : OdcReader → Option (Outcome Error OdcHeader) × OdcReader
next s = item (read_next s)
