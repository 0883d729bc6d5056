-- ===== src/Cpio/Odc/Reader/Total.antt =====
-- `OdcReader` of odc.rs on any bytes and in any state.
use apple_platform_rs.Base.{
  ℕ, ◌≢◌, Bool, Option, none, some, Bytes, ok, err, panic, stuck, is_utf8, leb, length, same, ok_or,
  inl, inr,
}
use apple_platform_rs.Base.Fallible.{Outcome}
use apple_platform_rs.Base.Tests.{Bool-cases}
use apple_platform_rs.Cpio.Error.{
  Error, unexpected_eof, no_entry, bad_magic, bad_header_string, bad_header_hex, filename_decode,
  value_too_large, size_mismatch, not_a_file,
}
use apple_platform_rs.Cpio.CStr.{from_bytes_with_nul}
use apple_platform_rs.Cpio.Io.{M, continue, read_exact}
use apple_platform_rs.Cpio.Radix.{
  from_radix, from_str_radix, u32_from_octal, u64_from_octal, read_octal_u32, read_octal_u64,
}
use apple_platform_rs.Cpio.Odc.Header.{OdcHeader, magic, trailer, from_reader}
use apple_platform_rs.Cpio.Odc.Reader.{OdcReader, open_entry, check_magic, find_header, read_next}
use apple_platform_rs.Cpio.Odc.Reader.Fused.{finished, finish_total}

-- A value or an error.
abbrev Returns : {A : Type 0} → Outcome Error A → Type 0
Returns (ok a) = Unit {0}
Returns (err e) = Unit {0}
Returns panic = ⊥
Returns stuck = ⊥

continue-Returns :
    {S A B : Type 0} (r : Outcome Error A × S) (f : A → M S B)
    → Returns r.0
    → ((a : A) (s : S) → Returns (f a s).0)
    → Returns (continue r f).0
continue-Returns (ok a, s) f h k = k a s
continue-Returns (err e, s) f h k = tt
continue-Returns (panic, s) f h k = h
continue-Returns (stuck, s) f h k = h

ok_or-Returns : {A : Type 0} (o : Option A) (e : Error) → Returns (ok_or o e)
ok_or-Returns (some a) e = tt
ok_or-Returns none e = tt

read_exact-Returns : (n : ℕ) (left : Bytes) → Returns (read_exact n left).0
unfolding read_exact
read_exact-Returns n left = elim (Bool-cases (leb n (length left))) [
  | inl e ↦ rw e tt
  | inr e ↦ rw e tt
]

from_radix-Returns : (limit radix : ℕ) (bytes : Bytes) → Returns (from_radix limit radix bytes)
unfolding from_radix
from_radix-Returns limit radix bytes = elim (Bool-cases (is_utf8 bytes)) [
  | inl e ↦ rw e (ok_or-Returns (from_str_radix limit radix bytes) (bad_header_hex bytes))
  | inr e ↦ rw e tt
]

read_octal_u32-Returns : (n : ℕ) (left : Bytes) → Returns (read_octal_u32 n left).0
unfolding read_octal_u32 u32_from_octal
read_octal_u32-Returns n left =
    continue-Returns (read_exact n left) _ (read_exact-Returns n left)
      (λ a s. from_radix-Returns _ _ a)

read_octal_u64-Returns : (n : ℕ) (left : Bytes) → Returns (read_octal_u64 n left).0
unfolding read_octal_u64 u64_from_octal
read_octal_u64-Returns n left =
    continue-Returns (read_exact n left) _ (read_exact-Returns n left)
      (λ a s. from_radix-Returns _ _ a)

-- A number of a header, and what follows it.
number :
    {B : Type 0} (n : ℕ) (left : Bytes) (f : ℕ → M Bytes B)
    → ((a : ℕ) (s : Bytes) → Returns (f a s).0)
    → Returns (continue (read_octal_u32 n left) f).0
number n left f k = continue-Returns (read_octal_u32 n left) f (read_octal_u32-Returns n left) k

from_reader-Returns : (left : Bytes) → Returns (from_reader left).0
unfolding from_reader
from_reader-Returns left = number 6 left _ λ dev s1. number 6 s1 _ λ inode s2.
    number 6 s2 _ λ mode s3. number 6 s3 _ λ uid s4. number 6 s4 _ λ gid s5.
      number 6 s5 _ λ nlink s6. number 6 s6 _ λ rdev s7. number 11 s7 _ λ mtime s8.
        number 6 s8 _ λ name_length s9.
          continue-Returns (read_octal_u64 11 s9) _ (read_octal_u64-Returns 11 s9) λ file_size s10.
            continue-Returns (read_exact name_length s10) _ (read_exact-Returns name_length s10)
              λ name_data s11.
                continue-Returns (ok_or (from_bytes_with_nul name_data) filename_decode, s11) _
                  (ok_or-Returns (from_bytes_with_nul name_data) filename_decode) λ name s12. tt

open_entry-Returns :
    (s : OdcReader) (r : Outcome Error OdcHeader × Bytes) → Returns r.0 → Returns (open_entry s r).0
unfolding open_entry
open_entry-Returns s (ok h, left) k = elim (Bool-cases (same h.name trailer)) [
  | inl e ↦ rw e tt
  | inr e ↦ rw e tt
]
open_entry-Returns s (err e, left) k = tt
open_entry-Returns s (panic, left) k = k
open_entry-Returns s (stuck, left) k = k

check_magic-Returns :
    (s : OdcReader) (r : Outcome Error Bytes × Bytes) → Returns r.0 → Returns (check_magic s r).0
unfolding check_magic
check_magic-Returns s (ok found, left) k = elim (Bool-cases (same found magic)) [
  | inl e ↦ rw e (open_entry-Returns s (from_reader left) (from_reader-Returns left))
  | inr e ↦ rw e tt
]
check_magic-Returns s (err unexpected_eof, left) k = tt
check_magic-Returns s (err no_entry, left) k = tt
check_magic-Returns s (err bad_magic, left) k = tt
check_magic-Returns s (err bad_header_string, left) k = tt
check_magic-Returns s (err (bad_header_hex b), left) k = tt
check_magic-Returns s (err filename_decode, left) k = tt
check_magic-Returns s (err value_too_large, left) k = tt
check_magic-Returns s (err size_mismatch, left) k = tt
check_magic-Returns s (err not_a_file, left) k = tt
check_magic-Returns s (panic, left) k = k
check_magic-Returns s (stuck, left) k = k

find_header-Returns :
    (left : Option Bytes) (seen : Bool) → Returns (find_header (ok tt, finished left seen)).0
unfolding find_header
find_header-Returns none seen = tt
find_header-Returns (some left) seen =
    check_magic-Returns (finished none seen) (read_exact 6 left) (read_exact-Returns 6 left)

read_next-Returns : (s : OdcReader) → Returns (read_next s).0
unfolding read_next
read_next-Returns s =
    let (left, done) = finish_total s in rw done (find_header-Returns left s.seen_trailer)

outcome : {A : Type 0} (r : Outcome Error A) → Returns r → (r ≢ panic) × (r ≢ stuck)
outcome (ok a) h = (λ e. absurd cc, λ e. absurd cc)
outcome (err x) h = (λ e. absurd cc, λ e. absurd cc)
outcome panic h = absurd h
outcome stuck h = absurd h

-- On any archive bytes and in any state, OdcReader::read_next neither panics nor runs forever: it
-- gives a header, the end or an error.
pub read_next_returns : (s : OdcReader) → ((read_next s).0 ≢ panic) × ((read_next s).0 ≢ stuck)
read_next_returns s = outcome (read_next s).0 (read_next-Returns s)
