-- ===== src/Cpio/Io.antt =====
-- `std::io::Read` and `Write` over memory: a computation over the bytes that are left to read, or that
-- were written so far. An error keeps what was written before it.
use apple_platform_rs.Base.Fallible.{Outcome, ok, err, panic, stuck}
use apple_platform_rs.Base.{
  ℕ, ◌≤◌, Bytes, ◌++◌, leb, if◌then◌else◌, length, take, drop, ◌≡◌, arith, le→leb, take-append,
  drop-append, length-append, [],
}
use apple_platform_rs.Cpio.Error.{Error, unexpected_eof}

abbrev pub M {ℓ} : Type 0 → Type ℓ → Type ℓ
M S A = S → Outcome Error A × S

module _ {ℓ κ} {S : Type 0} {A : Type ℓ} {B : Type κ} where
  -- What becomes of a run whose result is `r`.
  abbrev pub continue : Outcome Error A × S → (A → M S B) → Outcome Error B × S
  continue (ok a, s) f = f a s
  continue (err e, s) f = (err e, s)
  continue (panic, s) f = (panic, s)
  continue (stuck, s) f = (stuck, s)

  infixl 5 ◌>>=◌
  abbrev pub ◌>>=◌ : M S A → (A → M S B) → M S B
  ◌>>=◌ m f s = continue (m s) f

module _ {ℓ} {S : Type 0} {B : Type ℓ} where
  infixl 5 ◌>>◌
  abbrev pub ◌>>◌ : M S (Unit {0}) → M S B → M S B
  m >> k = m >>= λ _. k

abbrev pub pure {ℓ} : {S : Type 0} {A : Type ℓ} → A → M S A
pure a s = (ok a, s)

abbrev pub lift {ℓ} : {S : Type 0} {A : Type ℓ} → Outcome Error A → M S A
lift r s = (r, s)

-- `Write::write_all`
abbrev pub write_all : Bytes → M Bytes (Unit {0})
write_all bytes written = (ok tt, written ++ bytes)

-- `Read::read_exact`; at the end of the input nothing is left.
unfoldable pub read_exact : ℕ → M Bytes Bytes
read_exact n left =
    if leb n (length left) then (ok (take n left), drop n left) else (err unexpected_eof, [])

pub read_exact-append :
    (n : ℕ) (bytes rest : Bytes)
    → length bytes ≡ n
    → read_exact n (bytes ++ rest) ≡ (ok bytes, rest)
unfolding read_exact
read_exact-append n bytes rest e = rw (← e, le→leb _ _ fits, take-append, drop-append)
  where
    fits : length bytes ≤ length (bytes ++ rest)
    fits = omega (arith, length-append bytes rest)
