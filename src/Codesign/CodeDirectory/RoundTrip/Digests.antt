-- ===== src/Codesign/CodeDirectory/RoundTrip/Digests.antt =====
-- The digests of a code directory of code_directory.rs: cut into chunks, and collected by slot.
use native.Mathlib.Nat.{pow-succ'}
use apple_platform_rs.Base.{
  ℕ, zero, suc, ◌+◌, ◌-◌, ◌*◌, ◌<◌, ◌^◌, ◌%◌, ◌/◌, ◌≤◌, ◌≡◌, refl, ap, ◌∙◌, true, not, Option, none,
  some, List, [], ◌∷◌, ◌++◌, ◌==◌, ok, Bytes, length, All, arith, length-append, take-append,
  drop-append, slice-append, length-replicate, lt→ltb,
}
use apple_platform_rs.Codesign.Error.{Error}
use apple_platform_rs.Codesign.Blob.CodeSigningSlot
use apple_platform_rs.Codesign.Blob.CodeSigningSlot.{CodeSigningSlot, to_u32-from_u32}
use apple_platform_rs.Codesign.CodeDirectory.Data.{CodeDirectoryBlob, Digest}
use apple_platform_rs.Codesign.CodeDirectory.Slots.{get, insert}
use apple_platform_rs.Codesign.CodeDirectory.Slots.Laws.{HasLength, get-HasLength}
use apple_platform_rs.Codesign.CodeDirectory.Parse.{chunks, get_hashes, collect_specials}
use apple_platform_rs.Codesign.CodeDirectory.Serialize.{trailing_zeros}
use apple_platform_rs.Codesign.CodeDirectory.RoundTrip.{
  concat, specials_down, slots_from, digest_or_zeros, or_zeros,
}

pub length-concat :
    (size : ℕ) (ds : List Digest)
    → All (λ d. length d ≡ size) ds
    → length (concat ds) ≡ length ds * size
unfolding concat
length-concat size [] h = omega arith
length-concat size (d ∷ ds) h =
    omega (arith, length-append d (concat ds), length-concat size ds h.1, h.0)

pub count-concat :
    (size : ℕ) (ds : List Digest)
    → 1 ≤ size
    → All (λ d. length d ≡ size) ds
    → length ds ≤ length (concat ds)
unfolding concat
count-concat size [] p h = omega arith
count-concat size (d ∷ ds) p h =
    omega (arith, length-append d (concat ds), count-concat size ds p h.1, h.0)

chunks-concat :
    (size fuel : ℕ) (ds : List Digest)
    → 1 ≤ size
    → All (λ d. length d ≡ size) ds
    → length (concat ds) ≤ fuel
    → chunks fuel size (concat ds) ≡ ds
unfolding chunks concat
chunks-concat size zero [] p h f = refl
chunks-concat size (suc fuel) [] p h f = refl
chunks-concat size fuel ([] ∷ ds) p h f = absurd (omega (arith, h.0))
chunks-concat size zero ((x ∷ d) ∷ ds) p h f = absurd (omega arith)
chunks-concat size (suc fuel) ((x ∷ d) ∷ ds) p h f = rw (← h.0) (
    rw (take-append (x ∷ d) (concat ds), drop-append (x ∷ d) (concat ds), h.0)
      (ap (λ t. (x ∷ d) ∷ t) (chunks-concat size fuel ds p h.1 rest)))
  where
    rest : length (concat ds) ≤ fuel
    rest = omega (arith, length-append d (concat ds))

pub get_hashes-concat :
    (front rest : Bytes) (size : ℕ) (ds : List Digest)
    → 1 ≤ size
    → All (λ d. length d ≡ size) ds
    → get_hashes (front ++ (concat ds ++ rest)) (length front) (length ds) size ≡ ok ds
unfolding get_hashes
get_hashes-concat front rest size ds p h =
    rw
      (
        slice-append {E = Error} (length front) (length front + length ds * size) front (concat ds)
            rest refl width,
        positive,
      )
      (ap ok (chunks-concat size (length (concat ds)) ds p h (omega arith)))
  where
    width : length front + length (concat ds) ≡ length front + length ds * size
    width = ap (λ n. length front + n) (length-concat size ds h)

    positive : not (size == 0) ≡ true
    positive = ground arith

length-digest_or_zeros :
    (b : CodeDirectoryBlob) (n : ℕ)
    → HasLength b.digest_size b.special_digests
    → length (digest_or_zeros b n) ≡ b.digest_size
unfolding digest_or_zeros
length-digest_or_zeros b n h = go (get slot b.special_digests) refl
  where
    slot : CodeSigningSlot
    slot = CodeSigningSlot.from_u32 n

    go :
        (found : Option Digest)
        → get slot b.special_digests ≡ found
        → length (or_zeros b found) ≡ b.digest_size
    go none e = length-replicate b.digest_size 0
    go (some digest) e = get-HasLength b.digest_size slot b.special_digests digest h e

pub specials_down-length :
    (b : CodeDirectoryBlob) (n : ℕ)
    → HasLength b.digest_size b.special_digests
    → All (λ d. length d ≡ b.digest_size) (specials_down b n)
unfolding specials_down
specials_down-length b zero h = tt
specials_down-length b (suc n) h = (length-digest_or_zeros b (suc n) h, specials_down-length b n h)

pub length-specials_down : (b : CodeDirectoryBlob) (n : ℕ) → length (specials_down b n) ≡ n
unfolding specials_down
length-specials_down b zero = refl
length-specials_down b (suc n) = ap suc (length-specials_down b n)

insert-front :
    (b : CodeDirectoryBlob) (n k : ℕ)
    → insert (CodeSigningSlot.from_u32 n) (digest_or_zeros b n) (slots_from b (n + 1) k)
      ≡ slots_from b n (suc k)
unfolding insert slots_from
insert-front b n zero = refl
insert-front b n (suc k) =
    rw (to_u32-from_u32 n, to_u32-from_u32 (n + 1), lt→ltb n (n + 1) (omega arith))

collect-from :
    (b : CodeDirectoryBlob) (n i k j : ℕ)
    → n - i ≡ k
    → i + k ≡ n
    → collect_specials n i (specials_down b k) (slots_from b (k + 1) j) ≡ slots_from b 1 (k + j)
unfolding collect_specials specials_down
collect-from b n i zero j e f = ap (λ m. slots_from b 1 m) (omega arith)
collect-from b n i (suc k) j e f =
    ap
      (λ m. collect_specials n (i + 1) (specials_down b k) (
        insert (CodeSigningSlot.from_u32 m) (digest_or_zeros b (suc k))
          (slots_from b (suc k + 1) j)))
      e
    ∙ ap (λ specials. collect_specials n (i + 1) (specials_down b k) specials)
        (insert-front b (suc k) j)
    ∙ ap (λ m. collect_specials n (i + 1) (specials_down b k) (slots_from b m (suc j))) next
    ∙ collect-from b n (i + 1) k (suc j) (omega arith) (omega arith)
    ∙ ap (λ m. slots_from b 1 m) total
  where
    next : suc k ≡ k + 1
    next = omega arith

    total : k + suc j ≡ suc k + j
    total = omega arith

-- The parser collects the slots in ascending order.
pub collect_specials-specials_down :
    (b : CodeDirectoryBlob) (n : ℕ) → collect_specials n 0 (specials_down b n) [] ≡ slots_from b 1 n
collect_specials-specials_down b n =
    unfold slots_from in
    (collect-from b n 0 n 0 (omega arith) (omega arith) ∙ ap (λ m. slots_from b 1 m) (omega arith))

pub trailing_zeros-pow : (bits k : ℕ) → k < bits → trailing_zeros bits (2 ^ k) ≡ k
unfolding trailing_zeros
trailing_zeros-pow zero k h = absurd (omega arith)
trailing_zeros-pow (suc bits) zero h = refl
trailing_zeros-pow (suc bits) (suc k) h =
    rw (even, half) (ap suc (trailing_zeros-pow bits k (omega arith)))
  where
    even : (2 ^ suc k % 2 == 0) ≡ true
    even = ground (arith, pow-succ' 2 k)

    half : 2 ^ suc k / 2 ≡ 2 ^ k
    half = omega (arith, pow-succ' 2 k)
