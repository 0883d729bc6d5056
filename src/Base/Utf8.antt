-- ===== src/Base/Utf8.antt =====
-- The UTF-8 validation of `std::str::from_utf8`, as the automaton over bytes of the standard.
use Prim.Native.Nat.{ℕ, zero, suc, ◌<◌}
use mathlib.Core.Path.{◌≡◌, refl, ap, ◌∙◌}
use mathlib.Core.Logic.{◌≢◌, inl, inr}
use mathlib.Core.Bool.{Bool, true, false}
use mathlib.Core.List.{List, [], ◌∷◌, ◌++◌, append_assoc}
use native.Mathlib.Omega.{arith}
use apple_platform_rs.Base.Tests.{ltb, in_range, if◌then◌else◌, ◌==◌, Bool-cases}
use apple_platform_rs.Base.Lists.{All}

-- How many bytes of a character are still to come, and the range of the next one; `start` is
-- between two characters.
pub data Utf8State : Type 0 where
  start bad : Utf8State
  more : ℕ → ℕ → ℕ → Utf8State

-- What a character's first byte announces.
lead : ℕ → Utf8State
lead b =
    if ltb b 0x80
    then start
    else if in_range 0xC2 0xDF b
    then more 0 0x80 0xBF
    else if b == 0xE0
    then more 1 0xA0 0xBF
    else if b == 0xED
    then more 1 0x80 0x9F
    else if in_range 0xE1 0xEF b
    then more 1 0x80 0xBF
    else if b == 0xF0
    then more 2 0x90 0xBF
    else if in_range 0xF1 0xF3 b
    then more 2 0x80 0xBF
    else if b == 0xF4
    then more 2 0x80 0x8F
    else bad

continue : ℕ → Utf8State
continue zero = start
continue (suc n) = more n 0x80 0xBF

step : Utf8State → ℕ → Utf8State
unfolding lead continue
step start b = lead b
step bad b = bad
step (more n lo hi) b = if in_range lo hi b then continue n else bad

run : Utf8State → List ℕ → Bool
unfolding step
run start [] = true
run bad [] = false
run (more n lo hi) [] = false
run s (b ∷ bs) = run (step s b) bs

-- `std::str::from_utf8(bytes).is_ok()`
unfoldable pub is_utf8 : List ℕ → Bool
unfolding run
is_utf8 bs = run start bs

run-ascii : (bs : List ℕ) → All (λ b. b < 0x80) bs → run start bs ≡ true
unfolding run
run-ascii [] h = refl
run-ascii (b ∷ bs) h = ground (arith, run-ascii bs)

-- ASCII is UTF-8.
pub is_utf8-ascii : (bs : List ℕ) → All (λ b. b < 0x80) bs → is_utf8 bs ≡ true
unfolding is_utf8
is_utf8-ascii = run-ascii

-- `String::from_utf8_lossy`: each maximal ill-formed part becomes U+FFFD.
replacement : List ℕ
replacement = 0xEF ∷ 0xBF ∷ 0xBD ∷ []

-- What a byte in front of a character gives: output, the state behind it, and the bytes held back.
lossy_lead : ℕ → List ℕ × Utf8State × List ℕ
unfolding lead replacement
lossy_lead b = elim (lead b) [
  | start ↦ (b ∷ [], start, [])
  | bad ↦ (replacement, start, [])
  | more n lo hi ↦ ([], more n lo hi, b ∷ [])
]

lossy_step : Utf8State → List ℕ → ℕ → List ℕ × Utf8State × List ℕ
unfolding lossy_lead continue
lossy_step start held b = lossy_lead b
lossy_step bad held b = lossy_lead b
lossy_step (more n lo hi) held b =
    if in_range lo hi b
    then elim n [
      | zero ↦ (held ++ (b ∷ []), start, [])
      | suc k ↦ ([], more k 0x80 0xBF, held ++ (b ∷ []))
    ]
    else (let (out, s, held') = lossy_lead b in (replacement ++ out, s, held'))

lossy_run : Utf8State → List ℕ → List ℕ → List ℕ
unfolding lossy_step
lossy_run start held [] = []
lossy_run bad held [] = []
lossy_run (more n lo hi) held [] = replacement
lossy_run s held (b ∷ bs) =
    let (out, s', held') = lossy_step s held b in out ++ lossy_run s' held' bs

unfoldable pub from_utf8_lossy : List ℕ → List ℕ
unfolding lossy_run
from_utf8_lossy bs = lossy_run start [] bs

run-bad : (bs : List ℕ) → run bad bs ≢ true
unfolding run
run-bad [] = cc
run-bad (b ∷ bs) = run-bad bs

-- Held bytes of a good run come out in front.
abbrev ComesOut : List ℕ → Type 0
ComesOut bs =
    (s : Utf8State) (held : List ℕ)
    → (s ≡ start → held ≡ [])
    → run s bs ≡ true
    → lossy_run s held bs ≡ held ++ bs

-- The output for a byte in front of a character, by what the byte announces.
lead_out : Utf8State → ℕ → List ℕ × Utf8State × List ℕ
unfolding replacement
lead_out start b = (b ∷ [], start, [])
lead_out bad b = (replacement, start, [])
lead_out (more n lo hi) b = ([], more n lo hi, b ∷ [])

lossy_lead-out : (b : ℕ) → lossy_lead b ≡ lead_out (lead b) b
unfolding lossy_lead lead_out
lossy_lead-out b = ground arith

lead_out-ComesOut :
    (s : Utf8State) (b : ℕ) (bs : List ℕ)
    → ComesOut bs
    → run s bs ≡ true
    → (lead_out s b).0 ++ lossy_run (lead_out s b).1 (lead_out s b).2 bs ≡ b ∷ bs
unfolding lead_out
lead_out-ComesOut start b bs ih h = ap (λ t. b ∷ t) (ih start [] (λ _. refl) h)
lead_out-ComesOut bad b bs ih h = absurd (run-bad bs h)
lead_out-ComesOut (more n lo hi) b bs ih h = ih (more n lo hi) (b ∷ []) (λ e. cc) h

start-ComesOut :
    (b : ℕ) (bs held : List ℕ)
    → ComesOut bs
    → run start (b ∷ bs) ≡ true
    → lossy_run start held (b ∷ bs) ≡ b ∷ bs
unfolding lossy_run run
start-ComesOut b bs held ih h = rw lossy_lead-out (lead_out-ComesOut (lead b) b bs ih h)

more-ComesOut :
    (n lo hi b : ℕ) (bs held : List ℕ)
    → ComesOut bs
    → run (more n lo hi) (b ∷ bs) ≡ true
    → lossy_run (more n lo hi) held (b ∷ bs) ≡ held ++ (b ∷ bs)
unfolding lossy_run run
more-ComesOut n lo hi b bs held ih h = elim (Bool-cases (in_range lo hi b)) [
  | inl inside ↦ rw inside (next n (rw inside at h))
  | inr outside ↦ absurd (run-bad bs (rw outside at h))
]
  where
    regroup : (held ++ (b ∷ [])) ++ bs ≡ held ++ (b ∷ bs)
    regroup = append_assoc held (b ∷ []) bs

    next :
        (k : ℕ)
        → run (continue k) bs ≡ true
        → (let out : List ℕ × Utf8State × List ℕ = elim k [
          | zero ↦ (held ++ (b ∷ []), start, [])
          | suc j ↦ ([], more j 0x80 0xBF, held ++ (b ∷ []))
        ] in
            out.0 ++ lossy_run out.1 out.2 bs)
          ≡ held ++ (b ∷ bs)
    next zero g = rw (ih start [] (λ _. refl) g) regroup
    next (suc k) g = ih (more k 0x80 0xBF) (held ++ (b ∷ [])) (λ e. cc) g ∙ regroup

lossy_run-utf8 : (bs : List ℕ) → ComesOut bs
lossy_run-utf8 [] start held e h = rw (e refl) (unfold lossy_run in refl)
lossy_run-utf8 [] bad held e h = absurd (run-bad [] h)
lossy_run-utf8 [] (more n lo hi) held e h = unfold run in cc
lossy_run-utf8 (b ∷ bs) start held e h = rw (e refl) (start-ComesOut b bs [] (lossy_run-utf8 bs) h)
lossy_run-utf8 (b ∷ bs) bad held e h = absurd (run-bad (b ∷ bs) h)
lossy_run-utf8 (b ∷ bs) (more n lo hi) held e h =
    more-ComesOut n lo hi b bs held (lossy_run-utf8 bs) h

-- Valid text is kept.
pub from_utf8_lossy-utf8 : (bs : List ℕ) → is_utf8 bs ≡ true → from_utf8_lossy bs ≡ bs
unfolding from_utf8_lossy is_utf8
from_utf8_lossy-utf8 bs h = lossy_run-utf8 bs start [] (λ _. refl) h
