-- ===== src/Cpio/Odc/Builder/Again.antt =====
-- Calls of `OdcBuilder` of odc.rs that were made before.
use apple_platform_rs.Base.{
  ℕ, All, ◌+◌, ◌≡◌, refl, ap, sym, ◌∙◌, subst, err, panic, stuck, Bool, true, false, ◌||◌, List, [],
  ◌∷◌, ok, Bytes, contains, same, same_refl, inl, inr, ◌⊎◌,
}
use apple_platform_rs.Base.Tests.{Bool-cases}
use apple_platform_rs.Base.Fallible.{Outcome}
use apple_platform_rs.Cpio.Error.{Error}
use apple_platform_rs.Cpio.Io.{continue}
use apple_platform_rs.Cpio.Odc.Path.{parent_directories}
use apple_platform_rs.Cpio.Odc.Builder.{
  OdcBuilder, next_header, on_writer, write_directory, emit_directory, emit_directories,
  emit_parent_directories, finish,
}

-- What succeeded with a header as its last write.
after_write :
    {n : ℕ} {s' : OdcBuilder} (r : Outcome Error ℕ × Bytes) (s : OdcBuilder)
    (change : OdcBuilder → OdcBuilder)
    → continue (r.0, record s { writer = r.1 }) (λ count s. (ok count, change s)) ≡ (ok n, s')
    → (written : Bytes) × (s' ≡ change (record s { writer = written }))
after_write (ok count, w) s change e = (w, sym (ap (λ p. p.1) e))
after_write (err x, w) s change e = absurd cc
after_write (panic, w) s change e = absurd cc
after_write (stuck, w) s change e = absurd cc

finish_done : (s : OdcBuilder) → s.finished ≡ true → finish s ≡ (ok 0, s)
unfolding finish
finish_done s h = simp h

finish-finished : (s s' : OdcBuilder) (n : ℕ) → finish s ≡ (ok n, s') → s'.finished ≡ true
unfolding finish next_header on_writer
finish-finished s s' n e = elim (Bool-cases s.finished) [
  | inl done ↦ ap (λ p. p.1.finished) (sym e ∙ finish_done s done) ∙ done
  | inr open_yet ↦
      ap (λ s. s.finished)
        (after_write _ (record (next_header s).1 { finished = false })
          (λ s. record s { finished = true }) (simp open_yet at e)).1
]

-- After OdcBuilder::finish succeeded, a second call writes nothing, changes nothing and returns 0,
-- in any state of the builder.
finish_again : (s s' : OdcBuilder) (n : ℕ) → finish s ≡ (ok n, s') → finish s' ≡ (ok 0, s')
finish_again s s' n e = finish_done s' (finish-finished s s' n e)

write_directory-marks :
    (dir : Bytes) (s s' : OdcBuilder) (n : ℕ)
    → write_directory dir s ≡ (ok n, s')
    → s'.seen_dirs ≡ dir ∷ s.seen_dirs
unfolding write_directory next_header on_writer
write_directory-marks dir s s' n e =
    ap (λ s. s.seen_dirs)
      (after_write _ (next_header s).1 (λ s. record s { seen_dirs = dir ∷ s.seen_dirs }) e).1

pub or_true : (b : Bool) → (b || true) ≡ true
or_true true = refl
or_true false = refl

module _ (dir : Bytes) (s s' : OdcBuilder) (n : ℕ) (e : emit_directory dir s ≡ (ok n, s')) where
  -- The directories that were seen stay seen, and the directory is among them.
  pub emit_directory-marks :
      (s'.seen_dirs ≡ s.seen_dirs) × (contains s.seen_dirs dir ≡ true)
      ⊎ (s'.seen_dirs ≡ dir ∷ s.seen_dirs) × (contains s.seen_dirs dir ≡ false)
  unfolding emit_directory
  emit_directory-marks = elim (Bool-cases (contains s.seen_dirs dir)) [
    | inl seen ↦ inl (ap (λ p. p.1.seen_dirs) (sym (rw seen at e)), seen)
    | inr new_one ↦ inr (write_directory-marks dir s s' n (rw new_one at e), new_one)
  ]

  emit_directory-seen : contains s'.seen_dirs dir ≡ true
  unfolding contains
  emit_directory-seen = elim emit_directory-marks [
    | inl (kept, seen) ↦ rw (kept, seen)
    | inr (more, _) ↦ rw (more, contains, same_refl dir)
  ]

  emit_directory-keeps :
      (d : Bytes) → contains s.seen_dirs d ≡ true → contains s'.seen_dirs d ≡ true
  unfolding contains
  emit_directory-keeps d h = elim emit_directory-marks [
    | inl (kept, seen) ↦ rw (kept, h)
    | inr (more, _) ↦ rw (more, contains, h) (or_true (same dir d))
  ]

-- A directory that was emitted, and those that follow.
pub emit_step :
    (dir : Bytes) (dirs : List Bytes) (s s' : OdcBuilder) (n : ℕ)
    → emit_directories (dir ∷ dirs) s ≡ (ok n, s')
    → (m : ℕ) × (k : ℕ) × (s1 : OdcBuilder) × (emit_directory dir s ≡ (ok m, s1))
      × (emit_directories dirs s1 ≡ (ok k, s'))
unfolding emit_directories
emit_step dir dirs s s' n e = go (emit_directory dir s) refl e
  where
    go :
        (r : Outcome Error ℕ × OdcBuilder)
        → emit_directory dir s ≡ r
        → continue r (λ m s. continue (emit_directories dirs s) (λ k s. (ok (m + k), s)))
          ≡ (ok n, s')
        → (m : ℕ) × (k : ℕ) × (s1 : OdcBuilder) × (emit_directory dir s ≡ (ok m, s1))
          × (emit_directories dirs s1 ≡ (ok k, s'))
    go (ok m, s1) e1 e2 = rest (emit_directories dirs s1) refl e2
      where
        rest :
            (r : Outcome Error ℕ × OdcBuilder)
            → emit_directories dirs s1 ≡ r
            → continue r (λ k s. (ok (m + k), s)) ≡ (ok n, s')
            → (m : ℕ) × (k : ℕ) × (s1 : OdcBuilder) × (emit_directory dir s ≡ (ok m, s1))
              × (emit_directories dirs s1 ≡ (ok k, s'))
        rest (ok k, s2) e3 e4 = (m, k, s1, e1, e3 ∙ ap (λ p. (ok k, p.1)) e4)
        rest (err x, s2) e3 e4 = absurd cc
        rest (panic, s2) e3 e4 = absurd cc
        rest (stuck, s2) e3 e4 = absurd cc
    go (err x, s1) e1 e2 = absurd cc
    go (panic, s1) e1 e2 = absurd cc
    go (stuck, s1) e1 e2 = absurd cc

abbrev pub Seen : OdcBuilder → Bytes → Type 0
Seen s d = contains s.seen_dirs d ≡ true

pub emit_directories-keeps :
    (dirs : List Bytes) (s s' : OdcBuilder) (n : ℕ)
    → emit_directories dirs s ≡ (ok n, s')
    → (d : Bytes) → Seen s d
    → Seen s' d
unfolding emit_directories
emit_directories-keeps [] s s' n e d h = subst (λ s. Seen s d) (ap (λ p. p.1) e) h
emit_directories-keeps (dir ∷ dirs) s s' n e d h =
    let (m, k, s1, e1, e2) = emit_step dir dirs s s' n e in
    emit_directories-keeps dirs s1 s' k e2 d (emit_directory-keeps dir s s1 m e1 d h)

pub emit_directories-Seen :
    (dirs : List Bytes) (s s' : OdcBuilder) (n : ℕ)
    → emit_directories dirs s ≡ (ok n, s')
    → All (Seen s') dirs
emit_directories-Seen [] s s' n e = tt
emit_directories-Seen (dir ∷ dirs) s s' n e =
    let (m, k, s1, e1, e2) = emit_step dir dirs s s' n e in
    (
      emit_directories-keeps dirs s1 s' k e2 dir (emit_directory-seen dir s s1 m e1),
      emit_directories-Seen dirs s1 s' k e2,
    )

emit_directories_nothing :
    (dirs : List Bytes) (s : OdcBuilder) → All (Seen s) dirs → emit_directories dirs s ≡ (ok 0, s)
unfolding emit_directories emit_directory
emit_directories_nothing [] s h = refl
emit_directories_nothing (dir ∷ dirs) s h = simp (h.0, emit_directories_nothing dirs s h.1) refl

-- After emit_parent_directories succeeded on a path, a second call on the path writes nothing and
-- changes nothing, in any state of the builder.
emit_parent_directories_again :
    (path : Bytes) (s s' : OdcBuilder) (n : ℕ)
    → emit_parent_directories path s ≡ (ok n, s')
    → emit_parent_directories path s' ≡ (ok 0, s')
unfolding emit_parent_directories
emit_parent_directories_again path s s' n e =
    emit_directories_nothing (parent_directories path) s'
      (emit_directories-Seen (parent_directories path) s s' n e)
