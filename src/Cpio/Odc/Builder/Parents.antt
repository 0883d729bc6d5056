-- ===== src/Cpio/Odc/Builder/Parents.antt =====
-- The set of directories of `OdcBuilder` of odc.rs after `emit_parent_directories`.
use apple_platform_rs.Base.{
  ℕ, ◌≡◌, ◌↔◌, ◌⊎◌, sym, ap, subst, true, List, [], ◌∷◌, Bytes, All, ok, contains, same, same_sound,
  same_refl, refl, Bool-cases, inl, inr,
}
use apple_platform_rs.Cpio.Odc.Path.{parent_directories}
use apple_platform_rs.Cpio.Odc.Path.Prefixes.{
  IsParent, parent_directories_complete, parent_directories-IsParent,
}
use apple_platform_rs.Cpio.Odc.Builder.{OdcBuilder, emit_directories, emit_parent_directories}
use apple_platform_rs.Cpio.Odc.Builder.Again.{
  emit_directory-marks, emit_step, Seen, emit_directories-Seen, emit_directories-keeps, or_true,
}

-- What is in a list of directories after one was put in front.
contains_front :
    (d dir : Bytes) (dirs : List Bytes)
    → contains (dir ∷ dirs) d ≡ true
    → (contains dirs d ≡ true) ⊎ (d ≡ dir)
unfolding contains
contains_front d dir dirs h = elim (Bool-cases (same dir d)) [
  | inl equal ↦ inr (sym (same_sound dir d equal))
  | inr other ↦ inl (rw other at h)
]

contains_next :
    (d dir : Bytes) (dirs : List Bytes) → contains dirs d ≡ true → contains (dir ∷ dirs) d ≡ true
unfolding contains
contains_next d dir dirs h = rw h (or_true (same dir d))

contains_first : (dir : Bytes) (dirs : List Bytes) → contains (dir ∷ dirs) dir ≡ true
unfolding contains
contains_first dir dirs = rw (same_refl dir) refl

-- Nothing else is marked as seen.
emit_directories_only :
    (dirs : List Bytes) (s s' : OdcBuilder) (n : ℕ) (d : Bytes)
    → emit_directories dirs s ≡ (ok n, s')
    → Seen s' d
    → Seen s d ⊎ (contains dirs d ≡ true)
unfolding emit_directories
emit_directories_only [] s s' n d e h = inl (subst (λ s. Seen s d) (sym (ap (λ p. p.1) e)) h)
emit_directories_only (dir ∷ dirs) s s' n d e h =
    let (m, k, s1, e1, e2) = emit_step dir dirs s s' n e in
    elim (emit_directories_only dirs s1 s' k d e2 h) [
      | inr later ↦ inr (contains_next d dir dirs later)
      | inl before ↦ elim (emit_directory-marks dir s s1 m e1) [
        | inl (kept, _) ↦ inl (rw kept at before)
        | inr (more, _) ↦ elim (contains_front d dir s.seen_dirs (rw more at before)) [
          | inl old ↦ inl old
          | inr it ↦ inr (rw it (contains_first dir dirs))
        ]
      ]
    ]

-- In a list whose elements were all seen.
Seen-of_All :
    (dirs : List Bytes) (s : OdcBuilder) (d : Bytes)
    → All (Seen s) dirs
    → contains dirs d ≡ true
    → Seen s d
Seen-of_All [] s d all' h = unfold contains in cc
Seen-of_All (dir ∷ dirs) s d all' h = elim (contains_front d dir dirs h) [
  | inl later ↦ Seen-of_All dirs s d all'.1 later
  | inr it ↦ rw it all'.0
]

-- When emit_parent_directories succeeds on a path, in any state of the builder, the directories
-- that were seen are those that were seen before and those that stand in front of a slash of the
-- path, and no others.
pub emit_parent_directories-Seen :
    (path dir : Bytes) (s s' : OdcBuilder) (n : ℕ)
    → emit_parent_directories path s ≡ (ok n, s')
    → Seen s' dir ↔ (Seen s dir ⊎ IsParent dir path)
unfolding emit_parent_directories
emit_parent_directories-Seen path dir s s' n e = (only, all')
  where
    only : Seen s' dir → Seen s dir ⊎ IsParent dir path
    only h = elim (emit_directories_only (parent_directories path) s s' n dir e h) [
      | inl old ↦ inl old
      | inr new_one ↦ inr (parent_directories-IsParent dir path new_one)
    ]

    all' : Seen s dir ⊎ IsParent dir path → Seen s' dir
    all' (inl old) = emit_directories-keeps (parent_directories path) s s' n e dir old
    all' (inr (back, p)) =
        Seen-of_All (parent_directories path) s' dir
          (emit_directories-Seen (parent_directories path) s s' n e)
          (rw p (parent_directories_complete dir back))
