-- ===== src/Cpio/Odc/Path/Prefixes.antt =====
-- The directories of a path of odc.rs, described without parts: what stands in front of a slash.
use apple_platform_rs.Base.{
  ℕ, zero, suc, ◌≡◌, refl, sym, ap, ap₂, ◌∙◌, true, false, List, [], ◌∷◌, ◌++◌, ◌==◌, ==_refl,
  if◌then◌else◌, length, Bytes, map, contains, same, Bool-cases, inl, inr, arith,
}
use apple_platform_rs.Cpio.Odc.Path.{split, join, prefixes, parent_directories}

-- A path has a slash behind the directory.
abbrev pub IsParent : Bytes → Bytes → Type 0
IsParent dir path = (back : Bytes) × (path ≡ dir ++ (b'/' ∷ back))

-- By recursion over the bytes of the path.
in_front : Bytes → List Bytes
in_front [] = []
in_front (b ∷ path) =
    let rest = map (λ dir. b ∷ dir) (in_front path) in if b == b'/' then [] ∷ rest else rest

join_first :
    (b : ℕ) (part : Bytes) (parts : List Bytes)
    → join b'/' ((b ∷ part) ∷ parts) ≡ b ∷ join b'/' (part ∷ parts)
unfolding join
join_first b part [] = refl
join_first b part (next ∷ parts) = refl

prefixes_first :
    (n i b : ℕ) (part : Bytes) (parts : List Bytes)
    → prefixes n (suc i) ((b ∷ part) ∷ parts)
      ≡ map (λ dir. b ∷ dir) (prefixes n (suc i) (part ∷ parts))
unfolding prefixes
prefixes_first zero i b part parts = refl
prefixes_first (suc n) i b part parts = rw (join_first, prefixes_first n (suc i) b part parts) refl

prefixes_root :
    (n i : ℕ) (part : Bytes) (parts : List Bytes)
    → prefixes n (suc (suc i)) ([] ∷ part ∷ parts)
      ≡ map (λ dir. b'/' ∷ dir) (prefixes n (suc i) (part ∷ parts))
unfolding prefixes join
prefixes_root zero i part parts = refl
prefixes_root (suc n) i part parts = rw (prefixes_root n (suc i) part parts) refl

parent_directories-eq-in_front : (path : Bytes) → parent_directories path ≡ in_front path
unfolding parent_directories in_front split prefixes join
parent_directories-eq-in_front [] = refl
parent_directories-eq-in_front (b ∷ path) = elim (Bool-cases (b == b'/')) [
  | inl slash ↦
      let number : b ≡ b'/' = ground arith in
      rw slash (
        ap (λ dirs. [] ∷ dirs)
          (prefixes_root (length (split b'/' path).1) zero (split b'/' path).0 (split b'/' path).1
            ∙ (ap (map (λ dir. b'/' ∷ dir)) (parent_directories-eq-in_front path)
                ∙ ap (λ c. map (λ dir. c ∷ dir) (in_front path)) (sym number))))
  | inr other ↦ rw other (
      prefixes_first (length (split b'/' path).1) zero b (split b'/' path).0 (split b'/' path).1
      ∙ ap (map (λ dir. b ∷ dir)) (parent_directories-eq-in_front path))
]

contains-map_first :
    (b c : ℕ) (dir : Bytes) (dirs : List Bytes)
    → contains (map (λ d. b ∷ d) dirs) (c ∷ dir) ≡ (if b == c then contains dirs dir else false)
unfolding contains same
contains-map_first b c dir [] = ground arith
contains-map_first b c dir (d ∷ dirs) = rw (contains-map_first b c dir dirs) (ground arith)

contains-map_root : (b : ℕ) (dirs : List Bytes) → contains (map (λ d. b ∷ d) dirs) [] ≡ false
unfolding contains same
contains-map_root b [] = refl
contains-map_root b (d ∷ dirs) = contains-map_root b dirs

-- A directory of a longer path, byte by byte.
in_front_first :
    (b c : ℕ) (dir path : Bytes)
    → contains (in_front (b ∷ path)) (c ∷ dir)
      ≡ (if b == c then contains (in_front path) dir else false)
unfolding in_front contains same
in_front_first b c dir path = elim (Bool-cases (b == b'/')) [
  | inl slash ↦ rw slash (contains-map_first b c dir (in_front path))
  | inr other ↦ rw other (contains-map_first b c dir (in_front path))
]

in_front_root : (b : ℕ) (path : Bytes) → contains (in_front (b ∷ path)) [] ≡ (b == b'/')
unfolding in_front contains same
in_front_root b path = elim (Bool-cases (b == b'/')) [
  | inl slash ↦ rw slash refl
  | inr other ↦ rw other (contains-map_root b (in_front path))
]

in_front_complete : (dir back : Bytes) → contains (in_front (dir ++ (b'/' ∷ back))) dir ≡ true
in_front_complete [] back = in_front_root b'/' back
in_front_complete (b ∷ dir) back =
    in_front_first b b dir (dir ++ (b'/' ∷ back)) ∙ rw (==_refl b) (in_front_complete dir back)

in_front-IsParent : (dir path : Bytes) → contains (in_front path) dir ≡ true → IsParent dir path
in_front-IsParent dir [] h = unfold in_front contains in cc
in_front-IsParent [] (b ∷ path) h =
    let slash = sym (in_front_root b path) ∙ h in
    let number : b ≡ b'/' = ground arith in (path, ap (λ c. c ∷ path) number)
in_front-IsParent (c ∷ dir) (b ∷ path) h = elim (Bool-cases (b == c)) [
  | inl same' ↦
      let number : b ≡ c = ground arith in
      let (back, e) = in_front-IsParent dir path (rw same' at deeper) in
      (back, ap₂ (λ x xs. x ∷ xs) number e)
  | inr differ ↦ let nowhere = (rw differ at deeper) in cc
]
  where
    deeper : (if b == c then contains (in_front path) dir else false) ≡ true
    deeper = sym (in_front_first b c dir path) ∙ h

-- What stands in front of a slash of the path is a parent directory, and nothing else is.
pub parent_directories_complete :
    (dir back : Bytes) → contains (parent_directories (dir ++ (b'/' ∷ back))) dir ≡ true
parent_directories_complete dir back =
    rw (parent_directories-eq-in_front (dir ++ (b'/' ∷ back))) (in_front_complete dir back)

pub parent_directories-IsParent :
    (dir path : Bytes) → contains (parent_directories path) dir ≡ true → IsParent dir path
parent_directories-IsParent dir path h =
    in_front-IsParent dir path (rw (parent_directories-eq-in_front path) at h)
