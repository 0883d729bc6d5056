-- ===== src/Codesign/Signature/Preferred.antt =====
-- Which code directory `preferred_code_directory` of embedded_signature.rs gives.
use mathlib.Core.Logic.{if_pos, if_neg}
use mathlib.Core.List.{Memᴰ}
use apple_platform_rs.Base.{
  Option, none, some, List, [], ◌∷◌, ok, err, panic, stuck, ◌>>=◌, ◌≡◌, ◌≢◌, ◌⊎◌, refl, sym, ap,
  subst, All, Option-cases, inl, inr,
}
use apple_platform_rs.Codesign.Error.{Result, binary_no_code_directory}
use apple_platform_rs.Codesign.DigestType.{DigestType}
use apple_platform_rs.Codesign.Blob.CodeSigningSlot.{CodeSigningSlot}
use apple_platform_rs.Codesign.Blob.SuperBlob.{EmbeddedSignature}
use apple_platform_rs.Codesign.CodeDirectory.Data.{CodeDirectoryBlob}
use apple_platform_rs.Codesign.Signature.{
  Directories, push_found, alternate_slots, directories_in, DigestType-discrete, find_digest,
  code_directory, alternate_code_directories, all_code_directories, code_directory_for_digest,
  preferred_code_directory, in_slot,
}

-- No code directory has digests of a type.
abbrev pub HasNone : DigestType → Directories → Type 0
HasNone digest = All (λ entry. entry.1.digest_type ≢ digest)

-- No code directory is the primary one.
abbrev pub HasNoPrimary : Directories → Type 0
HasNoPrimary = All (λ entry. entry.0 ≢ CodeSigningSlot.code_directory)

-- The preference among the code directories of a signature: SHA-256, then SHA-1, then the primary one.
pub data IsPreferred (directories : Directories) : Result CodeDirectoryBlob → Type 0 where
  by_sha256 :
      {slot : CodeSigningSlot} {cd : CodeDirectoryBlob}
      → Memᴰ (slot, cd) directories
      → cd.digest_type ≡ DigestType.sha256
      → IsPreferred directories (ok cd)
  by_sha1 :
      {slot : CodeSigningSlot} {cd : CodeDirectoryBlob}
      → HasNone DigestType.sha256 directories
      → Memᴰ (slot, cd) directories
      → cd.digest_type ≡ DigestType.sha1
      → IsPreferred directories (ok cd)
  by_slot :
      {cd : CodeDirectoryBlob}
      → HasNone DigestType.sha256 directories
      → HasNone DigestType.sha1 directories
      → Memᴰ (CodeSigningSlot.code_directory, cd) directories
      → IsPreferred directories (ok cd)
  missing :
      HasNone DigestType.sha256 directories
      → HasNone DigestType.sha1 directories
      → HasNoPrimary directories
      → IsPreferred directories (err binary_no_code_directory)

-- The value of the first of two steps that give one.
bind_ok {ℓ κ} :
    {A : Type ℓ} {B : Type κ} (r : Result A) {f : A → Result B} {b : B}
    → (r >>= f) ≡ ok b
    → (a : A) × (r ≡ ok a) × (f a ≡ ok b)
bind_ok (ok a) e = (a, refl, e)
bind_ok (err x) e = cc
bind_ok panic e = cc
bind_ok stuck e = cc

find_digest-some :
    (digest : DigestType) (directories : Directories) (cd : CodeDirectoryBlob)
    → find_digest digest directories ≡ some cd
    → (slot : CodeSigningSlot) × Memᴰ (slot, cd) directories × (cd.digest_type ≡ digest)
unfolding find_digest
find_digest-some digest [] cd e = cc
find_digest-some digest ((slot, first) ∷ rest) cd e =
    elim (DigestType-discrete first.digest_type digest) [
      | yes p ↦
          let same = found (rw (if_pos _ p) at e) in
          (
            slot,
            Memᴰ.head (ap (λ c. (slot, c)) (sym same)),
            subst (λ c. c.digest_type ≡ digest) same p,
          )
      | no n ↦
          let (where_it_is, m, t) = find_digest-some digest rest cd (rw (if_neg _ n) at e) in
          (where_it_is, Memᴰ.tail m, t)
    ]
  where
    found : some first ≡ some cd → first ≡ cd
    found h = cc

find_digest-none :
    (digest : DigestType) (directories : Directories)
    → find_digest digest directories ≡ none
    → HasNone digest directories
unfolding find_digest
find_digest-none digest [] e = tt
find_digest-none digest ((slot, first) ∷ rest) e =
    elim (DigestType-discrete first.digest_type digest) [
      | yes p ↦ absurd (not_none (rw (if_pos _ p) at e))
      | no n ↦ (n, find_digest-none digest rest (rw (if_neg _ n) at e))
    ]
  where
    not_none : some first ≢ none
    not_none h = cc

same_value {ℓ} : {A : Type ℓ} {a b : A} → Path (Result A) (ok a) (ok b) → a ≡ b
same_value h = cc

push_found-All :
    (P : CodeSigningSlot → Type 0) (slot : CodeSigningSlot) (found : Option CodeDirectoryBlob)
    (rest : Directories)
    → P slot
    → All (λ entry. P entry.0) rest
    → All (λ entry. P entry.0) (push_found slot found rest)
unfolding push_found
push_found-All P slot none rest p h = h
push_found-All P slot (some cd) rest p h = (p, h)

-- The slots of the loop are the slots of its result.
directories_in-All :
    (P : CodeSigningSlot → Type 0) (signature : EmbeddedSignature) (slots : List CodeSigningSlot)
    (directories : Directories)
    → directories_in signature slots ≡ ok directories
    → All P slots
    → All (λ entry. P entry.0) directories
unfolding directories_in
directories_in-All P signature [] directories e h =
    subst (All (λ entry. P entry.0)) (same_value e) tt
directories_in-All P signature (slot ∷ slots) directories e h =
    let (found, _, e') = bind_ok (in_slot signature slot _) e in
    let (rest, loop, e'') = bind_ok (directories_in signature slots) e' in
    subst (All (λ entry. P entry.0)) (same_value e'')
      (push_found-All P slot found rest h.0 (directories_in-All P signature slots rest loop h.1))

-- The primary code directory is the one of its slot among all of them.
primary_found :
    (signature : EmbeddedSignature) (directories : Directories)
    → all_code_directories signature ≡ ok directories
    → ((cd : CodeDirectoryBlob) × (code_directory signature ≡ ok (some cd))
        × Memᴰ (CodeSigningSlot.code_directory, cd) directories)
      ⊎ ((code_directory signature ≡ ok none) × HasNoPrimary directories)
unfolding all_code_directories alternate_code_directories push_found
primary_found signature directories e =
    let (primary, first, e') = bind_ok (code_directory signature) e in
    let (alternates, loop, e'') = bind_ok (directories_in signature alternate_slots) e' in
    go primary first alternates
      (directories_in-All _ signature alternate_slots alternates loop alternates_differ)
      (same_value e'')
  where
    alternates_differ : All (λ slot. slot ≢ CodeSigningSlot.code_directory) alternate_slots
    alternates_differ = ((λ h. cc), ((λ h. cc), ((λ h. cc), ((λ h. cc), ((λ h. cc), tt)))))

    go :
        (primary : Option CodeDirectoryBlob)
        → code_directory signature ≡ ok primary
        → (alternates : Directories) → HasNoPrimary alternates
        → push_found CodeSigningSlot.code_directory primary alternates ≡ directories
        → ((cd : CodeDirectoryBlob) × (code_directory signature ≡ ok (some cd))
            × Memᴰ (CodeSigningSlot.code_directory, cd) directories)
          ⊎ ((code_directory signature ≡ ok none) × HasNoPrimary directories)
    go none first alternates none_there same = inr (first, subst HasNoPrimary same none_there)
    go (some cd) first alternates none_there same =
        inl (
          cd,
          first,
          subst (λ d. Memᴰ (CodeSigningSlot.code_directory, cd) d) same (Memᴰ.head refl),
        )

-- If all code directories of a signature can be resolved, preferred_code_directory gives one of
-- them: one with SHA-256 digests if there is any, else one with SHA-1 digests if there is any,
-- else the one in the primary slot, and it is the error on a missing code directory exactly if
-- none of these is there.
pub preferred_code_directory-IsPreferred :
    (signature : EmbeddedSignature) (directories : Directories)
    → all_code_directories signature ≡ ok directories
    → IsPreferred directories (preferred_code_directory signature)
unfolding preferred_code_directory code_directory_for_digest
preferred_code_directory-IsPreferred signature directories all =
    elim (Option-cases (find_digest DigestType.sha256 directories)) [
      | inr (cd, e) ↦
          let (_, m, t) = find_digest-some DigestType.sha256 directories cd e in
          rw (all, e) (by_sha256 m t)
      | inl e ↦ elim (Option-cases (find_digest DigestType.sha1 directories)) [
        | inr (cd, e') ↦
            let (_, m, t) = find_digest-some DigestType.sha1 directories cd e' in
            rw (all, e, e') (by_sha1 (find_digest-none DigestType.sha256 directories e) m t)
        | inl e' ↦
            let no_sha256 = find_digest-none DigestType.sha256 directories e in
            let no_sha1 = find_digest-none DigestType.sha1 directories e' in
            elim (primary_found signature directories all) [
              | inl (cd, first, m) ↦ rw (all, e, e', first) (by_slot no_sha256 no_sha1 m)
              | inr (first, no_primary) ↦
                  rw (all, e, e', first) (missing no_sha256 no_sha1 no_primary)
            ]
      ]
    ]
