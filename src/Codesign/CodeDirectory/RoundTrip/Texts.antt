-- ===== src/Codesign/CodeDirectory/RoundTrip/Texts.antt =====
-- The texts and the digests of a code directory of code_directory.rs are read where they stand.
use apple_platform_rs.Base.{
  ℕ, ◌+◌, ◌≤◌, ◌≡◌, ◌≢◌, refl, sym, ap, subst, ◌∙◌, true, false, Option, none, some, List, [], ◌∷◌,
  ◌++◌, ◌==◌, if◌then◌else◌, ok, Bytes, length, take, take-append-drop, length-take, All, arith,
  slice_from, le→leb, IsU32, Bool-cases, inl, inr, append_assoc, u32_bytes,
}
use apple_platform_rs.Base.Gread.{At}
use apple_platform_rs.Codesign.Error.{Error, code_directory_malformed_team}
use apple_platform_rs.Codesign.CodeDirectory.Data.{
  CodeDirectoryBlob, Digest, supports_team_id, supports_scatter,
}
use apple_platform_rs.Codesign.CodeDirectory.Serialize.{supports}
use apple_platform_rs.Codesign.CodeDirectory.Parse.{
  until_null, read_text, read_team_name, read_team, read_scatter, non_zero, get_hashes,
}
use apple_platform_rs.Codesign.CodeDirectory.RoundTrip.{
  IsText, concat, scatter_bytes, team_bytes, text_or_none, team_text, offset_of,
}
use apple_platform_rs.Codesign.CodeDirectory.RoundTrip.Digests.{get_hashes-concat}
use apple_platform_rs.Codesign.CodeDirectory.RoundTrip.Fields.{u32-At}

until_null-text :
    (text rest : Bytes) → All (λ c. c ≢ 0) text → until_null (text ++ (0 ∷ rest)) ≡ text
unfolding until_null
until_null-text [] rest h = refl
until_null-text (c ∷ text) rest h = rw (other, until_null-text text rest h.1) refl
  where
    other : (c == 0) ≡ false
    other = ground (arith, h.0)

module _ (data' : Bytes) (offset : ℕ) (inside : offset ≤ length data') (rest : Bytes) where
  pub read_text-At :
      (e : Error) (text : Bytes)
      → IsText text
      → At data' offset (text ++ (0 ∷ [])) rest
      → read_text e data' offset ≡ ok text
  unfolding read_text slice_from
  read_text-At e text t h = rw (
    le→leb offset (length data') inside,
    h,
    append_assoc text (0 ∷ []) rest,
    until_null-text text rest t.no_null,
    t.utf8,
  )

  split : (xs : Bytes) → At data' offset xs rest → take offset data' ++ (xs ++ rest) ≡ data'
  split xs h = ap (λ ys. take offset data' ++ ys) (sym h) ∙ take-append-drop offset data'

  width : length (take offset data') ≡ offset
  width = omega (arith, length-take offset data')

  pub get_hashes-At :
      (size count : ℕ) (ds : List Digest)
      → 1 ≤ size
      → length ds ≡ count
      → All (λ d. length d ≡ size) ds
      → At data' offset (concat ds) rest
      → get_hashes data' offset count size ≡ ok ds
  get_hashes-At size count ds p c h a =
      subst (λ bytes. get_hashes bytes offset count size ≡ ok ds) (split (concat ds) a)
        (subst (λ n. get_hashes (take offset data' ++ (concat ds ++ rest)) n count size ≡ ok ds)
          width
          (subst
            (λ n.
              get_hashes (take offset data' ++ (concat ds ++ rest)) (length (take offset data')) n
                size
              ≡ ok ds)
            c (get_hashes-concat (take offset data') rest size ds p h)))

module _ (b : CodeDirectoryBlob) (data' : Bytes) (offset : ℕ) (rest : Bytes) where
  pub read_scatter-At :
      (supports supports_scatter b.version ≡ true → b.scatter_offset ≡ none)
      → At data' offset (scatter_bytes b) rest
      → read_scatter b.version data' offset ≡ ok (none, offset + length (scatter_bytes b))
  unfolding read_scatter scatter_bytes non_zero u32_bytes
  read_scatter-At none_set h = elim (Bool-cases (supports supports_scatter b.version)) [
    | inl e ↦ rw (e, u32-At data' offset 0 rest (omega arith) (rw (e, none_set e) at h)) refl
    | inr e ↦ rw e (ap (λ o. ok (none, o)) (omega arith))
  ]

  pub read_team-At :
      (t : ℕ)
      → IsU32 t
      → (supports supports_team_id b.version ≡ true → offset ≡ 0x30)
      → At data' offset (team_bytes b t) rest
      → read_team b.version data' offset
        ≡ ok (
          if supports supports_team_id b.version then non_zero t else none,
          offset + length (team_bytes b t),
        )
  unfolding read_team team_bytes u32_bytes
  read_team-At t fits at h = elim (Bool-cases (supports supports_team_id b.version)) [
    | inl e ↦ rw (e, here e, u32-At data' offset t rest fits (rw e at h)) refl
    | inr e ↦ rw e (ap (λ o. ok (none, o)) (omega arith))
  ]
    where
      here : supports supports_team_id b.version ≡ true → (offset == 0x30) ≡ true
      here e = ground (arith, at e)

-- The team name is read where the field says that it is.
pub read_team_name-At :
    (b : CodeDirectoryBlob) (data' rest : Bytes) (t : ℕ)
    → 1 ≤ t
    → t ≤ length data'
    → ((name : Bytes) → b.team_name ≡ some name → IsText name)
    → At data' t (team_text b) rest
    → read_team_name data'
        (if supports supports_team_id b.version then non_zero (offset_of t b.team_name) else none)
      ≡ ok (if supports supports_team_id b.version then b.team_name else none)
unfolding read_team_name team_text
read_team_name-At b data' rest t positive inside texts h =
    elim (Bool-cases (supports supports_team_id b.version)) [
      | inl e ↦ rw e (go b.team_name texts (rw e at h))
      | inr e ↦ rw e refl
    ]
  where
    not_zero : (t == 0) ≡ false
    not_zero = ground (arith, positive)

    go :
        (name : Option Bytes)
        → ((n : Bytes) → name ≡ some n → IsText n)
        → At data' t (text_or_none name) rest
        → read_team_name data' (non_zero (offset_of t name)) ≡ ok name
    go none texts h = unfold non_zero read_team_name in refl
    go (some name) texts h =
        unfold non_zero read_team_name in
        rw
          (
            not_zero,
            read_text-At data' t inside rest code_directory_malformed_team name (texts name refl) h,
          )
          refl
