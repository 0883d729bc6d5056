-- ===== src/Codesign/Requirement/Set/Reads.antt =====
-- What the readers of requirement lists give on any bytes.
use apple_platform_rs.Base.{
  ℕ, zero, suc, ◌≡◌, refl, ap, ok, stuck, Bytes, IsByte, length, All, drop, ◌+◌, ◌*◌, ◌≤◌, ◌∙◌, sym,
  arith, ok-bind, err, panic, slice_from_ok, All-drop, length-drop, pread_u32, slice_from, Ends,
  value, error, abort, Ends-bind, Ends-ok, pread_u32-Ends, slice_from-Ends, String, ◌==◌,
  Bool-cases, inl, inr,
}
use apple_platform_rs.Codesign.Error.{Error, Result, scroll}
use apple_platform_rs.Codesign.Blob.CodeSigningMagic
use apple_platform_rs.Codesign.Blob.Header.{read_blob_header, read_and_validate_blob_header}
use apple_platform_rs.Codesign.Requirement.Chrono.{Chrono}
use apple_platform_rs.Codesign.Requirement.Expression.WellFormed.{IsWellFormed}
use apple_platform_rs.Codesign.Requirement.Expression.Reads.{from_bytes-Ends}
use apple_platform_rs.Codesign.Requirement.Set.{
  CodeRequirements, map_err, parse_elements, parse_binary, parse_blob,
}

validated-Ends :
    (data' : Bytes) (magic : ℕ) (what : String)
    → All IsByte data'
    → Ends (All IsByte) (read_and_validate_blob_header data' magic what)
unfolding read_and_validate_blob_header read_blob_header
validated-Ends data' magic what h =
    Ends-bind {P = λ header. All IsByte header.2}
      (Ends-bind (pread_u32-Ends scroll data' h 0) λ found _.
        Ends-bind (pread_u32-Ends scroll data' h 4)
          λ len _. Ends-bind (slice_from-Ends data' h 8) λ payload (kept, _). value kept)
      λ header kept. elim (Bool-cases (header.0 == magic)) [
        | inl same ↦ rw same (value kept)
        | inr other ↦ rw other error
      ]

map_err-Ends {ℓ κ} :
    {A : Type ℓ} {P : A → Type κ} (e : Error) {r : Result A} → Ends P r → Ends P (map_err e r)
map_err-Ends e (value h) = value h
map_err-Ends e error = error
map_err-Ends e abort = abort

map_err-ok {ℓ} : {A : Type ℓ} (e : Error) (r : Result A) {a : A} → map_err e r ≡ ok a → r ≡ ok a
map_err-ok e (ok a) h = h
map_err-ok e (err _) h = cc
map_err-ok e panic h = cc
map_err-ok e stuck h = cc

module _ {T : Type 0} (chrono : Chrono T) where
  parse_elements-Ends :
      (count : ℕ) (data' : Bytes)
      → All IsByte data'
      → Ends
          (λ (es, rest).
            All (IsWellFormed chrono) es
            × (length es ≡ count)
            × All IsByte rest
            × (length rest + 4 * length es ≤ length data'))
          (parse_elements chrono count data')
  unfolding parse_elements
  parse_elements-Ends zero data' h = value (tt, refl, h, omega arith)
  parse_elements-Ends (suc count) data' h =
      Ends-bind (from_bytes-Ends chrono data' h) λ (e, rest) (good, kept, left).
        Ends-bind (parse_elements-Ends count rest kept) λ (es, rest') (all', same, kept', left').
          value ((good, all'), ap suc same, kept', omega arith)

  -- What an accepted blob is: its magic, its count, and the size of what was read.
  abbrev pub IsParsed : Bytes → CodeRequirements T → Bytes → Type 0
  IsParsed data' es rest =
      (pread_u32 scroll data' 0 ≡ ok (CodeSigningMagic.to_u32 CodeSigningMagic.requirement))
      × (pread_u32 scroll data' 8 ≡ ok (length es))
      × (12 + 4 * length es + length rest ≤ length data')
      × All (IsWellFormed chrono) es
      × All IsByte rest

  parse_binary-ok :
      (payload rest : Bytes) (es : CodeRequirements T)
      → All IsByte payload
      → parse_binary chrono payload ≡ ok (es, rest)
      → (pread_u32 scroll payload 0 ≡ ok (length es))
        × (4 + 4 * length es + length rest ≤ length payload)
        × All (IsWellFormed chrono) es
        × All IsByte rest
  unfolding parse_binary
  parse_binary-ok payload rest es h e =
      let (count, counted, e1) = ok-bind (pread_u32 scroll payload 0) _ e in
      let (elements, cut, e2) = ok-bind (slice_from 4 payload) _ e1 in
      let (kept, size) = Ends-ok (slice_from-Ends payload h 4) cut in
      let (good, same, bytes, left) = Ends-ok (parse_elements-Ends count elements kept) e2 in
      (counted ∙ ap ok (sym same), omega arith, good, bytes)

  validated-ok :
      (data' payload : Bytes) (magic : ℕ) (what : String)
      → read_and_validate_blob_header data' magic what ≡ ok payload
      → (pread_u32 scroll data' 0 ≡ ok magic) × (8 ≤ length data') × (payload ≡ drop 8 data')
  unfolding read_and_validate_blob_header read_blob_header
  validated-ok data' payload magic what e =
      let ((found, len, body), header, e1) = ok-bind (read_blob_header data') _ e in
      let (raw, first, e2) = ok-bind (pread_u32 scroll data' 0) _ header in
      let (raw_len, _, e3) = ok-bind (pread_u32 scroll data' 4) _ e2 in
      let (tail, cut, e4) = ok-bind (slice_from 8 data') _ e3 in
      let (fits, rest) = slice_from_ok 8 data' tail cut in
      elim (Bool-cases (found == magic)) [
        | inl same ↦
            let number : found ≡ magic = ground arith in
            let given : body ≡ payload = (let there = (rw same at e1) in cc) in
            let read : raw ≡ found = cc in
            let held : tail ≡ body = cc in
            (first ∙ ap ok (read ∙ number), fits, sym given ∙ (sym held ∙ rest))
        | inr other ↦ (let there = (rw other at e1) in cc)
      ]

  -- Whatever bytes CodeRequirements::parse_blob accepts, they start with the magic of a
  -- requirement, the count in the four bytes behind the header is the number of the expressions
  -- that it gives, the header, the count and at least four bytes for each expression were
  -- consumed, every expression is well formed, as for CodeRequirementExpression::from_bytes, and
  -- what is left are bytes.
  pub parse_blob_sound :
      (data' rest : Bytes) (es : CodeRequirements T)
      → All IsByte data'
      → parse_blob chrono data' ≡ ok (es, rest)
      → IsParsed data' es rest
  unfolding parse_blob
  parse_blob_sound data' rest es h e =
      let (payload, read, parsed) =
        ok-bind (map_err _ (read_and_validate_blob_header data' _ _)) _ e in
      let (magic, long, cut) = validated-ok data' payload _ _ (map_err-ok _ _ read) in
      let kept : All IsByte payload = rw cut (All-drop IsByte 8 data' h) in
      let (counted, size, good, bytes) = parse_binary-ok payload rest es kept parsed in
      (
        magic,
        (unfold pread_u32 in rw cut at counted),
        omega (arith, length-drop 8 data', ap length cut),
        good,
        bytes,
      )
