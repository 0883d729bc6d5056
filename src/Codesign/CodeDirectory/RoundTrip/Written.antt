-- ===== src/Codesign/CodeDirectory/RoundTrip/Written.antt =====
-- `serialize_payload` of code_directory.rs writes the layout.
use apple_platform_rs.Base.{
  ℕ, ◌+◌, ◌-◌, ◌%◌, ◌^◌, ◌≤◌, ◌≡◌, refl, sym, ap, ◌∙◌, ◌⊎◌, Bool, true, false, ◌&&◌, not, Option,
  none, some, ◌++◌, ok, err, guard, ◌>>◌, Bytes, length, take-append, drop-append, All, arith,
  length-append, append_assoc, IsU32, u32_bytes, Bool-cases, inl, inr,
}
use apple_platform_rs.Base.Gread.{u8_bytes}
use apple_platform_rs.Codesign.Error.{unimplemented}
use apple_platform_rs.Codesign.CodeDirectory.Data
use apple_platform_rs.Codesign.CodeDirectory.Data.{
  CodeDirectoryBlob, Digest, SlotDigests, supports_scatter, supports_team_id, supports_code_limit64,
  supports_executable_segment, supports_runtime, supports_linkage,
}
use apple_platform_rs.Codesign.CodeDirectory.Slots.{highest_slot}
use apple_platform_rs.Codesign.CodeDirectory.Slots.Laws.{IsExpressible}
use apple_platform_rs.Codesign.CodeDirectory.Version.{is_some}
use apple_platform_rs.Codesign.CodeDirectory.Serialize.{
  supports, trailing_zeros, write_at, write_team_offset, serialize_payload,
}
use apple_platform_rs.Codesign.CodeDirectory.RoundTrip.Sections.{
  scatter_position, team_position, write_optional-lem, longer, earlier,
}
use apple_platform_rs.Codesign.CodeDirectory.RoundTrip.Variable.{write_head-lem, write_variable-lem}
use apple_platform_rs.Codesign.CodeDirectory.RoundTrip.Bounds.{
  length-fixed_bytes, InBounds, layout-InBounds,
}
use apple_platform_rs.Codesign.CodeDirectory.RoundTrip.{
  IsWritable, offset_of, fixed_bytes, scatter_bytes, team_bytes, limit_bytes, exec_seg_bytes,
  runtime_bytes, linkage_bytes, optional_bytes, ident_at, team_at, team_field, digests_at,
  tail_bytes, layout,
}

-- The two offsets are filled in, and the team offset behind the fields of every version.
patched :
    (b : CodeDirectoryBlob) (d i h c p : ℕ) (rest : Bytes)
    → write_at 12 (u32_bytes i) (write_at 8 (u32_bytes d) (fixed_bytes b 0 0 h c p ++ rest))
      ≡ fixed_bytes b d i h c p ++ rest
unfolding write_at fixed_bytes u32_bytes u8_bytes
patched b d i h c p rest = refl

write_at-front :
    (front old new rest : Bytes)
    → length old ≡ length new
    → write_at (length front) new (front ++ (old ++ rest)) ≡ front ++ (new ++ rest)
unfolding write_at
write_at-front front old new rest e =
    rw
      (
        take-append front (old ++ rest),
        ← e,
        ← length-append front old,
        ← append_assoc front old rest,
        drop-append (front ++ old) rest,
      )
      refl

fill_team :
    (front rest : Bytes) (t : ℕ) (name : Option Bytes)
    → length front ≡ 0x28
    → 8 ≤ t
    → IsU32 t
    → write_team_offset (some 0x28) name (t - 8) (front ++ (u32_bytes 0 ++ rest))
      ≡ front ++ (u32_bytes (offset_of t name) ++ rest)
unfolding write_team_offset
fill_team front rest t none h low fits = refl
fill_team front rest t (some name) h low fits =
    rw (← h, back)
      (write_at-front front (u32_bytes 0) (u32_bytes t) rest (unfold u32_bytes in refl))
  where
    back : (t - 8) % 2 ^ 32 + 8 ≡ t
    back = omega arith

regroup : (f s u l r : Bytes) → f ++ ((s ++ (u ++ l)) ++ r) ≡ (f ++ s) ++ (u ++ (l ++ r))
regroup f s u l r =
    rw (append_assoc s (u ++ l) r, append_assoc u l r) (sym (append_assoc f s (u ++ (l ++ r))))

patched_team :
    (b : CodeDirectoryBlob) (fixed rest : Bytes)
    → length fixed ≡ 0x24
    → 8 ≤ team_at b
    → IsU32 (team_at b)
    → write_team_offset
        (team_position b)
        b.team_name
        (team_at b - 8)
        (fixed ++ (optional_bytes b 0 ++ rest))
      ≡ fixed ++ (optional_bytes b (team_field b) ++ rest)
unfolding team_position optional_bytes team_bytes team_field write_team_offset
patched_team b fixed rest h low fits = elim (Bool-cases (supports supports_team_id b.version)) [
  | inl e ↦
      let later = limit_bytes b ++ (exec_seg_bytes b ++ (runtime_bytes b ++ linkage_bytes b)) in
      let field = u32_bytes (offset_of (team_at b) b.team_name) in
      rw e (
        ap (λ cursor. write_team_offset (some 0x28) b.team_name (team_at b - 8) cursor)
          (regroup fixed (scatter_bytes b) (u32_bytes 0) later rest)
        ∙ fill_team (fixed ++ scatter_bytes b) (later ++ rest) (team_at b) b.team_name (width e) low
            fits
        ∙ sym (regroup fixed (scatter_bytes b) field later rest))
  | inr e ↦ rw e refl
]
  where
    width : supports supports_team_id b.version ≡ true → length (fixed ++ scatter_bytes b) ≡ 0x28
    width e =
        unfold scatter_bytes u32_bytes in
        longer 0x24 0x28 fixed (scatter_bytes b) h (
          rw
            (earlier supports_scatter supports_team_id b.version (unfold Data.to_u32 in omega arith)
              e)
            refl)

restored : (n : ℕ) → 8 ≤ n → IsU32 n → (n - 8) % 2 ^ 32 + 8 ≡ n
restored n low high = omega arith

no_scatter_error :
    (b : CodeDirectoryBlob)
    → (supports supports_scatter b.version ≡ true → b.scatter_offset ≡ none)
    → not (is_some (scatter_position b) && is_some b.scatter_offset) ≡ true
unfolding scatter_position
no_scatter_error b h = elim (Bool-cases (supports supports_scatter b.version)) [
  | inl e ↦ rw (e, h e) refl
  | inr e ↦ rw e refl
]

-- The payload is the layout, with every offset in place.
pub serialize_payload-layout :
    (b : CodeDirectoryBlob) → IsWritable b → serialize_payload b ≡ ok (layout b)
unfolding serialize_payload layout
serialize_payload-layout b w = rw (
  write_head-lem b,
  write_optional-lem b (fixed 0 0) (length-fixed_bytes b 0 0 _ _ _),
  write_variable-lem b (fixed 0 0 ++ optional_bytes b 0) w.special_digests start,
  no_scatter_error b w.no_scatter,
  position,
  append_assoc (fixed 0 0) (optional_bytes b 0) (tail_bytes b),
  restored (ident_at b) (omega (arith, i.ident_low))
      (omega (arith, i.ident_team, i.team_digests, i.digests_high)),
  restored (digests_at b) (omega (arith, i.ident_low, i.ident_team, i.team_digests)) i.digests_high,
  patched,
  patched_team b (fixed (digests_at b) (ident_at b)) (tail_bytes b) (length-fixed_bytes b _ _ _ _ _)
      (omega (arith, i.ident_low, i.ident_team)) (omega (arith, i.team_digests, i.digests_high)),
)
  where
    i : InBounds b
    i = layout-InBounds b w.fits

    fixed : ℕ → ℕ → Bytes
    fixed d i =
        fixed_bytes b d i (highest_slot b.special_digests) (length b.code_digests)
          (trailing_zeros 32 b.page_size)

    start : length (fixed 0 0 ++ optional_bytes b 0) + 8 ≡ ident_at b
    start =
        unfold ident_at in
        omega (
          arith,
          length-append (fixed 0 0) (optional_bytes b 0),
          length-fixed_bytes b 0 0 (highest_slot b.special_digests) (length b.code_digests)
              (trailing_zeros 32 b.page_size),
        )

    position : length (fixed 0 0 ++ optional_bytes b 0) ≡ ident_at b - 8
    position = omega (arith, start)

-- A scatter offset that the version has room for, which the writer does not support.
abbrev pub has_scatter : CodeDirectoryBlob → Bool
has_scatter b = supports supports_scatter b.version && is_some b.scatter_offset

scatter_test :
    (b : CodeDirectoryBlob)
    → (is_some (scatter_position b) && is_some b.scatter_offset) ≡ has_scatter b
unfolding scatter_position
scatter_test b = elim (Bool-cases (supports supports_scatter b.version)) [
  | inl e ↦ rw e refl
  | inr e ↦ rw e refl
]

-- What is written when the last check passes.
unfoldable written : CodeDirectoryBlob → Bytes
written b =
    let fixed =
      fixed_bytes b 0 0 (highest_slot b.special_digests) (length b.code_digests)
        (trailing_zeros 32 b.page_size) in
    let bytes = (fixed ++ optional_bytes b 0) ++ tail_bytes b in
    write_team_offset (team_position b) b.team_name (team_at b - 8) (
      write_at 12 (u32_bytes (length (fixed ++ optional_bytes b 0) % 2 ^ 32 + 8))
        (write_at 8 (u32_bytes ((digests_at b - 8) % 2 ^ 32 + 8)) bytes))

serialize_payload-written :
    (b : CodeDirectoryBlob)
    → All (IsExpressible b.digest_size) b.special_digests
    → serialize_payload b
      ≡ (guard (not (has_scatter b)) (unimplemented "scatter offset") >> ok (written b))
unfolding serialize_payload written
serialize_payload-written b w = rw (
  write_head-lem b,
  write_optional-lem b fixed (length-fixed_bytes b 0 0 _ _ _),
  write_variable-lem b (fixed ++ optional_bytes b 0) w start,
  scatter_test b,
)
  where
    fixed : Bytes
    fixed =
        fixed_bytes b 0 0 (highest_slot b.special_digests) (length b.code_digests)
          (trailing_zeros 32 b.page_size)

    start : length (fixed ++ optional_bytes b 0) + 8 ≡ ident_at b
    start =
        unfold ident_at in
        omega (
          arith,
          length-append fixed (optional_bytes b 0),
          length-fixed_bytes b 0 0 (highest_slot b.special_digests) (length b.code_digests)
              (trailing_zeros 32 b.page_size),
        )

-- Serialising a code directory, of whatever field values, never panics if every special digest is
-- of a slot from 1 to 11 and has the stated size: it is the error on scatter offsets exactly if
-- one is set and the version has the field, and bytes otherwise.
pub serialize_payload_outcome :
    (b : CodeDirectoryBlob)
    → All (IsExpressible b.digest_size) b.special_digests
    → ((has_scatter b ≡ true) × (serialize_payload b ≡ err (unimplemented "scatter offset")))
      ⊎ ((has_scatter b ≡ false) × ((payload : Bytes) × (serialize_payload b ≡ ok payload)))
serialize_payload_outcome b w = elim (Bool-cases (has_scatter b)) [
  | inl e ↦ inl (e, serialize_payload-written b w ∙ rw e refl)
  | inr e ↦ inr (e, (written b, serialize_payload-written b w ∙ rw e refl))
]
