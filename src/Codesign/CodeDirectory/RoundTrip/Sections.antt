-- ===== src/Codesign/CodeDirectory/RoundTrip/Sections.antt =====
-- The sections of a code directory of code_directory.rs are written one behind the other.
use apple_platform_rs.Base.{
  ℕ, ◌+◌, ◌≤◌, ◌≡◌, refl, sym, ap, ◌∙◌, true, false, Option, none, some, [], ◌++◌, ◌==◌,
  if◌then◌else◌, ok, Bytes, length, arith, length-append, append_assoc, append-nil, u32_bytes,
  u64_bytes, Bool-cases, inl, inr,
}
use apple_platform_rs.Base.Gread.{u8_bytes, u16_bytes}
use apple_platform_rs.Codesign.Error.{Result}
use apple_platform_rs.Codesign.CodeDirectory.Data
use apple_platform_rs.Codesign.CodeDirectory.Data.{
  CodeDirectoryBlob, Digest, SlotDigests, supports_scatter, supports_team_id, supports_code_limit64,
  supports_executable_segment, supports_runtime, supports_linkage,
}
use apple_platform_rs.Codesign.CodeDirectory.Serialize.{
  supports, or_zero, linkage_fields, write_linkage, write_runtime, write_exec_seg, write_limit,
  write_team_field, write_optional,
}
use apple_platform_rs.Codesign.CodeDirectory.RoundTrip.{
  scatter_bytes, team_bytes, limit_bytes, exec_seg_bytes, runtime_bytes, linkage_bytes,
  optional_bytes,
}

positioned :
    (n : ℕ) (cursor xs : Bytes)
    → length cursor + length xs ≡ n
    → (length (cursor ++ xs) == n) ≡ true
positioned n cursor xs h = ground (arith, length-append cursor xs)

pub at_position : (n : ℕ) (cursor : Bytes) → length cursor ≡ n → (length cursor == n) ≡ true
at_position n cursor h = ground arith

pub longer :
    (n m : ℕ) (cursor xs : Bytes)
    → length cursor ≡ n
    → n + length xs ≡ m
    → length (cursor ++ xs) ≡ m
longer n m cursor xs h k = omega (arith, length-append cursor xs)

-- A version without a field lacks those of later versions.
absent :
    (s s' : Data.CodeDirectoryVersion) (v : ℕ)
    → Data.to_u32 s ≤ Data.to_u32 s'
    → supports s v ≡ false
    → supports s' v ≡ false
unfolding supports
absent s s' v h e = ground arith

pub earlier :
    (s s' : Data.CodeDirectoryVersion) (v : ℕ)
    → Data.to_u32 s ≤ Data.to_u32 s'
    → supports s' v ≡ true
    → supports s v ≡ true
unfolding supports
earlier s s' v h e = ground arith

module _ (b : CodeDirectoryBlob) where
  no_linkage_bytes : supports supports_linkage b.version ≡ false → linkage_bytes b ≡ []
  unfolding linkage_bytes
  no_linkage_bytes e = rw e refl

  no_runtime_bytes :
      supports supports_runtime b.version ≡ false → runtime_bytes b ++ linkage_bytes b ≡ []
  unfolding runtime_bytes
  no_runtime_bytes e = rw e (
      no_linkage_bytes
        (absent supports_runtime supports_linkage b.version (unfold Data.to_u32 in omega arith) e))

  no_exec_seg_bytes :
      supports supports_executable_segment b.version ≡ false
      → exec_seg_bytes b ++ (runtime_bytes b ++ linkage_bytes b) ≡ []
  unfolding exec_seg_bytes
  no_exec_seg_bytes e = rw e (
      no_runtime_bytes (
        absent supports_executable_segment supports_runtime b.version
          (unfold Data.to_u32 in omega arith) e))

  no_limit_bytes :
      supports supports_code_limit64 b.version ≡ false
      → limit_bytes b ++ (exec_seg_bytes b ++ (runtime_bytes b ++ linkage_bytes b)) ≡ []
  unfolding limit_bytes
  no_limit_bytes e = rw e (
      no_exec_seg_bytes (
        absent supports_code_limit64 supports_executable_segment b.version
          (unfold Data.to_u32 in omega arith) e))

  no_team_bytes :
      (t : ℕ)
      → supports supports_team_id b.version ≡ false
      → team_bytes b t
          ++ (limit_bytes b ++ (exec_seg_bytes b ++ (runtime_bytes b ++ linkage_bytes b)))
        ≡ []
  unfolding team_bytes
  no_team_bytes t e = rw e (
      no_limit_bytes (
        absent supports_team_id supports_code_limit64 b.version (unfold Data.to_u32 in omega arith)
          e))

  ended :
      (cursor : Bytes) {xs : Bytes} → xs ≡ [] → Path (Result Bytes) (ok cursor) (ok (cursor ++ xs))
  ended cursor e = ap ok (sym (ap (λ xs. cursor ++ xs) e ∙ append-nil cursor))

  write_linkage-lem :
      (cursor : Bytes)
      → length cursor ≡ 0x58
      → write_linkage b cursor ≡ ok (cursor ++ linkage_bytes b)
  unfolding write_linkage linkage_bytes linkage_fields u8_bytes u16_bytes u32_bytes
  write_linkage-lem cursor h = elim (Bool-cases (supports supports_linkage b.version)) [
    | inl e ↦
        rw (e, positioned 0x60 cursor (linkage_fields b) (omega arith))
          (ap ok (append_assoc cursor (linkage_fields b) (u32_bytes (or_zero b.linkage_size))))
    | inr e ↦ rw e (ap ok (sym (append-nil cursor)))
  ]

  write_runtime-lem :
      (cursor : Bytes)
      → length cursor ≡ 0x50
      → write_runtime b cursor ≡ ok (cursor ++ (runtime_bytes b ++ linkage_bytes b))
  unfolding write_runtime runtime_bytes u32_bytes
  write_runtime-lem cursor h = elim (Bool-cases (supports supports_runtime b.version)) [
    | inl e ↦
        let fields = u32_bytes (or_zero b.runtime) ++ u32_bytes (or_zero b.pre_encrypt_offset) in
        rw
          (
            e,
            at_position 0x50 cursor h,
            write_linkage-lem (cursor ++ fields) (longer 0x50 0x58 cursor fields h refl),
          )
          (ap ok (append_assoc cursor fields (linkage_bytes b)))
    | inr e ↦ rw e (
        ended cursor (
          no_linkage_bytes (
            absent supports_runtime supports_linkage b.version (unfold Data.to_u32 in omega arith)
              e)))
  ]

  write_exec_seg-lem :
      (cursor : Bytes)
      → length cursor ≡ 0x38
      → write_exec_seg b cursor
        ≡ ok (cursor ++ (exec_seg_bytes b ++ (runtime_bytes b ++ linkage_bytes b)))
  unfolding write_exec_seg exec_seg_bytes u64_bytes u32_bytes
  write_exec_seg-lem cursor h = elim (Bool-cases (supports supports_executable_segment b.version)) [
    | inl e ↦
        let first = u64_bytes (or_zero b.exec_seg_base) in
        let fields = u64_bytes (or_zero b.exec_seg_limit) ++ u64_bytes (or_zero b.exec_seg_flags) in
        let rest = runtime_bytes b ++ linkage_bytes b in
        rw
          (
            e,
            positioned 0x40 cursor first (omega arith),
            write_runtime-lem ((cursor ++ first) ++ fields) (
                longer 0x40 0x50 (cursor ++ first) fields (longer 0x38 0x40 cursor first h refl)
                  refl),
          )
          (ap ok (
            append_assoc (cursor ++ first) fields rest
            ∙ append_assoc cursor first (fields ++ rest)))
    | inr e ↦ rw e (
        ended cursor (
          no_runtime_bytes (
            absent supports_executable_segment supports_runtime b.version
              (unfold Data.to_u32 in omega arith) e)))
  ]

  write_limit-lem :
      (cursor : Bytes)
      → length cursor ≡ 0x2c
      → write_limit b cursor
        ≡ ok (
            cursor ++ (limit_bytes b ++ (exec_seg_bytes b ++ (runtime_bytes b ++ linkage_bytes b))))
  unfolding write_limit limit_bytes u64_bytes u32_bytes
  write_limit-lem cursor h = elim (Bool-cases (supports supports_code_limit64 b.version)) [
    | inl e ↦
        let first = u32_bytes (or_zero b.spare3) in
        let fields = u64_bytes (or_zero b.code_limit_64) in
        let rest = exec_seg_bytes b ++ (runtime_bytes b ++ linkage_bytes b) in
        rw
          (
            e,
            positioned 0x30 cursor first (omega arith),
            write_exec_seg-lem ((cursor ++ first) ++ fields) (
                longer 0x30 0x38 (cursor ++ first) fields (longer 0x2c 0x30 cursor first h refl)
                  refl),
          )
          (ap ok (
            append_assoc (cursor ++ first) fields rest
            ∙ append_assoc cursor first (fields ++ rest)))
    | inr e ↦ rw e (
        ended cursor (
          no_exec_seg_bytes (
            absent supports_code_limit64 supports_executable_segment b.version
              (unfold Data.to_u32 in omega arith) e)))
  ]

  -- The positions of the scatter offset and of the team offset.
  unfoldable pub scatter_position : Option ℕ
  scatter_position = if supports supports_scatter b.version then some 0x24 else none

  unfoldable pub team_position : Option ℕ
  team_position = if supports supports_team_id b.version then some 0x28 else none

  write_team_field-lem :
      (cursor : Bytes)
      → length cursor ≡ 0x28
      → write_team_field b cursor
        ≡ ok (
          cursor
              ++ (team_bytes b 0
                  ++ (limit_bytes b ++ (exec_seg_bytes b ++ (runtime_bytes b ++ linkage_bytes b)))),
          team_position,
        )
  unfolding write_team_field team_bytes team_position u32_bytes
  write_team_field-lem cursor h = elim (Bool-cases (supports supports_team_id b.version)) [
    | inl e ↦
        let rest = limit_bytes b ++ (exec_seg_bytes b ++ (runtime_bytes b ++ linkage_bytes b)) in
        rw
          (
            e,
            write_limit-lem (cursor ++ u32_bytes 0) (longer 0x28 0x2c cursor (u32_bytes 0) h refl),
            h,
          )
          (ap (λ bytes. ok (bytes, some 0x28)) (append_assoc cursor (u32_bytes 0) rest))
    | inr e ↦ rw e (
        ap (λ bytes. ok (bytes, none))
          (sym (
            ap (λ xs. cursor ++ xs)
              (no_limit_bytes (
                absent supports_team_id supports_code_limit64 b.version
                  (unfold Data.to_u32 in omega arith) e))
            ∙ append-nil cursor)))
  ]

  pub write_optional-lem :
      (cursor : Bytes)
      → length cursor ≡ 0x24
      → write_optional b cursor ≡ ok (cursor ++ optional_bytes b 0, scatter_position, team_position)
  unfolding write_optional optional_bytes scatter_bytes scatter_position team_position u32_bytes
  write_optional-lem cursor h = elim (Bool-cases (supports supports_scatter b.version)) [
    | inl e ↦
        let field = u32_bytes (or_zero b.scatter_offset) in
        let rest =
          team_bytes b 0
          ++ (limit_bytes b ++ (exec_seg_bytes b ++ (runtime_bytes b ++ linkage_bytes b))) in
        rw (e, write_team_field-lem (cursor ++ field) (longer 0x24 0x28 cursor field h refl), h)
          (ap (λ bytes. ok (bytes, some 0x24, team_position)) (append_assoc cursor field rest))
    | inr e ↦
        let e' =
          absent supports_scatter supports_team_id b.version (unfold Data.to_u32 in omega arith)
            e in
        rw (e, e')
          (ap (λ bytes. ok (bytes, none, none))
            (sym (ap (λ xs. cursor ++ xs) (no_team_bytes 0 e') ∙ append-nil cursor)))
  ]
