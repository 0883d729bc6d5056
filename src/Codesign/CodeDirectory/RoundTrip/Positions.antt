-- ===== src/Codesign/CodeDirectory/RoundTrip/Positions.antt =====
-- Where the parts of a code directory of code_directory.rs stand in a blob that holds its layout.
use apple_platform_rs.Base.{
  ℕ, ◌+◌, ◌≡◌, refl, ap, subst, ◌∙◌, true, [], ◌∷◌, ◌++◌, Bytes, length, drop, arith, length-append,
  append_assoc, append-nil, u32_bytes, u64_bytes,
}
use apple_platform_rs.Base.Gread.{At, At-next}
use apple_platform_rs.Codesign.CodeDirectory.Data
use apple_platform_rs.Codesign.CodeDirectory.Data.{
  CodeDirectoryBlob, supports_scatter, supports_team_id, supports_code_limit64,
  supports_executable_segment, supports_runtime, supports_linkage,
}
use apple_platform_rs.Codesign.CodeDirectory.Slots.{highest_slot}
use apple_platform_rs.Codesign.CodeDirectory.Serialize.{supports, trailing_zeros}
use apple_platform_rs.Codesign.CodeDirectory.RoundTrip.{
  fixed_bytes, scatter_bytes, team_bytes, limit_bytes, exec_seg_bytes, runtime_bytes, linkage_bytes,
  optional_bytes, team_text, ident_at, team_at, team_field, special_digests_of, digests_at,
  tail_bytes, layout, concat,
}
use apple_platform_rs.Codesign.CodeDirectory.RoundTrip.Sections.{earlier}
use apple_platform_rs.Codesign.CodeDirectory.RoundTrip.Bounds.{
  length-fixed_bytes, length-optional_bytes,
}

module _ (b : CodeDirectoryBlob) where
  -- The sections from the team offset on, with what stands behind them.
  abbrev pub from_linkage : Bytes
  from_linkage = linkage_bytes b ++ tail_bytes b

  abbrev pub from_runtime : Bytes
  from_runtime = runtime_bytes b ++ from_linkage

  abbrev pub from_exec_seg : Bytes
  from_exec_seg = exec_seg_bytes b ++ from_runtime

  abbrev pub from_limit : Bytes
  from_limit = limit_bytes b ++ from_exec_seg

  abbrev pub from_team : Bytes
  from_team = team_bytes b (team_field b) ++ from_limit

  -- The offsets of the sections.
  abbrev pub team_offset : ℕ
  team_offset = 44 + length (scatter_bytes b)

  abbrev pub limit_offset : ℕ
  limit_offset = team_offset + length (team_bytes b (team_field b))

  abbrev pub exec_seg_offset : ℕ
  exec_seg_offset = limit_offset + length (limit_bytes b)

  abbrev pub runtime_offset : ℕ
  runtime_offset = exec_seg_offset + length (exec_seg_bytes b)

  abbrev pub linkage_offset : ℕ
  linkage_offset = runtime_offset + length (runtime_bytes b)

  sections : optional_bytes b (team_field b) ++ tail_bytes b ≡ scatter_bytes b ++ from_team
  unfolding optional_bytes
  sections = rw (append_assoc, append_assoc, append_assoc, append_assoc, append_assoc) refl

  pub linkage_end : linkage_offset + length (linkage_bytes b) ≡ ident_at b
  unfolding ident_at
  linkage_end =
      subst (λ n. linkage_offset + length (linkage_bytes b) ≡ 44 + n)
        (length-optional_bytes b (team_field b))
        (unfold optional_bytes in
          let t = team_bytes b (team_field b) in
          let k = linkage_bytes b in
          let r = runtime_bytes b in
          let e = exec_seg_bytes b in
          let l = limit_bytes b in
          omega (
            arith,
            length-append (scatter_bytes b) (t ++ (l ++ (e ++ (r ++ k)))),
            length-append t (l ++ (e ++ (r ++ k))),
            length-append l (e ++ (r ++ k)),
            length-append e (r ++ k),
            length-append r k,
          ))

  -- The positions that the parser asserts.
  scatter_width : supports supports_scatter b.version ≡ true → length (scatter_bytes b) ≡ 4
  unfolding scatter_bytes u32_bytes
  scatter_width e = rw e refl

  team_width : supports supports_team_id b.version ≡ true → length (team_bytes b (team_field b)) ≡ 4
  unfolding team_bytes u32_bytes
  team_width e = rw e refl

  limit_width : supports supports_code_limit64 b.version ≡ true → length (limit_bytes b) ≡ 12
  unfolding limit_bytes u32_bytes u64_bytes
  limit_width e = rw e refl

  exec_seg_width :
      supports supports_executable_segment b.version ≡ true → length (exec_seg_bytes b) ≡ 24
  unfolding exec_seg_bytes u32_bytes u64_bytes
  exec_seg_width e = rw e refl

  runtime_width : supports supports_runtime b.version ≡ true → length (runtime_bytes b) ≡ 8
  unfolding runtime_bytes u32_bytes
  runtime_width e = rw e refl

  pub team_position_lem : supports supports_team_id b.version ≡ true → team_offset ≡ 0x30
  team_position_lem e = omega (
    arith,
    scatter_width
        (earlier supports_scatter supports_team_id b.version (unfold Data.to_u32 in omega arith) e),
  )

  limit_position : supports supports_code_limit64 b.version ≡ true → limit_offset ≡ 0x34
  limit_position e =
      let e' =
        earlier supports_team_id supports_code_limit64 b.version (unfold Data.to_u32 in omega arith)
          e in
      omega (arith, team_position_lem e', team_width e')

  pub exec_seg_position :
      supports supports_executable_segment b.version ≡ true → exec_seg_offset ≡ 0x40
  exec_seg_position e =
      let e' =
        earlier supports_code_limit64 supports_executable_segment b.version
          (unfold Data.to_u32 in omega arith) e in
      omega (arith, limit_position e', limit_width e')

  pub runtime_position : supports supports_runtime b.version ≡ true → runtime_offset ≡ 0x58
  runtime_position e =
      let e' =
        earlier supports_executable_segment supports_runtime b.version
          (unfold Data.to_u32 in omega arith) e in
      omega (arith, exec_seg_position e', exec_seg_width e')

  pub linkage_position : supports supports_linkage b.version ≡ true → linkage_offset ≡ 0x60
  linkage_position e =
      let e' =
        earlier supports_runtime supports_linkage b.version (unfold Data.to_u32 in omega arith) e in
      omega (arith, runtime_position e', runtime_width e')

module _ (b : CodeDirectoryBlob) (data' : Bytes) (h : drop 8 data' ≡ layout b) where
  pub At-fixed :
      At data' 8
        (fixed_bytes b
          (digests_at b)
          (ident_at b)
          (highest_slot b.special_digests)
          (length b.code_digests)
          (trailing_zeros 32 b.page_size))
        (optional_bytes b (team_field b) ++ tail_bytes b)
  At-fixed = unfold layout in h

  pub At-scatter : At data' 44 (scatter_bytes b) (from_team b)
  At-scatter =
      subst (λ n. drop n data' ≡ scatter_bytes b ++ from_team b)
        (ap (λ n. 8 + n) (length-fixed_bytes b _ _ _ _ _))
        (At-next data' 8 _ (optional_bytes b (team_field b)) (tail_bytes b) At-fixed ∙ sections b)

  pub At-team : At data' (team_offset b) (team_bytes b (team_field b)) (from_limit b)
  At-team =
      At-next data' 44 (scatter_bytes b) (team_bytes b (team_field b)) (from_limit b) At-scatter

  pub At-limit : At data' (limit_offset b) (limit_bytes b) (from_exec_seg b)
  At-limit =
      At-next data' (team_offset b) (team_bytes b (team_field b)) (limit_bytes b) (from_exec_seg b)
        At-team

  pub At-exec_seg : At data' (exec_seg_offset b) (exec_seg_bytes b) (from_runtime b)
  At-exec_seg =
      At-next data' (limit_offset b) (limit_bytes b) (exec_seg_bytes b) (from_runtime b) At-limit

  pub At-runtime : At data' (runtime_offset b) (runtime_bytes b) (from_linkage b)
  At-runtime =
      At-next data' (exec_seg_offset b) (exec_seg_bytes b) (runtime_bytes b) (from_linkage b)
        At-exec_seg

  pub At-linkage : At data' (linkage_offset b) (linkage_bytes b) (tail_bytes b)
  At-linkage =
      At-next data' (runtime_offset b) (runtime_bytes b) (linkage_bytes b) (tail_bytes b) At-runtime

  abbrev codes : Bytes
  codes = concat b.code_digests

  abbrev specials : Bytes
  specials = concat (special_digests_of b)

  pub At-ident : At data' (ident_at b) (b.ident ++ (0 ∷ [])) (team_text b ++ (specials ++ codes))
  At-ident =
      subst (λ n. drop n data' ≡ (b.ident ++ (0 ∷ [])) ++ (team_text b ++ (specials ++ codes)))
        (linkage_end b)
        (unfold tail_bytes in
          At-next data' (linkage_offset b) (linkage_bytes b) (b.ident ++ (0 ∷ []))
            (team_text b ++ (specials ++ codes)) At-linkage)

  pub At-team_text : At data' (team_at b) (team_text b) (specials ++ codes)
  At-team_text =
      subst (λ n. drop n data' ≡ team_text b ++ (specials ++ codes)) ident_end
        (At-next data' (ident_at b) (b.ident ++ (0 ∷ [])) (team_text b) (specials ++ codes)
          At-ident)
    where
      ident_end : ident_at b + length (b.ident ++ (0 ∷ [])) ≡ team_at b
      ident_end = unfold team_at in ap (λ n. ident_at b + n) (length-append b.ident (0 ∷ []))

  pub At-specials : At data' (team_at b + length (team_text b)) specials codes
  At-specials = At-next data' (team_at b) (team_text b) specials codes At-team_text

  pub At-codes : At data' (digests_at b) codes []
  At-codes =
      unfold digests_at in
      At-next data' (team_at b + length (team_text b)) specials codes [] (rw append-nil At-specials)
