-- ===== src/Codesign/CodeDirectory/RoundTrip/Fields.antt =====
-- The sections of a code directory of code_directory.rs are read where they are laid out.
use apple_platform_rs.Base.{
  ℕ, ◌+◌, ◌^◌, ◌<◌, ◌≡◌, ap, ◌∙◌, true, some, ◌++◌, ok, Bytes, length, u32_bytes, u64_bytes, arith,
  Bool-cases, inl, inr, ◌==◌,
}
use apple_platform_rs.Base.Gread.{
  u8_bytes, u16_bytes, gread_u8, gread_u16, gread_u32, gread_u64, At, At-next, gread_u8-At,
  gread_u16-At, gread_u32-At, gread_u64-At,
}
use apple_platform_rs.Codesign.Error.{Error, Result, scroll}
use apple_platform_rs.Codesign.CodeDirectory.Data.{
  CodeDirectoryBlob, supports_code_limit64, supports_executable_segment, supports_runtime,
  supports_linkage,
}
use apple_platform_rs.Codesign.CodeDirectory.Serialize.{supports, or_zero}
use apple_platform_rs.Codesign.CodeDirectory.Parse.{
  read_limit, read_limit_fields, read_exec_seg, read_exec_seg_fields, read_runtime,
  read_runtime_fields, read_linkage, read_linkage_fields,
}
use apple_platform_rs.Codesign.CodeDirectory.RoundTrip.{
  limit_bytes, exec_seg_bytes, runtime_bytes, linkage_bytes, filled, IsInRange,
}

module _ (data' : Bytes) (offset n : ℕ) (rest : Bytes) where
  pub u8-At :
      n < 256
      → At data' offset (u8_bytes n) rest
      → gread_u8 {E = Error} scroll data' offset ≡ ok (n, offset + 1)
  u8-At fits h =
      gread_u8-At scroll data' offset n rest h ∙ ap (λ v. ok (v, offset + 1)) (omega arith)

  pub u16-At :
      n < 2 ^ 16
      → At data' offset (u16_bytes n) rest
      → gread_u16 {E = Error} scroll data' offset ≡ ok (n, offset + 2)
  u16-At fits h =
      gread_u16-At scroll data' offset n rest h ∙ ap (λ v. ok (v, offset + 2)) (omega arith)

  pub u32-At :
      n < 2 ^ 32
      → At data' offset (u32_bytes n) rest
      → gread_u32 {E = Error} scroll data' offset ≡ ok (n, offset + 4)
  u32-At fits h =
      gread_u32-At scroll data' offset n rest h ∙ ap (λ v. ok (v, offset + 4)) (omega arith)

  pub u64-At :
      n < 2 ^ 64
      → At data' offset (u64_bytes n) rest
      → gread_u64 {E = Error} scroll data' offset ≡ ok (n, offset + 8)
  u64-At fits h =
      gread_u64-At scroll data' offset n rest h ∙ ap (λ v. ok (v, offset + 8)) (omega arith)

module _ (offset : ℕ) where
  at_position : (n : ℕ) → offset ≡ n → (offset == n) ≡ true
  at_position n e = ground arith

-- Only the offset of a result is left to compare.
moved {ℓ} : {A : Type ℓ} (a : A) {m n : ℕ} → m ≡ n → Path (Result (A × ℕ)) (ok (a, m)) (ok (a, n))
moved a e = ap (λ o. ok (a, o)) e

module _ (data' : Bytes) (offset : ℕ) (rest : Bytes) where
  read_limit_fields-At :
      (m n : ℕ)
      → m < 2 ^ 32
      → n < 2 ^ 64
      → At data' offset (u32_bytes m ++ u64_bytes n) rest
      → read_limit_fields data' offset
        ≡ ok (
          record { spare3 = some m; code_limit_64 = some n },
          offset + length (u32_bytes m ++ u64_bytes n),
        )
  unfolding read_limit_fields u8_bytes u16_bytes u32_bytes u64_bytes
  read_limit_fields-At m n hm hn h =
      let h1 = At-next data' (offset) (u32_bytes m) (u64_bytes n) rest h in
      rw
        (u32-At data' (offset) m (u64_bytes n ++ rest) hm h, u64-At data' (offset + 4) n rest hn h1)
        (moved _ (omega arith))

  read_exec_seg_fields-At :
      (m n p : ℕ)
      → m < 2 ^ 64
      → n < 2 ^ 64
      → p < 2 ^ 64
      → At data' offset (u64_bytes m ++ (u64_bytes n ++ u64_bytes p)) rest
      → read_exec_seg_fields data' offset
        ≡ ok (
          record { exec_seg_base = some m; exec_seg_limit = some n; exec_seg_flags = some p },
          offset + length (u64_bytes m ++ (u64_bytes n ++ u64_bytes p)),
        )
  unfolding read_exec_seg_fields u8_bytes u16_bytes u32_bytes u64_bytes
  read_exec_seg_fields-At m n p hm hn hp h =
      let h1 = At-next data' (offset) (u64_bytes m) (u64_bytes n ++ u64_bytes p) rest h in
      let h2 = At-next data' (offset + 8) (u64_bytes n) (u64_bytes p) rest h1 in
      rw
        (
          u64-At data' (offset) m ((u64_bytes n ++ u64_bytes p) ++ rest) hm h,
          u64-At data' (offset + 8) n (u64_bytes p ++ rest) hn h1,
          u64-At data' (offset + 8 + 8) p rest hp h2,
        )
        (moved _ (omega arith))

  read_runtime_fields-At :
      (m n : ℕ)
      → m < 2 ^ 32
      → n < 2 ^ 32
      → At data' offset (u32_bytes m ++ u32_bytes n) rest
      → read_runtime_fields data' offset
        ≡ ok (
          record { runtime = some m; pre_encrypt_offset = some n },
          offset + length (u32_bytes m ++ u32_bytes n),
        )
  unfolding read_runtime_fields u8_bytes u16_bytes u32_bytes u64_bytes
  read_runtime_fields-At m n hm hn h =
      let h1 = At-next data' (offset) (u32_bytes m) (u32_bytes n) rest h in
      rw
        (u32-At data' (offset) m (u32_bytes n ++ rest) hm h, u32-At data' (offset + 4) n rest hn h1)
        (moved _ (omega arith))

  read_linkage_fields-At :
      (m n p q s : ℕ)
      → m < 256
      → n < 256
      → p < 2 ^ 16
      → q < 2 ^ 32
      → s < 2 ^ 32
      → At data' offset
          (u8_bytes m ++ (u8_bytes n ++ (u16_bytes p ++ (u32_bytes q ++ u32_bytes s))))
          rest
      → read_linkage_fields data' offset
        ≡ ok (
          record {
            linkage_hash_type = some m;
            linkage_truncated = some n;
            spare4 = some p;
            linkage_offset = some q;
            linkage_size = some s;
          },
          offset
              + length
                  (u8_bytes m ++ (u8_bytes n ++ (u16_bytes p ++ (u32_bytes q ++ u32_bytes s)))),
        )
  unfolding read_linkage_fields u8_bytes u16_bytes u32_bytes u64_bytes
  read_linkage_fields-At m n p q s hm hn hp hq hs h =
      let h1 =
        At-next data' (offset) (u8_bytes m)
          (u8_bytes n ++ (u16_bytes p ++ (u32_bytes q ++ u32_bytes s))) rest h in
      let h2 =
        At-next data' (offset + 1) (u8_bytes n) (u16_bytes p ++ (u32_bytes q ++ u32_bytes s)) rest
          h1 in
      let h3 = At-next data' (offset + 1 + 1) (u16_bytes p) (u32_bytes q ++ u32_bytes s) rest h2 in
      let h4 = At-next data' (offset + 1 + 1 + 2) (u32_bytes q) (u32_bytes s) rest h3 in
      rw
        (
          u8-At data' (offset) m
              ((u8_bytes n ++ (u16_bytes p ++ (u32_bytes q ++ u32_bytes s))) ++ rest) hm h,
          u8-At data' (offset + 1) n ((u16_bytes p ++ (u32_bytes q ++ u32_bytes s)) ++ rest) hn h1,
          u16-At data' (offset + 1 + 1) p ((u32_bytes q ++ u32_bytes s) ++ rest) hp h2,
          u32-At data' (offset + 1 + 1 + 2) q (u32_bytes s ++ rest) hq h3,
          u32-At data' (offset + 1 + 1 + 2 + 4) s rest hs h4,
        )
        (moved _ (omega arith))

module _ (b : CodeDirectoryBlob) (r : IsInRange b) (data' : Bytes) (offset : ℕ) (rest : Bytes) where
  pub read_limit-At :
      At data' offset (limit_bytes b) rest
      → read_limit b.version data' offset
        ≡ ok (
          record {
            spare3 = filled b.version supports_code_limit64 b.spare3;
            code_limit_64 = filled b.version supports_code_limit64 b.code_limit_64;
          },
          offset + length (limit_bytes b),
        )
  unfolding read_limit limit_bytes filled
  read_limit-At h = elim (Bool-cases (supports supports_code_limit64 b.version)) [
    | inl e ↦ rw e (
        read_limit_fields-At data' offset rest (or_zero b.spare3) (or_zero b.code_limit_64) r.spare3
          r.code_limit_64 (rw e at h))
    | inr e ↦ rw e (moved _ (omega arith))
  ]

  pub read_exec_seg-At :
      (supports supports_executable_segment b.version ≡ true → offset ≡ 0x40)
      → At data' offset (exec_seg_bytes b) rest
      → read_exec_seg b.version data' offset
        ≡ ok (
          record {
            exec_seg_base = filled b.version supports_executable_segment b.exec_seg_base;
            exec_seg_limit = filled b.version supports_executable_segment b.exec_seg_limit;
            exec_seg_flags = filled b.version supports_executable_segment b.exec_seg_flags;
          },
          offset + length (exec_seg_bytes b),
        )
  unfolding read_exec_seg exec_seg_bytes filled
  read_exec_seg-At at h = elim (Bool-cases (supports supports_executable_segment b.version)) [
    | inl e ↦ rw e (
        rw (at_position offset 0x40 (at e)) (
          read_exec_seg_fields-At data' offset rest (or_zero b.exec_seg_base)
            (or_zero b.exec_seg_limit) (or_zero b.exec_seg_flags) r.exec_seg_base r.exec_seg_limit
            r.exec_seg_flags (rw e at h)))
    | inr e ↦ rw e (moved _ (omega arith))
  ]

  pub read_runtime-At :
      (supports supports_runtime b.version ≡ true → offset ≡ 0x58)
      → At data' offset (runtime_bytes b) rest
      → read_runtime b.version data' offset
        ≡ ok (
          record {
            runtime = filled b.version supports_runtime b.runtime;
            pre_encrypt_offset = filled b.version supports_runtime b.pre_encrypt_offset;
          },
          offset + length (runtime_bytes b),
        )
  unfolding read_runtime runtime_bytes filled
  read_runtime-At at h = elim (Bool-cases (supports supports_runtime b.version)) [
    | inl e ↦ rw e (
        rw (at_position offset 0x58 (at e)) (
          read_runtime_fields-At data' offset rest (or_zero b.runtime)
            (or_zero b.pre_encrypt_offset) r.runtime r.pre_encrypt_offset (rw e at h)))
    | inr e ↦ rw e (moved _ (omega arith))
  ]

  pub read_linkage-At :
      (supports supports_linkage b.version ≡ true → offset ≡ 0x60)
      → At data' offset (linkage_bytes b) rest
      → read_linkage b.version data' offset
        ≡ ok (
          record {
            linkage_hash_type = filled b.version supports_linkage b.linkage_hash_type;
            linkage_truncated = filled b.version supports_linkage b.linkage_truncated;
            spare4 = filled b.version supports_linkage b.spare4;
            linkage_offset = filled b.version supports_linkage b.linkage_offset;
            linkage_size = filled b.version supports_linkage b.linkage_size;
          },
          offset + length (linkage_bytes b),
        )
  unfolding read_linkage linkage_bytes filled
  read_linkage-At at h = elim (Bool-cases (supports supports_linkage b.version)) [
    | inl e ↦ rw e (
        rw (at_position offset 0x60 (at e)) (
          read_linkage_fields-At data' offset rest (or_zero b.linkage_hash_type)
            (or_zero b.linkage_truncated) (or_zero b.spare4) (or_zero b.linkage_offset)
            (or_zero b.linkage_size) r.linkage_hash_type r.linkage_truncated r.spare4
            r.linkage_offset r.linkage_size (rw e at h)))
    | inr e ↦ rw e (moved _ (omega arith))
  ]
