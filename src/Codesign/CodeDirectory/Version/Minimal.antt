-- ===== src/Codesign/CodeDirectory/Version/Minimal.antt =====
-- The version that `adjust_version` chooses is the least that has room for the fields set.
use apple_platform_rs.Base.{
  ℕ, Bool, true, false, Option, none, some, if◌then◌else◌, ◌≤◌, ◌≡◌, refl, ap, arith, max, ge→ltb,
}
use apple_platform_rs.Codesign.Target.{MachoTarget, Semver}
use apple_platform_rs.Codesign.CodeDirectory.Data
use apple_platform_rs.Codesign.CodeDirectory.Data.{
  CodeDirectoryVersion, CodeDirectoryBlob, initial, supports_scatter, supports_team_id,
  supports_code_limit64, supports_executable_segment, supports_runtime, supports_linkage,
}
use apple_platform_rs.Codesign.CodeDirectory.Version.{
  is_some, has_limit, has_exec_seg, has_runtime, has_linkage, fields_version, target_version,
  raised_version, adjust_version, keep, clear_newer_fields,
}

-- Every group of fields set pushes the version up.
fields_version-covers :
    (b : CodeDirectoryBlob)
    → let v = Data.to_u32 (fields_version b) in
      (is_some b.scatter_offset ≡ true → 0x20100 ≤ v)
      × (is_some b.team_name ≡ true → 0x20200 ≤ v)
      × (has_limit b ≡ true → 0x20300 ≤ v)
      × (has_exec_seg b ≡ true → 0x20400 ≤ v)
      × (has_runtime b ≡ true → 0x20500 ≤ v)
      × (has_linkage b ≡ true → 0x20600 ≤ v)
unfolding fields_version Data.to_u32
fields_version-covers b =
    (ground arith, ground arith, ground arith, ground arith, ground arith, ground arith)

keep-covered {ℓ} :
    {A : Type ℓ} (v : ℕ) (s : CodeDirectoryVersion) (f : Option A)
    → (is_some f ≡ true → Data.to_u32 s ≤ v)
    → keep v s f ≡ f
unfolding keep
keep-covered v s none h = ground arith
keep-covered v s (some a) h = rw (ge→ltb v (Data.to_u32 s) (h refl))

keep-fixed {ℓ} :
    {A : Type ℓ} (v : ℕ) (s : CodeDirectoryVersion) (f : Option A)
    → keep v s f ≡ f
    → is_some f ≡ true
    → Data.to_u32 s ≤ v
unfolding keep
keep-fixed v s none h e = cc
keep-fixed v s (some a) h e = ground arith

-- A version has room for the fields set when it is at least the version that the fields ask for.
fits-covered :
    (b : CodeDirectoryBlob) → Data.to_u32 (fields_version b) ≤ b.version → clear_newer_fields b ≡ b
unfolding clear_newer_fields Data.to_u32
fits-covered b h =
    let (cs, ct, cl, ce, cr, ck) = fields_version-covers b in
    let v = b.version in
    rw (
      keep-covered v supports_scatter b.scatter_offset (λ e. omega (arith, cs (ground arith), h)),
      keep-covered v supports_team_id b.team_name (λ e. omega (arith, ct (ground arith), h)),
      keep-covered v supports_code_limit64 b.spare3 (λ e. omega (arith, cl (ground arith), h)),
      keep-covered v supports_code_limit64 b.code_limit_64
          (λ e. omega (arith, cl (ground arith), h)),
      keep-covered v supports_executable_segment b.exec_seg_base
          (λ e. omega (arith, ce (ground arith), h)),
      keep-covered v supports_executable_segment b.exec_seg_limit
          (λ e. omega (arith, ce (ground arith), h)),
      keep-covered v supports_executable_segment b.exec_seg_flags
          (λ e. omega (arith, ce (ground arith), h)),
      keep-covered v supports_runtime b.runtime (λ e. omega (arith, cr (ground arith), h)),
      keep-covered v supports_runtime b.pre_encrypt_offset
          (λ e. omega (arith, cr (ground arith), h)),
      keep-covered v supports_linkage b.linkage_hash_type
          (λ e. omega (arith, ck (ground arith), h)),
      keep-covered v supports_linkage b.linkage_truncated
          (λ e. omega (arith, ck (ground arith), h)),
      keep-covered v supports_linkage b.spare4 (λ e. omega (arith, ck (ground arith), h)),
      keep-covered v supports_linkage b.linkage_offset (λ e. omega (arith, ck (ground arith), h)),
      keep-covered v supports_linkage b.linkage_size (λ e. omega (arith, ck (ground arith), h)),
    )

bounded :
    (c : Bool) (s w : CodeDirectoryVersion) (v : ℕ)
    → (c ≡ true → Data.to_u32 s ≤ v)
    → Data.to_u32 w ≤ v
    → Data.to_u32 (if c then s else w) ≤ v
bounded true s w v h k = h refl
bounded false s w v h k = k

-- And only then: a version under which nothing is cleared is at least that version.
covered-fits :
    (b : CodeDirectoryBlob)
    → 0x20000 ≤ b.version
    → clear_newer_fields b ≡ b
    → Data.to_u32 (fields_version b) ≤ b.version
unfolding clear_newer_fields Data.to_u32 fields_version
covered-fits b floor fixed = bounded _ supports_linkage _ b.version linkage (
    bounded _ supports_runtime _ b.version runtime (
      bounded _ supports_executable_segment _ b.version exec_seg (
        bounded _ supports_code_limit64 _ b.version limit (
          bounded _ supports_team_id _ b.version
            (keep-fixed b.version supports_team_id b.team_name (ap (λ c. c.team_name) fixed))
            (bounded _ supports_scatter _ b.version
              (keep-fixed b.version supports_scatter b.scatter_offset
                (ap (λ c. c.scatter_offset) fixed))
              floor)))))
  where
    limit : has_limit b ≡ true → 0x20300 ≤ b.version
    limit e = ground (
      arith,
      keep-fixed b.version supports_code_limit64 b.spare3 (ap (λ c. c.spare3) fixed),
      keep-fixed b.version supports_code_limit64 b.code_limit_64 (ap (λ c. c.code_limit_64) fixed),
    )

    exec_seg : has_exec_seg b ≡ true → 0x20400 ≤ b.version
    exec_seg e = ground (
      arith,
      keep-fixed b.version supports_executable_segment b.exec_seg_base
          (ap (λ c. c.exec_seg_base) fixed),
      keep-fixed b.version supports_executable_segment b.exec_seg_limit
          (ap (λ c. c.exec_seg_limit) fixed),
      keep-fixed b.version supports_executable_segment b.exec_seg_flags
          (ap (λ c. c.exec_seg_flags) fixed),
    )

    runtime : has_runtime b ≡ true → 0x20500 ≤ b.version
    runtime e = ground (
      arith,
      keep-fixed b.version supports_runtime b.runtime (ap (λ c. c.runtime) fixed),
      keep-fixed b.version supports_runtime b.pre_encrypt_offset
          (ap (λ c. c.pre_encrypt_offset) fixed),
    )

    linkage : has_linkage b ≡ true → 0x20600 ≤ b.version
    linkage e = ground (
      arith,
      keep-fixed b.version supports_linkage b.linkage_hash_type
          (ap (λ c. c.linkage_hash_type) fixed),
      keep-fixed b.version supports_linkage b.linkage_truncated
          (ap (λ c. c.linkage_truncated) fixed),
      keep-fixed b.version supports_linkage b.spare4 (ap (λ c. c.spare4) fixed),
      keep-fixed b.version supports_linkage b.linkage_offset (ap (λ c. c.linkage_offset) fixed),
      keep-fixed b.version supports_linkage b.linkage_size (ap (λ c. c.linkage_size) fixed),
    )

version_floor : (v : CodeDirectoryVersion) → 0x20000 ≤ Data.to_u32 v
unfolding Data.to_u32
version_floor initial = omega arith
version_floor supports_scatter = omega arith
version_floor supports_team_id = omega arith
version_floor supports_code_limit64 = omega arith
version_floor supports_executable_segment = omega arith
version_floor supports_runtime = omega arith
version_floor supports_linkage = omega arith

module _ {V : Type 0} (semver : Semver V) where
  -- The least version number that a target allows.
  unfoldable pub required : Option (MachoTarget V) → ℕ
  required none = 0x20000
  required (some target) = Data.to_u32 (target_version semver target)

  required_floor : (target : Option (MachoTarget V)) → 0x20000 ≤ required target
  unfolding required Data.to_u32
  required_floor none = ground arith
  required_floor (some target) = version_floor (target_version semver target)

  raised_version-max :
      (target : Option (MachoTarget V)) (w : CodeDirectoryVersion)
      → Data.to_u32 (raised_version semver target w) ≡ max (Data.to_u32 w) (required target)
  unfolding raised_version required
  raised_version-max none w = omega (arith, version_floor w)
  raised_version-max (some target) w = ground arith

  -- Whatever the target, after adjust_version clear_newer_fields changes nothing, so every field
  -- that is set belongs to the chosen version, the version is at least the one that the target
  -- requires, and the old version is returned.
  pub adjust_version_covers :
      (target : Option (MachoTarget V)) (b : CodeDirectoryBlob)
      → let (b', old_version) = adjust_version semver target b in
        (clear_newer_fields b' ≡ b') × (required target ≤ b'.version) × (old_version ≡ b.version)
  unfolding adjust_version
  adjust_version_covers target b =
      let e = raised_version-max target (fields_version b) in
      (fits-covered (adjust_version semver target b).0 (fields e), omega (arith, e), refl)
    where
      fields :
          Data.to_u32 (raised_version semver target (fields_version b))
            ≡ max (Data.to_u32 (fields_version b)) (required target)
          → Data.to_u32 (fields_version (adjust_version semver target b).0)
            ≤ (adjust_version semver target b).0.version
      fields e = unfold fields_version in omega (arith, e)

  -- The version that adjust_version chooses is the least one: it is at most every version that the
  -- target allows and under which clear_newer_fields would change nothing.
  pub adjust_version_least :
      (target : Option (MachoTarget V)) (b : CodeDirectoryBlob) (v : ℕ)
      → required target ≤ v
      → clear_newer_fields (record b { version = v }) ≡ record b { version = v }
      → (adjust_version semver target b).0.version ≤ v
  unfolding adjust_version fields_version
  adjust_version_least target b v h fixed = omega (
    arith,
    raised_version-max target (fields_version b),
    required_floor target,
    covered-fits (record b { version = v }) (omega (arith, required_floor target)) fixed,
  )
