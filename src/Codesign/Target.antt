-- ===== src/Codesign/Target.antt =====
-- `Platform` and `MachoTarget` of macho.rs.
use apple_platform_rs.Base.{ℕ, ◌==◌, if◌then◌else◌, ◌≡◌, arith, Bool}

pub data Platform : Type 0 where
  mac_os i_os tv_os watch_os bridge_os mac_catalyst : Platform
  ios_simulator tv_os_simulator watch_os_simulator driver_kit : Platform
  unknown : ℕ → Platform

unfoldable pub from_u32 : ℕ → Platform
from_u32 v =
    if v == 1
    then mac_os
    else if v == 2
    then i_os
    else if v == 3
    then tv_os
    else if v == 4
    then watch_os
    else if v == 5
    then bridge_os
    else if v == 6
    then mac_catalyst
    else if v == 7
    then ios_simulator
    else if v == 8
    then tv_os_simulator
    else if v == 9
    then watch_os_simulator
    else if v == 10
    then driver_kit
    else unknown v

unfoldable pub to_u32 : Platform → ℕ
to_u32 mac_os = 1
to_u32 i_os = 2
to_u32 tv_os = 3
to_u32 watch_os = 4
to_u32 bridge_os = 5
to_u32 mac_catalyst = 6
to_u32 ios_simulator = 7
to_u32 tv_os_simulator = 8
to_u32 watch_os_simulator = 9
to_u32 driver_kit = 10
to_u32 (unknown v) = v

pub to_u32-from_u32 : (v : ℕ) → to_u32 (from_u32 v) ≡ v
unfolding to_u32 from_u32
to_u32-from_u32 v = ground arith

-- `V` is `semver::Version`.
pub record MachoTarget (V : Type 0) : Type 0 where
  pub platform : Platform
  pub minimum_os_version : V
  pub sdk_version : V

-- What is used of `semver::Version`: `Version::new(major, minor, patch)` and `>=`.
pub record Semver (V : Type 0) : Type 0 where
  pub new : ℕ → ℕ → ℕ → V
  pub ge : V → V → Bool
