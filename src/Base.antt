-- ===== src/Base.antt =====
-- The names that the other modules share: the libraries', passed on, and those of the children.
pub mod Tests
pub mod Lists
pub mod Fallible
pub mod Postcondition
pub mod Int
pub mod Buffer
pub mod Gread
pub mod Utf8
pub mod Compare
pub use Tests.*
pub use Lists.*
pub use Fallible.*
pub use Postcondition.*
pub use Int.*
pub use Buffer.*
unfoldable pub use apple_platform_rs.Base.Buffer.{
  u32_bytes, u64_bytes, pread_u32, pread_u64, slice, slice_from,
}
unfoldable pub use apple_platform_rs.Base.Int.{
  i32_pattern, i32_of_pattern, i64_pattern, i64_of_pattern,
}
unfoldable pub use apple_platform_rs.Base.Compare.{same, contains}
pub use apple_platform_rs.Base.Compare.{same_refl, same_sound, same_distinct}
unfoldable pub use apple_platform_rs.Base.Utf8.{is_utf8, from_utf8_lossy}
pub use apple_platform_rs.Base.Utf8.{is_utf8-ascii, from_utf8_lossy-utf8}
pub use apple_platform_rs.Base.Buffer.Reads.{
  pread_u32-Ends, pread_u64-Ends, slice_from-Ends, slice-Ends, pread_u32-Ends_any, slice-Ends_any,
  slice_from-Ends_any,
}
pub use Prim.Native.Nat.{ℕ, zero, suc, ◌+◌, ◌-◌, ◌*◌, ◌/◌, ◌%◌, ◌^◌, ◌≤◌, ◌<◌, min, max}
pub use Prim.Native.String.{String}
pub use mathlib.Core.Path.{◌≡◌, refl, sym, ap, ap₂, ◌∙◌, subst, ◌≡⟨◌⟩◌, ◌∎}
pub use mathlib.Core.Logic.{◌≢◌, ◌↔◌, ◌⊎◌, inl, inr}
pub use mathlib.Core.Bool.{Bool, true, false, ◌&&◌, ◌||◌, not}
pub use mathlib.Core.Option.{Option, none, some}
pub use mathlib.Core.List.{List, [], ◌∷◌, ◌++◌, map, append_assoc, append-nil}
pub use native.Mathlib.Omega.{arith}
unfoldable pub use native.Mathlib.Decide.{dec_lt, ℕ_discrete}
