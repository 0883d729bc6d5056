-- ===== src/Codesign/Requirement/Chrono.antt =====
-- What the requirement code uses of the chrono crate.
use apple_platform_rs.Base.{ℤ, IsI64, Option, some, ◌≡◌}

-- `T` is `chrono::DateTime<Utc>`. `timestamp_opt v` is `Utc.timestamp_opt(v, 0).single()`, the instant
-- that many seconds after the epoch if it is representable; `timestamp` gives the whole seconds of
-- an instant, an i64.
pub record Chrono (T : Type 0) : Type 0 where
  pub timestamp_opt : ℤ → Option T
  pub timestamp : T → ℤ
  pub timestamp-timestamp_opt : (v : ℤ) {t : T} → timestamp_opt v ≡ some t → timestamp t ≡ v
  pub timestamp-IsI64 : (t : T) → IsI64 (timestamp t)
