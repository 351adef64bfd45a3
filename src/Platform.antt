-- ===== src/Platform.antt =====
-- platform/mod.rs: the operations that a platform's `PlatformDevice` offers to the rest of the crate.
-- The crate is compiled against one platform; here the platform is a value.
pub mod Kernel
pub mod Files
pub mod Linux
pub mod Storage
pub mod Writes
pub mod Freebsd
use zoned.Base.{ℕ, String, Bool, false, List}
use zoned.Errors.{Io, fail, ZonedError, unsupported_platform}
use zoned.Types.{Sector, Zone, DeviceInfo}

pub record PlatformDevice (W : Type 0) : Type 0 where
  pub path : String
  pub is_writable : Bool
  pub device_info : Io W ZonedError DeviceInfo
  pub report_zones : Sector → ℕ → Io W ZonedError (List Zone)
  pub reset_zones : Sector → Sector → Io W ZonedError (Unit {0})
  pub open_zones : Sector → Sector → Io W ZonedError (Unit {0})
  pub close_zones : Sector → Sector → Io W ZonedError (Unit {0})
  pub finish_zones : Sector → Sector → Io W ZonedError (Unit {0})
  pub fsync : Io W ZonedError (Unit {0})
  -- A buffer and a byte offset give the count of bytes written.
  pub write_at : List ℕ → ℕ → Io W ZonedError ℕ
  pub writev_at : List (List ℕ) → ℕ → Io W ZonedError ℕ
  -- A read gives the count and the buffer as the call leaves it.
  pub read_at : List ℕ → ℕ → Io W ZonedError (ℕ × List ℕ)
  pub readv_at : List (List ℕ) → ℕ → Io W ZonedError (ℕ × List (List ℕ))

-- The fallback of a platform that is neither Linux nor FreeBSD.
pub unsupported_device : {W : Type 0} → PlatformDevice W
unsupported_device = record {
  path = "";
  is_writable = false;
  device_info = fail unsupported_platform;
  report_zones = λ _ _. fail unsupported_platform;
  reset_zones = λ _ _. fail unsupported_platform;
  open_zones = λ _ _. fail unsupported_platform;
  close_zones = λ _ _. fail unsupported_platform;
  finish_zones = λ _ _. fail unsupported_platform;
  fsync = fail unsupported_platform;
  write_at = λ _ _. fail unsupported_platform;
  writev_at = λ _ _. fail unsupported_platform;
  read_at = λ _ _. fail unsupported_platform;
  readv_at = λ _ _. fail unsupported_platform;
}
