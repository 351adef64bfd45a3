-- ===== src/Device/Builder.antt =====
-- device/builder.rs: the options of an open, and the checks that run before it.
pub mod Order
use zoned.Base.{String, Bool, true, false, if◌then◌else◌}
use zoned.Errors.{Io, return, ◌>>◌, ◌>>=◌, and_then, ZonedError}
use zoned.Device.{ZonedDevice}
use zoned.Platform.{PlatformDevice}

-- The functions of validate/mod.rs and the ways to open a device, on a path.
pub record Validate (W : Type 0) : Type 0 where
  pub is_block_device : String → Io W ZonedError (Unit {0})
  pub is_not_mounted : String → Io W ZonedError (Unit {0})
  pub has_no_partitions : String → Io W ZonedError (Unit {0})
  pub is_zoned_device : String → Io W ZonedError (Unit {0})

pub record Opener (W : Type 0) : Type 0 where
  pub open_path : String → Io W ZonedError (ZonedDevice W)
  pub open_writable : String → Io W ZonedError (ZonedDevice W)
  pub open_direct : String → Io W ZonedError (ZonedDevice W)

-- `ZonedDevice::open`, `open_writable` and `open_direct`, over those of the platform.
abbrev wrapped : {W : Type 0} → Io W ZonedError (PlatformDevice W) → Io W ZonedError (ZonedDevice W)
wrapped opened = do inner ← opened; return (record { inner = inner })

unfoldable pub platform_opener :
    {W : Type 0}
    → (open_path open_writable open_direct : String → Io W ZonedError (PlatformDevice W)) → Opener W
platform_opener open_path open_writable open_direct = record {
  open_path = λ path. wrapped (open_path path);
  open_writable = λ path. wrapped (open_writable path);
  open_direct = λ path. wrapped (open_direct path);
}

pub record DeviceBuilder : Type 0 where
  pub path : String
  pub is_writable : Bool
  pub is_direct_io : Bool
  pub check_block_device : Bool
  pub check_not_mounted : Bool
  pub check_no_partitions : Bool
  pub check_is_zoned : Bool

-- `ZonedDevice::builder` is this.
unfoldable pub new : String → DeviceBuilder
new path = record {
  path = path;
  is_writable = false;
  is_direct_io = false;
  check_block_device = false;
  check_not_mounted = false;
  check_no_partitions = false;
  check_is_zoned = false;
}

pub writable : DeviceBuilder → DeviceBuilder
writable b = record b { is_writable = true }

pub direct_io : DeviceBuilder → DeviceBuilder
direct_io b = record b { is_direct_io = true; is_writable = true }

pub validate_block_device : DeviceBuilder → DeviceBuilder
validate_block_device b = record b { check_block_device = true }

pub validate_not_mounted : DeviceBuilder → DeviceBuilder
validate_not_mounted b = record b { check_not_mounted = true }

pub validate_no_partitions : DeviceBuilder → DeviceBuilder
validate_no_partitions b = record b { check_no_partitions = true }

pub validate_is_zoned : DeviceBuilder → DeviceBuilder
validate_is_zoned b = record b { check_is_zoned = true }

unfoldable pub validate_all : DeviceBuilder → DeviceBuilder
validate_all b = record b {
  check_block_device = true;
  check_not_mounted = true;
  check_no_partitions = true;
  check_is_zoned = true;
}

module _ {W : Type 0} (validate : Validate W) (opener : Opener W) where
  -- `if flag { check? }`.
  abbrev pub when : Bool → Io W ZonedError (Unit {0}) → Io W ZonedError (Unit {0})
  when flag check = if flag then check else return tt

  abbrev pub open_in_mode : DeviceBuilder → Io W ZonedError (ZonedDevice W)
  open_in_mode b =
      if b.is_direct_io
      then opener.open_direct b.path
      else if b.is_writable
      then opener.open_writable b.path
      else opener.open_path b.path

  unfoldable pub open_device : DeviceBuilder → Io W ZonedError (ZonedDevice W)
  open_device b = do
    when b.check_block_device (validate.is_block_device b.path)
    when b.check_not_mounted (validate.is_not_mounted b.path)
    when b.check_no_partitions (validate.has_no_partitions b.path)
    when b.check_is_zoned (validate.is_zoned_device b.path)
    open_in_mode b
