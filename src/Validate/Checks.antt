-- ===== src/Validate/Checks.antt =====
-- validate/mod.rs: the check that a device is zoned, the mount check of FreeBSD, and the functions of
-- the module for each system, as the builder calls them.
pub mod Safe
use zoned.Base.{ℕ, String, Bool, List, [], ◌∷◌, take, if◌then◌else◌, ℤ, pos, negsuc}
use zoned.Base.Text.Edit.{text_eq}
use zoned.Errors.{
  Io, Outcome, ok, err, map_err, fail, return, ◌>>=◌, and_then, ZonedError, io, not_zoned,
  device_mounted, unsupported_platform,
}
use zoned.Types.{DeviceModel, unzoned, host_aware, host_managed}
use zoned.FileSystem.{Fs}
use zoned.Platform.Freebsd.{Ioctls}
use zoned.Sysfs.{device_model, freebsd_device_model}
use zoned.Device.Builder.{Validate}
use zoned.Validate.{is_block_device, is_not_mounted}
use zoned.Validate.Partitions.{has_no_partitions, has_no_device_nodes}

-- `getfsstat`: without a buffer it counts the file systems; with room for a number of them it gives
-- the device and the mount point of each, behind the number that it filled in.
pub record Getfsstat (W : Type 0) : Type 0 where
  pub count : W → ℤ × W
  pub fill : ℕ → W → (ℤ × List (String × String)) × W

-- The end of `is_zoned_device`.
abbrev pub zoned_or_error : {W : Type 0} → String → DeviceModel → Io W ZonedError (Unit {0})
zoned_or_error path unzoned = fail (not_zoned path)
zoned_or_error path host_aware = return tt
zoned_or_error path host_managed = return tt

-- `model` is `sysfs::device_model`.
unfoldable pub is_zoned_device :
    {W : Type 0} → (String → Io W ZonedError DeviceModel) → String → Io W ZonedError (Unit {0})
is_zoned_device model path = do m ← model path; zoned_or_error path m

-- The `for` over the mounted file systems.
pub mounted_from :
    {W : Type 0} → String → String → List (String × String) → Io W ZonedError (Unit {0})
mounted_from path dev_path [] = return tt
mounted_from path dev_path ((from, on) ∷ entries) =
    let rest = mounted_from path dev_path entries in
    if text_eq from dev_path then fail (device_mounted path on) else rest

module _ {W : Type 0} (fs : Fs W) (getfsstat : Getfsstat W) where
  -- A negative number is an error, and counts as not mounted.
  filled_entries :
      String → String → (ℤ × List (String × String)) × W → Outcome ZonedError (Unit {0}) × W
  filled_entries path dev_path ((pos filled, entries), w) =
      mounted_from path dev_path (take filled entries) w
  filled_entries path dev_path ((negsuc n, entries), w) = (ok tt, w)

  counted : String → String → ℤ × W → Outcome ZonedError (Unit {0}) × W
  unfolding filled_entries
  counted path dev_path (pos count, w) = filled_entries path dev_path (getfsstat.fill count w)
  counted path dev_path (negsuc n, w) = (ok tt, w)

  pub is_not_mounted_freebsd : String → Io W ZonedError (Unit {0})
  unfolding counted
  is_not_mounted_freebsd path = do
    dev_path ← map_err (io path) (fs.canonicalize path)
    λ w. counted path dev_path (getfsstat.count w)

-- The functions of the module, compiled for a system.
unfoldable pub linux_checks : {W : Type 0} → Fs W → Validate W
linux_checks fs = record {
  is_block_device = is_block_device fs;
  is_not_mounted = is_not_mounted fs;
  has_no_partitions = has_no_partitions fs;
  is_zoned_device = is_zoned_device (device_model fs);
}

pub freebsd_checks : {W : Type 0} → Fs W → Getfsstat W → Ioctls W → Validate W
freebsd_checks fs getfsstat ioctls = record {
  is_block_device = is_block_device fs;
  is_not_mounted = is_not_mounted_freebsd fs getfsstat;
  has_no_partitions = has_no_device_nodes fs;
  is_zoned_device = is_zoned_device (freebsd_device_model ioctls);
}

pub other_checks : {W : Type 0} → Fs W → Validate W
other_checks fs = record {
  is_block_device = is_block_device fs;
  is_not_mounted = λ path. return tt;
  has_no_partitions = λ path. return tt;
  is_zoned_device = λ path. fail unsupported_platform;
}
