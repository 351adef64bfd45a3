-- ===== src/Async/Device.antt =====
-- async_api/device.rs: the device whose calls run on the threads of a runtime.
use zoned.Base.{ℕ, String, Bool, List, take, replicate}
use zoned.Errors.{return, ◌>>=◌}
use zoned.Types.{Sector, Zone, ZoneIndex, DeviceInfo}
use zoned.Types.Filter.{ZoneFilter}
use zoned.Device
use zoned.Device.{ZonedDevice, Zio}
use zoned.Device.Iter
use zoned.Device.Builder
use zoned.Device.Builder.{Opener, DeviceBuilder}
use zoned.Handle
use zoned.Async.{Runtime, spawn_blocking}
use zoned.Async.Handle.{AsyncZoneHandle, new}

pub record AsyncZonedDevice (W : Type 0) : Type 0 where
  pub inner : ZonedDevice W

-- `from_sync` and `from_arc`: what is behind the `Arc` does not change.
abbrev pub from_sync : {W : Type 0} → ZonedDevice W → AsyncZonedDevice W
from_sync device = record { inner = device }

abbrev pub builder : String → DeviceBuilder
builder path = Builder.new path

module _ {W : Type 0} where
  unfoldable pub device_info : AsyncZonedDevice W → Zio W DeviceInfo
  device_info d = Device.device_info d.inner

  abbrev pub path : AsyncZonedDevice W → String
  path d = Device.path d.inner

  abbrev pub is_writable : AsyncZonedDevice W → Bool
  is_writable d = Device.is_writable d.inner

  -- The closure of `read_at`, which cuts its buffer to what was read.
  unfoldable pub read_block : ZonedDevice W → Sector → ℕ → Zio W (List ℕ)
  read_block d sector_offset len = do
    r ← Device.read_at d sector_offset (replicate len 0)
    return (take r.0 r.1)

module _ (rt : Runtime) {W : Type 0} where
  -- The three ways to open a device.
  open_with : (String → Zio W (ZonedDevice W)) → String → Zio W (AsyncZonedDevice W)
  open_with f path = do dev ← spawn_blocking rt (f path); return (from_sync dev)

  unfoldable pub open_path : Opener W → String → Zio W (AsyncZonedDevice W)
  unfolding open_with
  open_path opener = open_with opener.open_path

  unfoldable pub open_writable : Opener W → String → Zio W (AsyncZonedDevice W)
  unfolding open_with
  open_writable opener = open_with opener.open_writable

  pub open_direct : Opener W → String → Zio W (AsyncZonedDevice W)
  unfolding open_with
  open_direct opener = open_with opener.open_direct

  pub report_zones : AsyncZonedDevice W → Sector → ℕ → Zio W (List Zone)
  report_zones d sector max_zones = spawn_blocking rt (Device.report_zones d.inner sector max_zones)

  unfoldable pub report_all_zones : AsyncZonedDevice W → ℕ → Zio W (List Zone)
  report_all_zones d batch_size = spawn_blocking rt (Device.report_all_zones d.inner batch_size)

  -- The fuel is that of the filtered report.
  unfoldable pub report_zones_filtered : ℕ → AsyncZonedDevice W → ZoneFilter → ℕ → Zio W (List Zone)
  report_zones_filtered fuel d filter batch_size =
      spawn_blocking rt (Iter.report_zones_filtered fuel d.inner filter batch_size)

  pub write_at : AsyncZonedDevice W → Sector → List ℕ → Zio W ℕ
  write_at d sector_offset buf = spawn_blocking rt (Device.write_at d.inner sector_offset buf)

  unfoldable pub write_all_at : AsyncZonedDevice W → Sector → List ℕ → Zio W (Unit {0})
  write_all_at d sector_offset buf =
      spawn_blocking rt (Device.write_all_at d.inner sector_offset buf)

  unfoldable pub read_at : AsyncZonedDevice W → Sector → ℕ → Zio W (List ℕ)
  read_at d sector_offset len = spawn_blocking rt (read_block d.inner sector_offset len)

  pub reset_zones : AsyncZonedDevice W → Sector → Sector → Zio W (Unit {0})
  reset_zones d sector nr_sectors = spawn_blocking rt (Device.reset_zones d.inner sector nr_sectors)

  pub open_zones : AsyncZonedDevice W → Sector → Sector → Zio W (Unit {0})
  open_zones d sector nr_sectors = spawn_blocking rt (Device.open_zones d.inner sector nr_sectors)

  pub close_zones : AsyncZonedDevice W → Sector → Sector → Zio W (Unit {0})
  close_zones d sector nr_sectors = spawn_blocking rt (Device.close_zones d.inner sector nr_sectors)

  pub finish_zones : AsyncZonedDevice W → Sector → Sector → Zio W (Unit {0})
  finish_zones d sector nr_sectors =
      spawn_blocking rt (Device.finish_zones d.inner sector nr_sectors)

  pub fsync : AsyncZonedDevice W → Zio W (Unit {0})
  fsync d = spawn_blocking rt (Device.fsync d.inner)

  unfoldable pub zone_handle : AsyncZonedDevice W → ZoneIndex → Zio W (AsyncZoneHandle W)
  zone_handle d zone_index = do
    handle ← spawn_blocking rt (Handle.new d.inner zone_index)
    return (new handle)
