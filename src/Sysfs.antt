-- ===== src/Sysfs.antt =====
-- sysfs.rs: the properties of a device. On Linux they are read from the attribute files of its block
-- device, on FreeBSD from its ioctls.
pub mod Scheduler
pub mod Required
use zoned.Base.{
  ℕ, suc, ◌+◌, ◌-◌, String, Bool, true, false, Option, none, some, ltb, ◌==◌, if◌then◌else◌,
  u32_mod, u64_mod,
}
use zoned.Base.Text.{push, parse_uint}
use zoned.Base.Text.Edit.{trim, text_eq, find_char, take_text, drop_text, file_name}
use zoned.Errors.{
  Io, Outcome, ok, err, panic, timeout, map_err, fail, return, ◌>>=◌, and_then, ZonedError, sysfs,
  sysfs_parse, device_not_found, unsupported_platform,
}
use zoned.Types.{DeviceModel, unzoned, host_aware, host_managed}
use zoned.Types.Properties.{
  DeviceIdentity, DeviceGeometry, DeviceLimits, BlockSizes, DeviceProperties,
}
use zoned.FileSystem.{Fs}
use zoned.Platform.Kernel.{for_reading}
use zoned.Platform.Freebsd
use zoned.Platform.Freebsd.Properties

-- Between the brackets, where the first closing one stands behind the first opening one.
between : String → Option ℕ → Option ℕ → Option String
between value (some start) (some end) =
    if ltb (start + 1) end
    then some (take_text (end - (start + 1)) (drop_text (start + 1) value))
    else none
between value _ _ = none

pub parse_active_scheduler : String → Option String
unfolding between
parse_active_scheduler value = between value (find_char 91 value) (find_char 93 value)

-- The `match` of `device_model`.
unfoldable pub model_of : String → DeviceModel
model_of value =
    if text_eq value "host-aware"
    then host_aware
    else if text_eq value "host-managed"
    then host_managed
    else unzoned

-- `Option::filter` on a positive number.
positive : Option ℕ → Option ℕ
positive none = none
positive (some n) = if ltb 0 n then some n else none

or_zero : Option ℕ → ℕ
or_zero none = 0
or_zero (some n) = n

then_scheduler : Option String → Option String
then_scheduler none = none
then_scheduler (some value) = parse_active_scheduler value

module _ {W : Type 0} (fs : Fs W) where
  -- The three readers differ in the directory, which comes behind the device's name.
  unfoldable pub read_attr : String → String → String → String → Io W ZonedError String
  read_attr directory path device_name attribute = do
    text ←
        map_err (sysfs path attribute)
          (fs.read_to_string (push "/sys/block/" (push device_name (push directory attribute))))
    return (trim text)

  pub parse_attr : ℕ → String → String → String → Io W ZonedError ℕ
  parse_attr limit path attribute value = elim (parse_uint limit value) [
    | none ↦ fail (sysfs_parse path attribute value)
    | some n ↦ return n
  ]

  -- `ok_or_else`.
  abbrev name_or_error : String → Option String → Io W ZonedError String
  name_or_error path none = fail (device_not_found path)
  name_or_error path (some name) = return name

  pub device_name_from_path : String → Io W ZonedError String
  device_name_from_path path = name_or_error path (file_name path)

  unfoldable pub device_model : String → Io W ZonedError DeviceModel
  unfolding device_name_from_path
  device_model path = do
    name ← device_name_from_path path
    value ← read_attr "/queue/" path name "zoned"
    return (model_of value)

  -- `.ok()`.
  settled : {A : Type 0} → Outcome ZonedError A × W → Outcome ZonedError (Option A) × W
  settled (ok a, w) = (ok (some a), w)
  settled (err e, w) = (ok none, w)
  settled (panic, w) = (panic, w)
  settled (timeout, w) = (timeout, w)

  pub optional : {A : Type 0} → Io W ZonedError A → Io W ZonedError (Option A)
  unfolding settled
  optional m w = settled (m w)

  unfoldable pub number : String → ℕ → String → String → String → Io W ZonedError ℕ
  unfolding parse_attr read_attr
  number directory limit path name attribute = do
    value ← read_attr directory path name attribute
    parse_attr limit path attribute value

  -- The rest of `device_properties`, whose reads are all optional.
  pub gather : String → String → DeviceModel → ℕ → ℕ → Io W ZonedError DeviceProperties
  unfolding optional or_zero positive then_scheduler
  gather path name model chunk_sectors nr_zones = do
    zone_append_max_bytes ← optional (number "/queue/" u64_mod path name "zone_append_max_bytes")
    max_open_zones ← optional (number "/queue/" u32_mod path name "max_open_zones")
    max_active_zones ← optional (number "/queue/" u32_mod path name "max_active_zones")
    logical_block_size ← optional (number "/queue/" u32_mod path name "logical_block_size")
    physical_block_size ← optional (number "/queue/" u32_mod path name "physical_block_size")
    max_hw_sectors_kb ← optional (number "/queue/" u32_mod path name "max_hw_sectors_kb")
    max_sectors_kb ← optional (number "/queue/" u32_mod path name "max_sectors_kb")
    capacity_sectors ← optional (number "/" u64_mod path name "size")
    scheduler ← optional (read_attr "/queue/" path name "scheduler")
    vendor ← optional (read_attr "/device/" path name "vendor")
    model_name ← optional (read_attr "/device/" path name "model")
    return (record {
      model = model;
      identity = record { vendor = vendor; model_name = model_name };
      geometry = record {
        chunk_sectors = chunk_sectors;
        nr_zones = nr_zones;
        capacity_sectors = or_zero capacity_sectors;
      };
      limits = record {
        zone_append_max_bytes = or_zero zone_append_max_bytes;
        max_open_zones = positive max_open_zones;
        max_active_zones = positive max_active_zones;
        max_hw_sectors_kb = or_zero max_hw_sectors_kb;
        max_sectors_kb = or_zero max_sectors_kb;
      };
      block_sizes = record {
        logical_block_size = or_zero logical_block_size;
        physical_block_size = or_zero physical_block_size;
      };
      scheduler = then_scheduler scheduler;
    })

  pub device_properties : String → Io W ZonedError DeviceProperties
  unfolding device_name_from_path
  device_properties path = do
    name ← device_name_from_path path
    model ← device_model path
    chunk_sectors ← number "/queue/" u32_mod path name "chunk_sectors"
    nr_zones ← number "/queue/" u32_mod path name "nr_zones"
    gather path name model chunk_sectors nr_zones

-- On FreeBSD, the two functions ask the platform behind an open.
module _ {W : Type 0} (ioctls : Freebsd.Ioctls W) where
  pub freebsd_device_model : String → Io W ZonedError DeviceModel
  freebsd_device_model path = do
    dev ← Freebsd.open_file ioctls path for_reading false
    Freebsd.device_model ioctls dev

  pub freebsd_device_properties : String → Io W ZonedError DeviceProperties
  freebsd_device_properties path = do
    dev ← Freebsd.open_file ioctls path for_reading false
    Properties.device_properties ioctls dev

-- Elsewhere, there is nothing to ask.
pub unsupported_device_model : {W : Type 0} → String → Io W ZonedError DeviceModel
unsupported_device_model path = fail unsupported_platform

pub unsupported_device_properties : {W : Type 0} → String → Io W ZonedError DeviceProperties
unsupported_device_properties path = fail unsupported_platform
