-- ===== src/Examples/Listing.antt =====
-- `cmd_list` of the two programs: the table of zones and the count of those that are free.
pub mod Complete
use zoned.Base.{
  ℕ, zero, suc, String, Option, none, some, List, [], ◌∷◌, ◌++◌, sub_u64, length, ◌%◌, u32_mod,
}
use zoned.Errors.{ok, err, panic, timeout, return, ◌>>=◌, and_then}
use zoned.Types.{
  Sector, Zone, ZoneType, conventional, sequential_write_required, sequential_write_preferred,
  ZoneCondition, empty, DeviceInfo,
}
use zoned.Types.Filter
use zoned.Types.Filter.{ZoneFilter}
use zoned.Device
use zoned.Device.{ZonedDevice, Zio}
use zoned.Device.Iter
use zoned.Device.Iter.{ZoneIterator, for_each, next}
use zoned.Device.Builder
use zoned.Device.Builder.{Validate, Opener, open_device}
use zoned.Async.{Runtime}
use zoned.Async.Device as AsyncDevice
use zoned.Examples.{Command, passes}

-- A line of the table.
pub record Row : Type 0 where
  pub index : ℕ
  pub type_str : String
  pub condition : ZoneCondition
  pub used : Sector
  pub capacity : Sector

-- What is printed: the device's info, the table and the count.
pub record Listing : Type 0 where
  pub info : DeviceInfo
  pub rows : List Row
  pub empty_seq : ℕ

abbrev pub type_str : ZoneType → String
type_str conventional = "conv"
type_str sequential_write_required = "seq-req"
type_str sequential_write_preferred = "seq-pref"

abbrev pub used : Option Sector → Sector → Sector
used (some wp) start = sub_u64 wp start
used none start = 0

abbrev pub row : ℕ → Zone → Row
row idx zone = record {
  index = idx;
  type_str = type_str zone.zone_type;
  condition = zone.condition;
  used = used zone.write_pointer zone.start;
  capacity = zone.capacity;
}

abbrev pub rows_from : ℕ → List Zone → List Row
rows_from idx [] = []
rows_from idx (zone ∷ zones) = row idx zone ∷ rows_from (suc idx) zones

unfoldable pub empty_required : ZoneFilter
empty_required = Filter.condition (Filter.zone_type Filter.new sequential_write_required) empty

-- The `for` over the iterator of zone_store.rs, beside the indices of `0u32..`.
pub row_loop : {W : Type 0} → ℕ → ZoneIterator W → ℕ → List Row → Zio W (List Row)
row_loop zero it idx rows w = (timeout, w)
row_loop (suc fuel) it idx rows w =
    for_each (λ it' zone. row_loop fuel it' (suc idx % u32_mod) (rows ++ row idx zone ∷ [])) rows
      (next it w)

-- `cmd_list` of zone_store.rs, from the device on.
pub list_zones : {W : Type 0} → ℕ → ZonedDevice W → Zio W Listing
list_zones fuel d = do
  info ← Device.device_info d
  rows ← row_loop fuel (Iter.zone_iter d 256) 0 []
  empty_seq ← Iter.report_zones_filtered fuel d empty_required 512
  return (record { info = info; rows = rows; empty_seq = length empty_seq })

-- The same of zone_store_async.rs.
pub list_zones_async : {W : Type 0} → Runtime → ℕ → AsyncDevice.AsyncZonedDevice W → Zio W Listing
list_zones_async rt fuel d = do
  info ← AsyncDevice.device_info d
  zones ← AsyncDevice.report_all_zones rt d 256
  empty_seq ← AsyncDevice.report_zones_filtered rt fuel d empty_required 512
  return (record { info = info; rows = rows_from 0 zones; empty_seq = length empty_seq })

pub cmd_list : {W : Type 0} → Validate W → Opener W → ℕ → String → Command W Listing
cmd_list validate opener fuel device = do
  dev ← passes (open_device validate opener (Builder.validate_all (Builder.new device)))
  passes (list_zones fuel dev)

pub cmd_list_async : {W : Type 0} → Runtime → Opener W → ℕ → String → Command W Listing
cmd_list_async rt opener fuel device = do
  dev ← passes (AsyncDevice.open_path rt opener device)
  passes (list_zones_async rt fuel dev)
