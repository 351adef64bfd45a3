-- ===== src/Examples/Zcli/Table.antt =====
-- `run_zones` and `run_report` of examples/zcli.rs: tables of zones.

pub mod Rows
use zoned.Base.{ℕ, ◌-◌, min, String, Option, none, some, List, take, length, mul_u64}
use zoned.Errors.{return, ◌>>=◌, and_then}
use zoned.Types.{Sector, Zone}
use zoned.Types.Filter
use zoned.Types.Filter.{ZoneFilter}
use zoned.Device
use zoned.Device.{ZonedDevice, Zio}
use zoned.Device.Iter
use zoned.Device.Builder
use zoned.Device.Builder.{Validate, Opener, open_device}
use zoned.Examples.Zcli.{Cio, passes, ZoneRow, zone_rows}
use zoned.Examples.Zcli.Arguments.{ZoneTypeArg, to_zone_type, ZoneCondArg, to_zone_condition}

-- What `run_zones` prints: the counts, the rows that it shows, and how many more there are.
pub record ZoneTable : Type 0 where
  pub matching : ℕ
  pub display_count : ℕ
  pub rows : List ZoneRow
  pub not_shown : ℕ

-- What `run_report` prints.
pub record ReportTable : Type 0 where
  pub start_sector : Sector
  pub max_zones : ℕ
  pub returned : ℕ
  pub rows : List ZoneRow

abbrev with_type : Option ZoneTypeArg → ZoneFilter → ZoneFilter
with_type none f = f
with_type (some zt) f = Filter.zone_type f (to_zone_type zt)

abbrev with_condition : Option ZoneCondArg → ZoneFilter → ZoneFilter
with_condition none f = f
with_condition (some cond) f = Filter.condition f (to_zone_condition cond)

abbrev pub filter_of : Option ZoneTypeArg → Option ZoneCondArg → ZoneFilter
filter_of zone_type condition = with_condition condition (with_type zone_type Filter.new)

-- `count.unwrap_or(zones.len()).min(zones.len())`.
abbrev pub shown : Option ℕ → ℕ → ℕ
shown none len = min len len
shown (some count) len = min count len

module _ {W : Type 0} where
  -- `run_zones` from the device on.
  pub show_zones :
      ℕ → ZonedDevice W → Option ZoneTypeArg → Option ZoneCondArg → Option ℕ → ℕ → Zio W ZoneTable
  show_zones fuel d zone_type condition count batch_size = do
    zones ← Iter.report_zones_filtered fuel d (filter_of zone_type condition) batch_size
    info ← Device.device_info d
    return (record {
      matching = length zones;
      display_count = shown count (length zones);
      rows = zone_rows info.zone_size (take (shown count (length zones)) zones);
      not_shown = length zones - shown count (length zones);
    })

  -- `run_report` from the device on.
  pub show_report : ZonedDevice W → ℕ → ℕ → Zio W ReportTable
  show_report d start_zone max_zones = do
    info ← Device.device_info d
    let start_sector : Sector = mul_u64 info.zone_size start_zone
    zones ← Device.report_zones d start_sector max_zones
    return (record {
      start_sector = start_sector;
      max_zones = max_zones;
      returned = length zones;
      rows = zone_rows info.zone_size zones;
    })

  module _ (validate : Validate W) (opener : Opener W) where
    pub run_zones :
        ℕ → String → Option ZoneTypeArg → Option ZoneCondArg → Option ℕ → ℕ → Cio W ZoneTable
    run_zones fuel path zone_type condition count batch_size = do
      dev ← passes (open_device validate opener (Builder.validate_all (Builder.new path)))
      passes (show_zones fuel dev zone_type condition count batch_size)

    pub run_report : String → ℕ → ℕ → Cio W ReportTable
    run_report path start_zone max_zones = do
      dev ← passes (open_device validate opener (Builder.validate_all (Builder.new path)))
      passes (show_report dev start_zone max_zones)
