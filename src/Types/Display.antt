-- ===== src/Types/Display.antt =====
-- types/mod.rs: the texts of `Display`. A sector and an index are shown as their numbers.
use zoned.Base.{String}
use zoned.Base.Text.Decimal.{show}
use zoned.Types.{
  Sector, ZoneIndex, ZoneType, conventional, sequential_write_required, sequential_write_preferred,
  ZoneCondition, not_write_pointer, empty, implicitly_open, explicitly_open, closed, read_only,
  full, offline, DeviceModel, unzoned, host_aware, host_managed,
}

abbrev pub sector_text : Sector → String
sector_text s = show s ""

abbrev pub index_text : ZoneIndex → String
index_text i = show i ""

unfoldable pub type_text : ZoneType → String
type_text conventional = "Conventional"
type_text sequential_write_required = "Sequential Write Required"
type_text sequential_write_preferred = "Sequential Write Preferred"

unfoldable pub condition_text : ZoneCondition → String
condition_text not_write_pointer = "Not Write Pointer"
condition_text empty = "Empty"
condition_text implicitly_open = "Implicitly Open"
condition_text explicitly_open = "Explicitly Open"
condition_text closed = "Closed"
condition_text read_only = "Read Only"
condition_text full = "Full"
condition_text offline = "Offline"

unfoldable pub model_text : DeviceModel → String
model_text unzoned = "none"
model_text host_aware = "host-aware"
model_text host_managed = "host-managed"
