-- ===== src/Types.antt =====
-- types/mod.rs: sectors, zones and what the crate reports about a device.
pub mod Filter
pub mod Bounds
pub mod Properties
pub mod Display
use zoned.Base.{
  ℕ, ◌/◌, ◌%◌, String, Bool, true, false, Option, none, some, ◌==◌, if◌then◌else◌, add_u64, sub_u64,
  mul_u64,
}

-- The newtypes `Sector(u64)` and `ZoneIndex(u32)` are their numbers.
abbrev pub Sector : Type 0
Sector = ℕ

abbrev pub ZoneIndex : Type 0
ZoneIndex = ℕ

abbrev pub sector_size : ℕ
sector_size = 512

unfoldable pub to_bytes : Sector → ℕ
to_bytes s = mul_u64 s sector_size

unfoldable pub from_bytes : ℕ → Option Sector
from_bytes bytes = if bytes % sector_size == 0 then some (bytes / sector_size) else none

pub data ZoneType : Type 0 where
  conventional sequential_write_required sequential_write_preferred : ZoneType

pub data ZoneCondition : Type 0 where
  not_write_pointer empty implicitly_open explicitly_open closed read_only full offline :
      ZoneCondition

pub record Zone : Type 0 where
  pub start : Sector
  pub len : Sector
  pub capacity : Sector
  pub write_pointer : Option Sector
  pub zone_type : ZoneType
  pub condition : ZoneCondition
  pub non_seq : Bool
  pub reset_recommended : Bool

pub record DeviceInfo : Type 0 where
  pub zone_size : Sector
  pub nr_zones : ℕ

pub data DeviceModel : Type 0 where
  unzoned host_aware host_managed : DeviceModel

-- `==` on the enums, which derive it.
abbrev pub type_eq : ZoneType → ZoneType → Bool
type_eq conventional conventional = true
type_eq sequential_write_required sequential_write_required = true
type_eq sequential_write_preferred sequential_write_preferred = true
type_eq _ _ = false

abbrev pub condition_eq : ZoneCondition → ZoneCondition → Bool
condition_eq not_write_pointer not_write_pointer = true
condition_eq empty empty = true
condition_eq implicitly_open implicitly_open = true
condition_eq explicitly_open explicitly_open = true
condition_eq closed closed = true
condition_eq read_only read_only = true
condition_eq full full = true
condition_eq offline offline = true
condition_eq _ _ = false

-- `start + len`, the sector behind a zone.
abbrev pub end_of : Zone → Sector
end_of z = add_u64 z.start z.len

capacity_left : Option Sector → Sector → Sector → Sector
capacity_left (some wp) start capacity = sub_u64 capacity (sub_u64 wp start)
capacity_left none start capacity = capacity

unfoldable pub remaining_capacity : Zone → Sector
unfolding capacity_left
remaining_capacity z = capacity_left z.write_pointer z.start z.capacity

abbrev sequential_type : ZoneType → Bool
sequential_type sequential_write_required = true
sequential_type sequential_write_preferred = true
sequential_type conventional = false

unfoldable pub is_sequential : Zone → Bool
is_sequential z = sequential_type z.zone_type

unfoldable pub is_conventional : Zone → Bool
is_conventional z = type_eq z.zone_type conventional

abbrev writable_condition : ZoneCondition → Bool
writable_condition read_only = false
writable_condition full = false
writable_condition offline = false
writable_condition _ = true

unfoldable pub is_writable : Zone → Bool
is_writable z = writable_condition z.condition

unfoldable pub is_empty : Zone → Bool
is_empty z = condition_eq z.condition empty

unfoldable pub is_full : Zone → Bool
is_full z = condition_eq z.condition full
