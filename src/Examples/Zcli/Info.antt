-- ===== src/Examples/Zcli/Info.antt =====
-- `run_info` of examples/zcli.rs: the census of the zones over the iterator.
pub mod Counted
use zoned.Base.{
  ℕ, zero, suc, ◌+◌, ◌-◌, ◌%◌, ◌/◌, String, Bool, true, false, Option, none, some, List, [], ◌∷◌,
  ◌++◌, ltb, if◌then◌else◌, u32_mod, add_u64, sub_u64,
}
use zoned.Errors.{Io, timeout, return, ZonedError, ◌>>=◌, and_then}
use zoned.Types.{
  Sector, Zone, ZoneType, conventional, sequential_write_required, sequential_write_preferred,
  ZoneCondition, not_write_pointer, empty, implicitly_open, explicitly_open, closed, read_only,
  full, offline, condition_eq, DeviceInfo,
}
use zoned.Types.Properties.{DeviceProperties}
use zoned.Device
use zoned.Device.{ZonedDevice, Zio}
use zoned.Device.Iter
use zoned.Device.Iter.{ZoneIterator, next, for_each}
use zoned.Device.Builder
use zoned.Device.Builder.{Validate, Opener, open_device}
use zoned.Examples.Zcli.{Cio, passes, attempt, ZoneRow, zone_row}

-- The variables of the loop. The map of counts is a function that is 0 where there is no entry.
pub record Census : Type 0 where
  pub cond_counts : ZoneCondition → ℕ
  pub total_capacity : Sector
  pub total_len : Sector
  pub conventional_count : ℕ
  pub seq_required_count : ℕ
  pub seq_preferred_count : ℕ
  pub non_seq_count : ℕ
  pub reset_recommended_count : ℕ
  pub zone_list : List Zone

unfoldable pub new_census : Census
new_census = record {
  cond_counts = λ _. 0;
  total_capacity = 0;
  total_len = 0;
  conventional_count = 0;
  seq_required_count = 0;
  seq_preferred_count = 0;
  non_seq_count = 0;
  reset_recommended_count = 0;
  zone_list = [];
}

-- `+= 1` on u32.
abbrev pub bump : ℕ → ℕ
bump n = (n + 1) % u32_mod

abbrev pub bump_if : Bool → ℕ → ℕ
bump_if b n = if b then bump n else n

abbrev pub count_type : ZoneType → Census → Census
count_type conventional c = record c { conventional_count = bump c.conventional_count }
count_type sequential_write_required c = record c { seq_required_count = bump c.seq_required_count }
count_type sequential_write_preferred c = record c {
  seq_preferred_count = bump c.seq_preferred_count;
}

-- The counts that do not go by the type of the zone.
abbrev pub counted : Bool → Census → Zone → Census
counted all_zones c zone = record c {
  cond_counts = λ cond. bump_if (condition_eq cond zone.condition) (c.cond_counts cond);
  total_capacity = add_u64 c.total_capacity zone.capacity;
  total_len = add_u64 c.total_len zone.len;
  non_seq_count = bump_if zone.non_seq c.non_seq_count;
  reset_recommended_count = bump_if zone.reset_recommended c.reset_recommended_count;
  zone_list = if all_zones then c.zone_list ++ zone ∷ [] else c.zone_list;
}

-- A round of the loop.
unfoldable pub tally : Bool → Census → Zone → Census
tally all_zones c zone = count_type zone.zone_type (counted all_zones c zone)

abbrev pub cond_order : List ZoneCondition
cond_order =
    not_write_pointer ∷ empty ∷ implicitly_open ∷ explicitly_open ∷ closed ∷ full ∷ read_only
    ∷ offline ∷ []

-- The lines of the summary of conditions: those with a zone.
unfoldable pub summary : (ZoneCondition → ℕ) → List ZoneCondition → List (ZoneCondition × ℕ)
summary counts [] = []
summary counts (cond ∷ conds) =
    let rest : List (ZoneCondition × ℕ) = summary counts conds in
    if ltb 0 (counts cond) then (cond, counts cond) ∷ rest else rest

abbrev rows_from : ℕ → List Zone → List ZoneRow
rows_from i [] = []
rows_from i (zone ∷ zones) = zone_row i zone ∷ rows_from (suc i) zones

-- What `run_info` prints.
pub record InfoReport : Type 0 where
  pub props : Option DeviceProperties
  pub info : DeviceInfo
  pub census : Census
  pub total_zones : ℕ
  pub conditions : List (ZoneCondition × ℕ)
  pub overhead : Option Sector
  pub all_zones : List ZoneRow

unfoldable pub report_of : Option DeviceProperties → DeviceInfo → Census → InfoReport
report_of props info c = record {
  props = props;
  info = info;
  census = c;
  total_zones =
      ((c.conventional_count + c.seq_required_count) % u32_mod + c.seq_preferred_count) % u32_mod;
  conditions = summary c.cond_counts cond_order;
  overhead =
      if ltb c.total_capacity c.total_len
      then some (sub_u64 c.total_len c.total_capacity)
      else none;
  all_zones = rows_from 0 c.zone_list;
}

module _ {W : Type 0} where
  unfoldable pub census_loop : ℕ → Bool → ZoneIterator W → Census → Zio W Census
  census_loop zero all_zones it c w = (timeout, w)
  census_loop (suc fuel) all_zones it c w =
      for_each (λ it' zone. census_loop fuel all_zones it' (tally all_zones c zone)) c (next it w)

  -- The iterator's loop and what is printed of it.
  unfoldable pub take_census :
      ℕ → ZonedDevice W → Option DeviceProperties → DeviceInfo → Bool → ℕ → Zio W InfoReport
  take_census fuel d props info all_zones batch_size = do
    census ← census_loop fuel all_zones (Iter.zone_iter d batch_size) new_census
    return (report_of props info census)

  -- `properties` is `sysfs::device_properties`.
  module _ (validate : Validate W) (opener : Opener W)
      (properties : String → Io W ZonedError DeviceProperties) where
    pub run_info : ℕ → String → Bool → ℕ → Cio W InfoReport
    run_info fuel path all_zones batch_size = do
      dev ← passes (open_device validate opener (Builder.validate_all (Builder.new path)))
      info ← passes (Device.device_info dev)
      props ← attempt (properties path)
      passes (take_census fuel dev props info all_zones batch_size)
