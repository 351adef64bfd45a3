-- ===== src/Platform/Freebsd/Entry.antt =====
-- The structs and codes of platform/freebsd.rs, and how a report entry becomes a zone.
use zoned.Base.{ℕ, ◌/◌, ◌%◌, ◌||◌, none, some, ◌==◌, if◌then◌else◌, mul_u64}
use zoned.Types.{
  Zone, ZoneType, conventional, sequential_write_required, sequential_write_preferred,
  ZoneCondition, not_write_pointer, empty, implicitly_open, explicitly_open, closed, read_only,
  full, offline, condition_eq,
}

-- `struct disk_zone_rep_entry` without its padding.
pub record DiskZoneRepEntry : Type 0 where
  pub zone_type : ℕ
  pub zone_condition : ℕ
  pub zone_flags : ℕ
  pub zone_length : ℕ
  pub zone_start_lba : ℕ
  pub write_pointer_lba : ℕ

pub record DiskZoneDiskParams : Type 0 where
  pub zone_mode : ℕ
  pub flags : ℕ
  pub optimal_seq_zones : ℕ
  pub optimal_nonseq_zones : ℕ
  pub max_seq_zones : ℕ

unfoldable pub parse_zone_type : ℕ → ZoneType
parse_zone_type raw =
    if raw == 0x02
    then sequential_write_required
    else if raw == 0x03
    then sequential_write_preferred
    else conventional

unfoldable pub parse_zone_condition : ℕ → ZoneCondition
parse_zone_condition raw =
    if raw == 0x01
    then empty
    else if raw == 0x02
    then implicitly_open
    else if raw == 0x03
    then explicitly_open
    else if raw == 0x04
    then closed
    else if raw == 0x0D
    then read_only
    else if raw == 0x0E
    then full
    else if raw == 0x0F
    then offline
    else not_write_pointer

-- The flags DISK_ZONE_FLAG_RESET (bit 0) and DISK_ZONE_FLAG_NON_SEQ (bit 1).
unfoldable pub entry_to_zone : DiskZoneRepEntry → ℕ → Zone
unfolding parse_zone_type parse_zone_condition
entry_to_zone entry lba_scale = record {
  start = mul_u64 entry.zone_start_lba lba_scale;
  len = mul_u64 entry.zone_length lba_scale;
  capacity = mul_u64 entry.zone_length lba_scale;
  write_pointer =
      if condition_eq (parse_zone_condition entry.zone_condition) not_write_pointer
        || entry.write_pointer_lba == 18446744073709551615
      then none
      else some (mul_u64 entry.write_pointer_lba lba_scale);
  zone_type = parse_zone_type entry.zone_type;
  condition = parse_zone_condition entry.zone_condition;
  non_seq = (entry.zone_flags / 2) % 2 == 1;
  reset_recommended = entry.zone_flags % 2 == 1;
}
