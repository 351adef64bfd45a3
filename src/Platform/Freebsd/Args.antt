-- ===== src/Platform/Freebsd/Args.antt =====
-- The argument of the ioctl DIOCZONECMD of platform/freebsd.rs, as repr(C) lays out its bytes, and the
-- calls of that ioctl.
pub mod Response
use zoned.Base.{
  ℕ, zero, suc, ◌+◌, ◌*◌, ◌/◌, ◌^◌, ◌≤◌, ◌<◌, ◌≡◌, refl, ap, arith, max, ltb, lt→ltb, List, [], ◌∷◌,
  ◌++◌, map, length, take, drop, replicate, length-append, length-replicate, ℤ, ◌%◌, u32_mod,
}
use zoned.Base.Bytes.{to_le, from_le, from_le-to_le, length-to_le}
use zoned.Errors.{Io, ok, return, ◌>>=◌, ◌>>◌}
use zoned.Types.{Sector}
use zoned.Platform.Kernel.{Kernel}
use zoned.Platform.Freebsd.{Ioctls, File, report_zones, report_zones_raw, min_report_entries}
use zoned.Platform.Freebsd.Entry.{DiskZoneRepEntry, DiskZoneDiskParams, entry_to_zone}

abbrev disk_zone_report_zones : ℕ
disk_zone_report_zones = 0x03

abbrev disk_zone_get_params : ℕ
disk_zone_get_params = 0x05

abbrev disk_zone_rep_all : ℕ
disk_zone_rep_all = 0x00

-- `DiskZoneArgs`: the command, and the bytes of the union.
abbrev zone_args : ℕ → List ℕ → List ℕ
zone_args zone_cmd zone_params = to_le 1 zone_cmd ++ (replicate 7 0 ++ zone_params)

-- `DiskZoneRepHeader`.
abbrev header_bytes : ℕ → ℕ → List ℕ → List ℕ
header_bytes same maximum_lba rest =
    to_le 1 same ++ (replicate 7 0 ++ (to_le 8 maximum_lba ++ (replicate 64 0 ++ rest)))

-- `DiskZoneReport`, whose last field is the address of the entries.
pub record DiskZoneReport : Type 0 where
  pub starting_id : ℕ
  pub rep_options : ℕ
  pub same : ℕ
  pub maximum_lba : ℕ
  pub entries_allocated : ℕ
  pub entries_filled : ℕ
  pub entries_available : ℕ
  pub entries : ℕ

pub report_args : DiskZoneReport → List ℕ
report_args r = zone_args disk_zone_report_zones (
    to_le 8 r.starting_id
    ++ (to_le 1 r.rep_options
        ++ (replicate 7 0
            ++ header_bytes r.same r.maximum_lba (
                to_le 4 r.entries_allocated
                ++ (to_le 4 r.entries_filled
                    ++ (to_le 4 r.entries_available ++ (replicate 4 0 ++ to_le 8 r.entries)))))))

-- `args.zone_params.report.entries_filled`.
pub entries_filled_of : List ℕ → ℕ
entries_filled_of args = from_le (take 4 (drop 108 args))

-- The arguments with a `DiskZoneRwp`, and with zeroed parameters. The last bytes of the union are not set.
pub rwp_args : ℕ → ℕ → ℕ → List ℕ → List ℕ
rwp_args cmd lba flags unset =
    zone_args cmd (to_le 8 lba ++ (to_le 1 flags ++ (replicate 7 0 ++ unset)))

pub params_args : DiskZoneDiskParams → List ℕ → List ℕ
params_args p unset = zone_args disk_zone_get_params (
    to_le 4 p.zone_mode
    ++ (replicate 4 0
        ++ (to_le 8 p.flags
            ++ (to_le 8 p.optimal_seq_zones
                ++ (to_le 8 p.optimal_nonseq_zones ++ (to_le 8 p.max_seq_zones ++ unset))))))

-- `args.zone_params.disk_params`.
pub disk_params_of : List ℕ → DiskZoneDiskParams
disk_params_of args = record {
  zone_mode = from_le (take 4 (drop 8 args));
  flags = from_le (take 8 (drop 16 args));
  optimal_seq_zones = from_le (take 8 (drop 24 args));
  optimal_nonseq_zones = from_le (take 8 (drop 32 args));
  max_seq_zones = from_le (take 8 (drop 40 args));
}

abbrev no_params : DiskZoneDiskParams
no_params = record {
  zone_mode = 0;
  flags = 0;
  optimal_seq_zones = 0;
  optimal_nonseq_zones = 0;
  max_seq_zones = 0;
}

-- The bytes of an entry in front of others, and the entry that bytes begin with.
pub write_entry : DiskZoneRepEntry → List ℕ → List ℕ
write_entry e rest =
    to_le 1 e.zone_type
    ++ (to_le 1 e.zone_condition
        ++ (to_le 1 e.zone_flags
            ++ (replicate 5 0
                ++ (to_le 8 e.zone_length
                    ++ (to_le 8 e.zone_start_lba
                        ++ (to_le 8 e.write_pointer_lba ++ (replicate 32 0 ++ rest)))))))

pub read_entry : List ℕ → DiskZoneRepEntry
read_entry bytes = record {
  zone_type = from_le (take 1 bytes);
  zone_condition = from_le (take 1 (drop 1 bytes));
  zone_flags = from_le (take 1 (drop 2 bytes));
  zone_length = from_le (take 8 (drop 8 bytes));
  zone_start_lba = from_le (take 8 (drop 16 bytes));
  write_pointer_lba = from_le (take 8 (drop 24 bytes));
}

-- The vector of `count` entries in its bytes.
pub read_entries : ℕ → List ℕ → List DiskZoneRepEntry
read_entries zero bytes = []
read_entries (suc count) bytes = read_entry bytes ∷ read_entries count (drop 64 bytes)

-- The ioctls as nix makes them: `dioczonecmd` takes the bytes of the argument and those of the vector
-- that it points to, and gives both after the call. `address` is where the vector lies, and `unset` bytes
-- that the program does not set.
pub record RawIoctls (W : Type 0) : Type 0 where
  pub kernel : Kernel W
  pub diocgsectorsize : ℕ → Io W ℕ ℕ
  pub diocgmediasize : ℕ → Io W ℕ ℤ
  pub dioczonecmd : ℕ → List ℕ → List ℕ → Io W ℕ (List ℕ × List ℕ)
  pub address : ℕ
  pub unset : ℕ → List ℕ

module _ {W : Type 0} (raw : RawIoctls W) where
  abbrev pub request : ℕ → ℕ → DiskZoneReport
  request start_lba alloc_count = record {
    starting_id = start_lba;
    rep_options = disk_zone_rep_all;
    same = 0;
    maximum_lba = 0;
    entries_allocated = alloc_count % u32_mod;
    entries_filled = 0;
    entries_available = 0;
    entries = raw.address;
  }

  pub raw_report : ℕ → ℕ → ℕ → Io W ℕ (List DiskZoneRepEntry × ℕ)
  unfolding read_entries entries_filled_of
  raw_report fd start_lba alloc_count = do
    (args, entries) ←
        raw.dioczonecmd fd (report_args (request start_lba alloc_count))
          (replicate (64 * alloc_count) 0)
    return (read_entries alloc_count entries, entries_filled_of args)

  pub raw_params : ℕ → Io W ℕ DiskZoneDiskParams
  unfolding disk_params_of
  raw_params fd = do
    (args, entries) ← raw.dioczonecmd fd (params_args no_params (raw.unset 80)) []
    return (disk_params_of args)

  pub raw_command : ℕ → ℕ → ℕ → ℕ → Io W ℕ (Unit {0})
  raw_command fd cmd lba flags = do
    _ ← raw.dioczonecmd fd (rwp_args cmd lba flags (raw.unset 104)) []
    return tt

  -- The ioctls of the platform over their bytes.
  pub raw_zone_ioctls : Ioctls W
  raw_zone_ioctls = record {
    kernel = raw.kernel;
    sector_size = raw.diocgsectorsize;
    media_size = raw.diocgmediasize;
    params = raw_params;
    report = raw_report;
    command = raw_command;
  }
