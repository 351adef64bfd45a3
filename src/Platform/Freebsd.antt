-- ===== src/Platform/Freebsd.antt =====
-- platform/freebsd.rs: the zone commands, and the loop that manages the zones of a range.
pub mod Entry
pub mod Range
pub mod Args
pub mod Properties
use zoned.Base.{
  ℕ, zero, suc, ◌+◌, ◌-◌, ◌/◌, ◌%◌, max, String, Bool, true, false, ◌&&◌, List, [], ◌∷◌, map, ltb,
  leb, ◌==◌, if◌then◌else◌, take, u64_mod, u32_mod, add_u64, mul_u64, ℤ, pos, negsuc, none,
}
use zoned.Errors.{
  Io, Outcome, ok, err, panic, timeout, map_err, fail, return, ◌>>=◌, ◌>>◌, and_then, ZonedError,
  ioctl, not_zoned,
}
use zoned.Types.{Sector, Zone, DeviceInfo, DeviceModel, unzoned, host_aware, host_managed}
use zoned.Platform.{PlatformDevice}
use zoned.Platform.Kernel.{Kernel, OpenMode, for_reading, for_writing, for_direct}
use zoned.Platform.Files
use Entry.{DiskZoneRepEntry, DiskZoneDiskParams, entry_to_zone}

-- The zone commands.
abbrev pub disk_zone_open : ℕ
disk_zone_open = 0x00

abbrev pub disk_zone_close : ℕ
disk_zone_close = 0x01

abbrev pub disk_zone_finish : ℕ
disk_zone_finish = 0x02

abbrev pub disk_zone_rwp : ℕ
disk_zone_rwp = 0x04

abbrev pub disk_zone_rwp_flag_all : ℕ
disk_zone_rwp_flag_all = 0x01

abbrev pub min_report_entries : ℕ
min_report_entries = 16384

-- The ioctls of the nix macros. `report` takes the first LBA and the entries allocated and gives
-- the array of entries after the call and how many are filled; `command` takes the command, the
-- zone's LBA and the flags. An error is an errno.
pub record Ioctls (W : Type 0) : Type 0 where
  pub kernel : Kernel W
  pub sector_size : ℕ → Io W ℕ ℕ
  pub media_size : ℕ → Io W ℕ ℤ
  pub params : ℕ → Io W ℕ DiskZoneDiskParams
  pub report : ℕ → ℕ → ℕ → Io W ℕ (List DiskZoneRepEntry × ℕ)
  pub command : ℕ → ℕ → ℕ → ℕ → Io W ℕ (Unit {0})

-- The fields of the source's `PlatformDevice`.
pub record File : Type 0 where
  pub fd : ℕ
  pub path : String
  pub writable : Bool
  pub sector_size : ℕ
  pub lba_scale : ℕ

-- `media_size as u64`.
abbrev pub as_u64 : ℤ → ℕ
as_u64 (pos n) = n
as_u64 (negsuc n) = u64_mod - suc n

abbrev einval : ℕ
einval = 22

-- `div_ceil`.
abbrev div_ceil : ℕ → ℕ → ℕ
div_ceil a b = if a % b == 0 then a / b else a / b + 1

module _ {W : Type 0} (io : Ioctls W) where
  -- A sector size of 0 counts as 512.
  query_sector_size : ℕ → String → Io W ZonedError (ℕ × ℕ)
  query_sector_size fd path = do
    size ← map_err (ioctl path) (io.sector_size fd)
    let sector_size : ℕ = if size == 0 then 512 else size
    return (sector_size, sector_size / 512)

  pub open_file : String → OpenMode → Bool → Io W ZonedError File
  unfolding query_sector_size
  open_file path mode writable = do
    fd ← Files.open_path io.kernel path mode
    (sector_size, lba_scale) ← query_sector_size fd path
    return (record {
      fd = fd;
      path = path;
      writable = writable;
      sector_size = sector_size;
      lba_scale = lba_scale;
    })

  -- EINVAL counts as no zones.
  filled_entries :
      String
      → Outcome ℕ (List DiskZoneRepEntry × ℕ) × W
      → Outcome ZonedError (List DiskZoneRepEntry) × W
  filled_entries path (ok (entries, filled), w) = (ok (take filled entries), w)
  filled_entries path (err e, w) = (if e == einval then ok [] else err (ioctl path e), w)
  filled_entries path (panic, w) = (panic, w)
  filled_entries path (timeout, w) = (timeout, w)

  pub report_zones_raw : File → ℕ → ℕ → Io W ZonedError (List DiskZoneRepEntry)
  unfolding filled_entries
  report_zones_raw f start_lba alloc_count w =
      filled_entries f.path (io.report f.fd start_lba alloc_count w)

  pub get_zone_params : File → Io W ZonedError DiskZoneDiskParams
  get_zone_params f = map_err (ioctl f.path) (io.params f.fd)

  pub get_media_size : File → Io W ZonedError ℤ
  get_media_size f = map_err (ioctl f.path) (io.media_size f.fd)

  -- The end of `device_info`, by the first zone.
  info_of : File → ℤ → List DiskZoneRepEntry → Io W ZonedError DeviceInfo
  info_of f media_size [] = fail (not_zoned f.path)
  info_of f media_size (entry ∷ _) =
      let zone_size : Sector = mul_u64 entry.zone_length f.lba_scale in
      let total_sectors : Sector = as_u64 media_size / 512 in
      return (record {
        zone_size = zone_size;
        nr_zones = if ltb 0 zone_size then div_ceil total_sectors zone_size % u32_mod else 0;
      })

  pub device_info : File → Io W ZonedError DeviceInfo
  unfolding get_zone_params get_media_size info_of report_zones_raw
  device_info f = do
    params ← get_zone_params f
    if params.zone_mode == 0 then fail (not_zoned f.path) else (do
      media_size ← get_media_size f
      entries ← report_zones_raw f 0 min_report_entries
      info_of f media_size entries)

  unfoldable pub report_zones : File → Sector → ℕ → Io W ZonedError (List Zone)
  unfolding report_zones_raw
  report_zones f sector max_zones = do
    let count : ℕ = max max_zones 1
    let start_lba : ℕ = if ltb 0 f.lba_scale then sector / f.lba_scale else sector
    entries ← report_zones_raw f start_lba (max count min_report_entries)
    return (map (λ entry. entry_to_zone entry f.lba_scale) (take count entries))

  pub zone_rwp : File → ℕ → ℕ → Io W ZonedError (Unit {0})
  zone_rwp f lba flags = map_err (ioctl f.path) (io.command f.fd disk_zone_rwp lba flags)

  unfoldable pub zone_cmd_single : File → ℕ → ℕ → Io W ZonedError (Unit {0})
  zone_cmd_single f cmd lba = map_err (ioctl f.path) (io.command f.fd cmd lba 0)

  -- A round of `for_each_zone_in_range`: `again` is the next one. A division by 0 panics.
  range_round :
      (Sector → Io W ZonedError (Unit {0}))
      → File
      → Sector
      → (ℕ → Io W ZonedError (Unit {0}))
      → List Zone
      → Io W ZonedError (Unit {0})
  range_round again f cursor action [] = return tt
  range_round again f cursor action (zone ∷ _) =
      let next : Sector = add_u64 zone.start zone.len in
      if f.lba_scale == 0
      then (λ w. (panic, w))
      else action (zone.start / f.lba_scale) >> (if leb next cursor then return tt else again next)

  pub range_loop :
      ℕ → File → Sector → Sector → (ℕ → Io W ZonedError (Unit {0})) → Io W ZonedError (Unit {0})
  unfolding range_round
  range_loop zero f cursor end_sector action w =
      (if ltb cursor end_sector then timeout else ok tt, w)
  range_loop (suc fuel) f cursor end_sector action w =
      let round : Outcome ZonedError (Unit {0}) × W =
        and_then (report_zones f cursor 1 w)
          (range_round (λ next. range_loop fuel f next end_sector action) f cursor action) in
      if ltb cursor end_sector then round else (ok tt, w)

  -- Each round moves the cursor by a sector or more.
  pub for_each_zone_in_range :
      File → Sector → Sector → (ℕ → Io W ZonedError (Unit {0})) → Io W ZonedError (Unit {0})
  for_each_zone_in_range f sector nr_sectors action =
      range_loop (add_u64 sector nr_sectors - sector) f sector (add_u64 sector nr_sectors) action

  pub reset_zones : File → Sector → Sector → Io W ZonedError (Unit {0})
  reset_zones f sector nr_sectors = do
    info ← device_info f
    if (sector == 0) && leb (mul_u64 info.zone_size info.nr_zones) nr_sectors
        then zone_rwp f 0 disk_zone_rwp_flag_all
        else for_each_zone_in_range f sector nr_sectors (λ lba. zone_rwp f lba 0)

  -- `open_zones`, `close_zones` and `finish_zones` by their command.
  pub manage : ℕ → File → Sector → Sector → Io W ZonedError (Unit {0})
  manage cmd f sector nr_sectors =
      for_each_zone_in_range f sector nr_sectors (zone_cmd_single f cmd)

  unfoldable pub platform : File → PlatformDevice W
  platform f = record {
    path = f.path;
    is_writable = f.writable;
    device_info = device_info f;
    report_zones = report_zones f;
    reset_zones = reset_zones f;
    open_zones = manage disk_zone_open f;
    close_zones = manage disk_zone_close f;
    finish_zones = manage disk_zone_finish f;
    fsync = Files.fsync io.kernel f.path f.fd;
    write_at = Files.write_at io.kernel f.path f.writable f.fd;
    writev_at = Files.writev_at io.kernel f.path f.writable f.fd;
    read_at = Files.read_at io.kernel f.path f.fd;
    readv_at = Files.readv_at io.kernel f.path f.fd;
  }

  pub open_path : String → Io W ZonedError (PlatformDevice W)
  open_path path = do f ← open_file path for_reading false; return (platform f)

  pub open_writable : String → Io W ZonedError (PlatformDevice W)
  open_writable path = do f ← open_file path for_writing true; return (platform f)

  pub open_direct : String → Io W ZonedError (PlatformDevice W)
  open_direct path = do f ← open_file path for_direct true; return (platform f)

  pub device_model : File → Io W ZonedError DeviceModel
  device_model f = do
    params ← get_zone_params f
    return (
        if params.zone_mode == 0x01
        then host_aware
        else if params.zone_mode == 0x04
        then host_managed
        else unzoned)
