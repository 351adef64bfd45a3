-- ===== src/Platform/Linux.antt =====
-- platform/linux.rs: the block-device ioctls and the layout of what they exchange with the kernel.
pub mod Struct
pub mod Report
use zoned.Base.{
  ℕ, zero, suc, ◌+◌, ◌*◌, ◌%◌, String, Bool, true, false, List, [], ◌∷◌, ◌++◌, ltb, ◌==◌,
  if◌then◌else◌, length, take, drop, replicate, u32_mod,
}
use zoned.Base.Bytes.{to_le, from_le}
use zoned.Errors.{Io, map_err, fail, return, ◌>>=◌, ◌>>◌, and_then, ZonedError, ioctl, not_zoned}
use zoned.Types.{Sector, Zone, DeviceInfo}
use zoned.Platform.{PlatformDevice}
use zoned.Platform.Kernel.{Kernel, OpenMode, for_reading, for_writing, for_direct}
use zoned.Platform.Files
use Struct.{BlkZone, read_blk_zone, blk_zone_to_zone}

-- The ioctl numbers.
abbrev pub blkreportzone_nr : ℕ
blkreportzone_nr = 130

abbrev pub blkresetzone_nr : ℕ
blkresetzone_nr = 131

abbrev pub blkgetzonesz_nr : ℕ
blkgetzonesz_nr = 132

abbrev pub blkgetnrzones_nr : ℕ
blkgetnrzones_nr = 133

abbrev pub blkopenzone_nr : ℕ
blkopenzone_nr = 134

abbrev pub blkclosezone_nr : ℕ
blkclosezone_nr = 135

abbrev pub blkfinishzone_nr : ℕ
blkfinishzone_nr = 136

pub record BlkZoneRange : Type 0 where
  pub sector : ℕ
  pub nr_sectors : ℕ

-- The ioctls of the nix macros: one that reads a u32, one that fills a buffer, and one that takes a
-- range. An error is an errno.
pub record Ioctls (W : Type 0) : Type 0 where
  pub kernel : Kernel W
  pub ioctl_read_u32 : ℕ → ℕ → Io W ℕ ℕ
  pub ioctl_report : ℕ → List ℕ → Io W ℕ (List ℕ)
  pub ioctl_range : ℕ → ℕ → BlkZoneRange → Io W ℕ (Unit {0})

-- The fields of the source's `PlatformDevice`.
pub record File : Type 0 where
  pub fd : ℕ
  pub path : String
  pub writable : Bool

abbrev pub header_size : ℕ
header_size = 16

abbrev pub zone_entry_size : ℕ
zone_entry_size = 64

-- The request that `report_zones` writes, and the room behind it for the zones.
unfoldable pub request : Sector → ℕ → List ℕ
request sector zone_count =
    to_le 8 sector
    ++ to_le 4 (zone_count % u32_mod)
    ++ to_le 4 0
    ++ replicate (zone_count * zone_entry_size) 0

-- `nr_zones` of the response header, and whether its flags have BLK_ZONE_REP_CAPACITY.
pub returned_zones : List ℕ → ℕ
returned_zones buf = from_le (take 4 (drop 8 buf))

pub has_capacity : List ℕ → Bool
has_capacity buf = from_le (take 4 (drop 12 buf)) % 2 == 1

-- The `for` of `report_zones`, with the entries from `i` on still to read.
pub read_zones : ℕ → ℕ → Bool → List ℕ → List Zone
read_zones zero i capacity buf = []
read_zones (suc left) i capacity buf =
    let offset : ℕ = header_size + i * zone_entry_size in
    let zone : Zone = blk_zone_to_zone (read_blk_zone (drop offset buf)) capacity in
    let rest : List Zone = zone ∷ read_zones left (suc i) capacity buf in
    if ltb (length buf) (offset + zone_entry_size) then [] else rest

module _ {W : Type 0} (io : Ioctls W) where
  pub open_file : String → OpenMode → Bool → Io W ZonedError File
  open_file path mode writable = do
    fd ← Files.open_path io.kernel path mode
    return (record { fd = fd; path = path; writable = writable })

  pub device_info : File → Io W ZonedError DeviceInfo
  device_info f = do
    zone_size ← map_err (ioctl f.path) (io.ioctl_read_u32 f.fd blkgetzonesz_nr)
    nr_zones ← map_err (ioctl f.path) (io.ioctl_read_u32 f.fd blkgetnrzones_nr)
    if zone_size == 0
        then fail (not_zoned f.path)
        else return (record { zone_size = zone_size; nr_zones = nr_zones })

  -- `max_zones.max(1)`.
  abbrev at_least_one : ℕ → ℕ
  at_least_one max_zones = if max_zones == 0 then 1 else max_zones

  pub report_zones : File → Sector → ℕ → Io W ZonedError (List Zone)
  unfolding request returned_zones has_capacity read_zones
  report_zones f sector max_zones = do
    buf ← map_err (ioctl f.path) (io.ioctl_report f.fd (request sector (at_least_one max_zones)))
    return (read_zones (returned_zones buf) 0 (has_capacity buf) buf)

  -- The four management calls differ in the ioctl only.
  pub manage : ℕ → File → Sector → Sector → Io W ZonedError (Unit {0})
  manage nr f sector nr_sectors =
      map_err (ioctl f.path)
        (io.ioctl_range f.fd nr (record { sector = sector; nr_sectors = nr_sectors }))

  -- The platform that a file gives.
  unfoldable pub platform : File → PlatformDevice W
  platform f = record {
    path = f.path;
    is_writable = f.writable;
    device_info = device_info f;
    report_zones = report_zones f;
    reset_zones = manage blkresetzone_nr f;
    open_zones = manage blkopenzone_nr f;
    close_zones = manage blkclosezone_nr f;
    finish_zones = manage blkfinishzone_nr f;
    fsync = Files.fsync io.kernel f.path f.fd;
    write_at = Files.write_at io.kernel f.path f.writable f.fd;
    writev_at = Files.writev_at io.kernel f.path f.writable f.fd;
    read_at = Files.read_at io.kernel f.path f.fd;
    readv_at = Files.readv_at io.kernel f.path f.fd;
  }

  pub open_path : String → Io W ZonedError (PlatformDevice W)
  open_path path = do f ← open_file path for_reading false; return (platform f)

  pub open_writable : String → Io W ZonedError (PlatformDevice W)
  open_writable path = do f ← open_file path for_writing true; return (platform f)

  pub open_direct : String → Io W ZonedError (PlatformDevice W)
  open_direct path = do f ← open_file path for_direct true; return (platform f)
