-- ===== src/Tests.antt =====
-- A small device for the tests: four zones over a medium of bytes.
mod Device
mod Handle
mod Allocator
mod Cursor
mod Checks
mod Async
mod Stores
mod Zcli
mod Bounds
mod Sysfs
mod Validate
mod Linux
mod Platforms
mod Freebsd
use zoned.Base.{
  ℕ, ◌%◌, ◌≤◌, ◌≡◌, refl, true, false, Option, none, some, List, [], ◌∷◌, arith, min, take, length,
}
use zoned.Errors.{ok, err, os_error, not_found, return}
use zoned.FileSystem.{Fs}
use zoned.Types.{
  Zone, ZoneType, ZoneCondition, conventional, sequential_write_required, not_write_pointer, empty,
  implicitly_open,
}
use zoned.Platform.{PlatformDevice}
use zoned.Device.{ZonedDevice}
use zoned.Device.Layout.{Contiguous, from_sector, Serves}
use zoned.Device.Storage.{overlay, Storage}

-- The zone of 8 sectors that begins at a sector.
abbrev pub zone_at : ℕ → ZoneType → ZoneCondition → Option ℕ → Zone
zone_at s t c wp = record {
  start = s;
  len = 8;
  capacity = 6;
  write_pointer = wp;
  zone_type = t;
  condition = c;
  non_seq = false;
  reset_recommended = false;
}

abbrev four_zones : List Zone
four_zones =
    zone_at 0 conventional not_write_pointer none
    ∷ zone_at 8 sequential_write_required implicitly_open (some 10)
    ∷ zone_at 16 sequential_write_required empty (some 16)
    ∷ zone_at 24 sequential_write_required empty (some 24)
    ∷ []

-- The world is the medium. A write takes at most two sectors.
abbrev Medium : Type 0
Medium = ℕ → ℕ

abbrev platform : PlatformDevice Medium
platform = record {
  path = "/dev/sdb";
  is_writable = true;
  device_info = return (record { zone_size = 8; nr_zones = 4 });
  report_zones = λ s count. return (take count (from_sector s four_zones));
  reset_zones = λ _ _. return tt;
  open_zones = λ _ _. return tt;
  close_zones = λ _ _. return tt;
  finish_zones = λ _ _. return tt;
  fsync = return tt;
  write_at = λ buf offset m.
      (ok (min (length buf) 1024), overlay m offset (take (min (length buf) 1024) buf));
  writev_at = λ _ _. return 0;
  read_at = λ buf _. return (0, buf);
  readv_at = λ bufs _. return (0, bufs);
}

abbrev device : ZonedDevice Medium
device = record { inner = platform }

abbrev blank : Medium
blank _ = 0

unfoldable pub device-Serves : (m : Medium) → Serves device four_zones m
unfolding zoned.Device.device_info zoned.Device.report_zones
device-Serves m = record {
  layout = omega arith;
  info = record { zone_size = 8; nr_zones = 4 };
  info_answer = refl;
  info_count = refl;
  answers = λ s count range h small. refl;
}

device-Storage : Storage device (λ m. m)
device-Storage = record { honest = λ buf offset w. (omega arith, (λ h. omega arith), (λ i. refl)) }

-- A file system without a file.
abbrev no_files : Fs (Unit {0})
no_files = record {
  metadata = λ path w. (err (os_error not_found), w);
  read_to_string = λ path w. (err (os_error not_found), w);
  read_dir = λ path w. (err (os_error not_found), w);
  exists = λ path w. false;
  canonicalize = λ path w. (err (os_error not_found), w);
  read = λ path w. (err (os_error not_found), w);
  write = λ path bytes w. (err (os_error not_found), w);
}
