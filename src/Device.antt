-- ===== src/Device.antt =====
-- device/mod.rs: the device handle. A method runs in the world `W` of the platform below it.
pub mod Iter
pub mod Cursor
pub mod Layout
pub mod Report
pub mod Storage
pub mod Bounds
pub mod Reads
pub mod Write
pub mod Builder
use zoned.Base.{
  ℕ, zero, suc, ◌/◌, String, Bool, Option, none, some, List, [], ◌∷◌, ◌++◌, ◌||◌, ltb, leb, ◌==◌,
  if◌then◌else◌, length, drop, last_or, add_u64, checked_add, checked_mul,
}
use zoned.Errors.{
  Io, Outcome, panic, timeout, ok, err, fail, return, ◌>>=◌, ◌>>◌, and_then, ZonedError, io,
  invalid_range, custom, write_zero,
}
use zoned.Types.{Sector, Zone, DeviceInfo, sector_size, end_of}
use zoned.Platform.{PlatformDevice}

pub record ZonedDevice (W : Type 0) : Type 0 where
  pub inner : PlatformDevice W

abbrev pub Zio : Type 0 → Type 0 → Type 0
Zio W A = Io W ZonedError A

abbrev pub batch_or_default : ℕ → ℕ
batch_or_default batch_size = if batch_size == 0 then 512 else batch_size

module _ {W : Type 0} where
  unfoldable pub device_info : ZonedDevice W → Zio W DeviceInfo
  device_info d = d.inner.device_info

  unfoldable pub report_zones : ZonedDevice W → Sector → ℕ → Zio W (List Zone)
  report_zones d = d.inner.report_zones

  -- What a round of the `loop` of `report_all_zones` makes of its batch: `again` is the next round.
  report_round :
      (Sector → List Zone → Zio W (List Zone))
      → ℕ
      → Sector
      → List Zone
      → List Zone
      → Zio W (List Zone)
  report_round again nr_zones sector all_zones [] = return all_zones
  report_round again nr_zones sector all_zones (z ∷ zs) =
      let next_sector : Sector = end_of (last_or z zs) in
      let all_zones' : List Zone = all_zones ++ z ∷ zs in
      if leb nr_zones (length all_zones') || leb next_sector sector
      then return all_zones'
      else again next_sector all_zones'

  unfoldable pub report_loop : ℕ → ZonedDevice W → ℕ → ℕ → Sector → List Zone → Zio W (List Zone)
  unfolding report_round
  report_loop zero d nr_zones batch sector all_zones w = (timeout, w)
  report_loop (suc fuel) d nr_zones batch sector all_zones w =
      and_then (report_zones d sector batch w)
        (report_round (report_loop fuel d nr_zones batch) nr_zones sector all_zones)

  -- Each round adds a zone, so `nr_zones + 1` rounds are enough.
  unfoldable pub report_all_zones : ZonedDevice W → ℕ → Zio W (List Zone)
  report_all_zones d batch_size = do
    info ← device_info d
    report_loop (suc info.nr_zones) d info.nr_zones (batch_or_default batch_size) 0 []

  unfoldable pub validate_range : ZonedDevice W → Sector → Sector → Zio W (Unit {0})
  validate_range d sector nr_sectors =
      if nr_sectors == 0
      then fail (invalid_range sector nr_sectors)
      else elim (checked_add sector nr_sectors) [
        | none ↦ fail (invalid_range sector nr_sectors)
        | some _ ↦ return tt
      ]

  unfoldable pub reset_zones : ZonedDevice W → Sector → Sector → Zio W (Unit {0})
  reset_zones d sector nr_sectors = do
    validate_range d sector nr_sectors
    d.inner.reset_zones sector nr_sectors

  pub open_zones : ZonedDevice W → Sector → Sector → Zio W (Unit {0})
  open_zones d sector nr_sectors = do
    validate_range d sector nr_sectors
    d.inner.open_zones sector nr_sectors

  pub close_zones : ZonedDevice W → Sector → Sector → Zio W (Unit {0})
  close_zones d sector nr_sectors = do
    validate_range d sector nr_sectors
    d.inner.close_zones sector nr_sectors

  unfoldable pub finish_zones : ZonedDevice W → Sector → Sector → Zio W (Unit {0})
  finish_zones d sector nr_sectors = do
    validate_range d sector nr_sectors
    d.inner.finish_zones sector nr_sectors

  abbrev pub path : ZonedDevice W → String
  path d = d.inner.path

  abbrev pub is_writable : ZonedDevice W → Bool
  is_writable d = d.inner.is_writable

  -- The byte offset that the four positional calls begin with.
  abbrev pub ok_or_invalid : Option ℕ → Sector → Zio W ℕ
  ok_or_invalid none sector_offset = fail (invalid_range sector_offset 0)
  ok_or_invalid (some offset) sector_offset = return offset

  abbrev pub byte_offset : Sector → Zio W ℕ
  byte_offset sector_offset = ok_or_invalid (checked_mul sector_offset sector_size) sector_offset

  unfoldable pub write_at : ZonedDevice W → Sector → List ℕ → Zio W ℕ
  write_at d sector_offset buf = do offset ← byte_offset sector_offset; d.inner.write_at buf offset

  unfoldable pub read_at : ZonedDevice W → Sector → List ℕ → Zio W (ℕ × List ℕ)
  read_at d sector_offset buf = do offset ← byte_offset sector_offset; d.inner.read_at buf offset

  unfoldable pub writev_at : ZonedDevice W → Sector → List (List ℕ) → Zio W ℕ
  writev_at d sector_offset bufs = do
    offset ← byte_offset sector_offset
    d.inner.writev_at bufs offset

  pub readv_at : ZonedDevice W → Sector → List (List ℕ) → Zio W (ℕ × List (List ℕ))
  readv_at d sector_offset bufs = do
    offset ← byte_offset sector_offset
    d.inner.readv_at bufs offset

  -- The rest of a round of `write_all_at`; a slice from beyond the end panics.
  unfoldable pub after_write :
      (Sector → List ℕ → Zio W (Unit {0})) → ZonedDevice W → Sector → List ℕ → ℕ → Zio W (Unit {0})
  after_write again d offset remaining written =
      if written == 0
      then fail (io (path d) (custom write_zero "write_at returned 0 bytes"))
      else if ltb (length remaining) written
      then (λ w. (panic, w))
      else again (add_u64 offset (written / sector_size)) (drop written remaining)

  unfoldable pub write_loop : ℕ → ZonedDevice W → Sector → List ℕ → Zio W (Unit {0})
  unfolding after_write
  write_loop fuel d offset [] w = (ok tt, w)
  write_loop zero d offset (b ∷ bs) w = (timeout, w)
  write_loop (suc fuel) d offset (b ∷ bs) w =
      and_then (write_at d offset (b ∷ bs) w) (after_write (write_loop fuel d) d offset (b ∷ bs))

  -- Each round writes a byte, so the buffer's length is fuel enough.
  unfoldable pub write_all_at : ZonedDevice W → Sector → List ℕ → Zio W (Unit {0})
  write_all_at d sector_offset buf = write_loop (length buf) d sector_offset buf

  unfoldable pub fsync : ZonedDevice W → Zio W (Unit {0})
  fsync d = d.inner.fsync
