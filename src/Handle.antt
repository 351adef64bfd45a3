-- ===== src/Handle.antt =====
-- zone_handle/mod.rs: the handle of one zone, with its own copy of the write pointer. A method
-- runs in the handle itself beside the world of its device.
pub mod Write
pub mod Create
pub mod Tracked
pub mod Lifecycle
use zoned.Base.{
  ℕ, zero, suc, ◌/◌, Bool, true, false, Option, none, some, List, [], ◌∷◌, ltb, leb, ◌==◌,
  if◌then◌else◌, length, drop, add_u64, mul_u64,
}
use zoned.Errors.{
  Io, IoError, wrapped, panic, timeout, ok, err, fail, return, map_err, ◌>>=◌, ◌>>◌, and_then,
  ZonedError, invalid_range, zone_full,
}
use zoned.Types.{Sector, ZoneIndex, Zone, sector_size}
use zoned.Device
use zoned.Device.{ZonedDevice, Zio}

pub record ZoneHandle (W : Type 0) : Type 0 where
  pub device : ZonedDevice W
  pub zone_index : ZoneIndex
  pub start : Sector
  pub len : Sector
  pub capacity : Sector
  pub write_pointer : Sector
  -- Whether the handle holds an allocator, to which its zone goes back.
  pub registered : Bool

abbrev pub Hio : Type 0 → Type 0 → Type 0
Hio W A = Io (ZoneHandle W × W) ZonedError A

abbrev unwrap_or : Option Sector → Sector → Sector
unwrap_or (some s) d = s
unwrap_or none d = d

module _ {W : Type 0} where
  -- The first of the reported zones, or the error of `new_inner` and `report`.
  first_zone : Sector → List Zone → Zio W Zone
  first_zone sector [] = fail (invalid_range sector 0)
  first_zone sector (zone ∷ _) = return zone

  unfoldable pub new_inner : ZonedDevice W → ZoneIndex → Bool → Zio W (ZoneHandle W)
  unfolding first_zone
  new_inner d zone_index registered = do
    info ← Device.device_info d
    let start : Sector = mul_u64 info.zone_size zone_index
    zones ← Device.report_zones d start 1
    zone ← first_zone start zones
    return (record {
      device = d;
      zone_index = zone_index;
      start = zone.start;
      len = zone.len;
      capacity = zone.capacity;
      write_pointer = unwrap_or zone.write_pointer zone.start;
      registered = registered;
    })

  pub new : ZonedDevice W → ZoneIndex → Zio W (ZoneHandle W)
  new d zone_index = new_inner d zone_index false

  unfoldable pub new_with_allocator : ZonedDevice W → ZoneIndex → Zio W (ZoneHandle W)
  new_with_allocator d zone_index = new_inner d zone_index true

  -- A call on the handle's device leaves the handle as it is.
  abbrev pub on_device : {A : Type 0} → (ZonedDevice W → Zio W A) → Hio W A
  on_device f (h, w) = let (r, w') = f h.device w in (r, (h, w'))

  -- `self.write_pointer += …` and `self.write_pointer = …`.
  abbrev pub advance : ℕ → Hio W (Unit {0})
  advance written (h, w) =
      (ok tt, (record h { write_pointer = add_u64 h.write_pointer (written / sector_size) }, w))

  abbrev pub set_pointer : Sector → Hio W (Unit {0})
  set_pointer s (h, w) = (ok tt, (record h { write_pointer = s }, w))

  abbrev pub capacity_end : ZoneHandle W → Sector
  capacity_end h = add_u64 h.start h.capacity

  unfoldable pub write_sequential : List ℕ → Hio W ℕ
  write_sequential buf (h, w) =
      if leb (capacity_end h) h.write_pointer
      then (err (zone_full h.zone_index), (h, w))
      else (do
        written ← on_device (λ d. Device.write_at d h.write_pointer buf)
        advance written
        return written)
          (h, w)

  unfoldable pub writev_sequential : List (List ℕ) → Hio W ℕ
  writev_sequential bufs (h, w) =
      if leb (capacity_end h) h.write_pointer
      then (err (zone_full h.zone_index), (h, w))
      else (do
        written ← on_device (λ d. Device.writev_at d h.write_pointer bufs)
        advance written
        return written)
          (h, w)

  -- The rest of a round of `write_all_sequential`; a slice from beyond the end panics.
  unfoldable pub after_write : (List ℕ → Hio W (Unit {0})) → List ℕ → ℕ → Hio W (Unit {0})
  after_write again remaining written (h, w) =
      if written == 0
      then (err (zone_full h.zone_index), (h, w))
      else if ltb (length remaining) written
      then (panic, (h, w))
      else again (drop written remaining) (h, w)

  unfoldable pub write_loop : ℕ → List ℕ → Hio W (Unit {0})
  unfolding after_write
  write_loop fuel [] s = (ok tt, s)
  write_loop zero (b ∷ bs) s = (timeout, s)
  write_loop (suc fuel) (b ∷ bs) s =
      and_then (write_sequential (b ∷ bs) s) (after_write (write_loop fuel) (b ∷ bs))

  -- Each round writes a byte, so the buffer's length is fuel enough.
  unfoldable pub write_all_sequential : List ℕ → Hio W (Unit {0})
  write_all_sequential buf = write_loop (length buf) buf

  unfoldable pub reset : Hio W (Unit {0})
  reset (h, w) =
      (do on_device (λ d. Device.reset_zones d h.start h.len); set_pointer h.start) (h, w)

  pub open_zone : Hio W (Unit {0})
  open_zone (h, w) = on_device (λ d. Device.open_zones d h.start h.len) (h, w)

  pub close_zone : Hio W (Unit {0})
  close_zone (h, w) = on_device (λ d. Device.close_zones d h.start h.len) (h, w)

  unfoldable pub finish : Hio W (Unit {0})
  finish (h, w) =
      (do on_device (λ d. Device.finish_zones d h.start h.len); set_pointer (add_u64 h.start h.len))
        (h, w)

  pub report : Hio W Zone
  unfolding first_zone
  report (h, w) =
      (do
        zones ← on_device (λ d. Device.report_zones d h.start 1)
        on_device (λ _. first_zone h.start zones))
        (h, w)

  pub is_empty : ZoneHandle W → Bool
  is_empty h = h.len == 0

  -- `std::io::Write`.
  unfoldable pub write : List ℕ → Io (ZoneHandle W × W) IoError ℕ
  write buf = map_err wrapped (write_sequential buf)

  unfoldable pub flush : Io (ZoneHandle W × W) IoError (Unit {0})
  flush = map_err wrapped (on_device Device.fsync)
