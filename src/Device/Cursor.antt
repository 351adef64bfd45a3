-- ===== src/Device/Cursor.antt =====
-- device/cursor.rs: the cursor. A call runs in the cursor beside the world of its device. Where the
-- source puts a position into a message, the model has the message without the number.
pub mod Laws
use zoned.Base.{
  ℕ, suc, ◌+◌, ◌%◌, Option, none, some, List, ◌==◌, if◌then◌else◌, add_u64, checked_add,
  checked_sub, ℤ, pos, negsuc,
}
use zoned.Errors.{
  Io, IoError, custom, wrapped, invalid_input, unsupported, ok, fail, return, map_err, ◌>>=◌, ◌>>◌,
  and_then,
}
use zoned.Types.{Sector, sector_size, to_bytes, from_bytes}
use zoned.Device.{ZonedDevice, Zio, read_at, write_at, fsync}

pub record Cursor (W : Type 0) : Type 0 where
  pub device : ZonedDevice W
  pub position : ℕ

-- std::io::SeekFrom.
pub data SeekFrom : Type 0 where
  start : ℕ → SeekFrom
  current : ℤ → SeekFrom
  end : ℤ → SeekFrom

abbrev pub Cio : Type 0 → Type 0 → Type 0
Cio W A = Io (Cursor W × W) IoError A

-- The errors of `seek`.
abbrev pub seek_overflow : IoError
seek_overflow = custom invalid_input "seek overflow"

abbrev pub seek_underflow : IoError
seek_underflow = custom invalid_input "seek before start of device"

abbrev pub seek_unaligned : IoError
seek_unaligned = custom invalid_input "seek position is not sector-aligned"

module _ {W : Type 0} where
  pub new : ZonedDevice W → Cursor W
  new d = record { device = d; position = 0 }

  -- `ZonedDevice::cursor` and `ZonedDevice::cursor_at`.
  pub cursor : ZonedDevice W → Cursor W
  cursor d = new d

  pub at_sector : ZonedDevice W → Sector → Cursor W
  unfolding to_bytes
  at_sector d sector = record { device = d; position = to_bytes sector }

  pub cursor_at : ZonedDevice W → Sector → Cursor W
  cursor_at d sector = at_sector d sector

  pub sector_position : Cursor W → Option Sector
  unfolding from_bytes
  sector_position c = from_bytes c.position

  -- `Sector::from_bytes(self.position).ok_or_else(…)`.
  aligned : Option Sector → Cio W Sector
  aligned none = fail (custom invalid_input "cursor position is not sector-aligned")
  aligned (some sector) = return sector

  -- A call on the cursor's device leaves the cursor as it is; its error is wrapped.
  abbrev on_device : {A : Type 0} → (ZonedDevice W → Zio W A) → Cio W A
  on_device f (c, w) = let (r, w') = map_err wrapped (f c.device) w in (r, (c, w'))

  -- `self.position += n`, and `self.position = new_pos`.
  abbrev advance : ℕ → Cio W (Unit {0})
  advance n (c, w) = (ok tt, (record c { position = add_u64 c.position n }, w))

  abbrev set_position : ℕ → Cio W ℕ
  set_position p (c, w) = (ok p, (record c { position = p }, w))

  pub read : List ℕ → Cio W (ℕ × List ℕ)
  unfolding aligned sector_position
  read buf (c, w) =
      (do
        sector ← aligned (sector_position c)
        (n, buf') ← on_device (λ d. read_at d sector buf)
        advance n
        return (n, buf'))
        (c, w)

  pub write : List ℕ → Cio W ℕ
  unfolding aligned sector_position
  write buf (c, w) =
      (do
        sector ← aligned (sector_position c)
        n ← on_device (λ d. write_at d sector buf)
        advance n
        return n)
        (c, w)

  pub flush : Cio W (Unit {0})
  flush = on_device fsync

  in_range : Option ℕ → IoError → Cio W ℕ
  in_range none e = fail e
  in_range (some p) e = return p

  -- The `match` of `seek` on the kind of position. (A release build negates i64::MIN to itself,
  -- which as u64 is its absolute value.)
  target : SeekFrom → ℕ → Cio W ℕ
  unfolding in_range
  target (start offset) position = return offset
  target (current (pos n)) position = in_range (checked_add position n) seek_overflow
  target (current (negsuc n)) position = in_range (checked_sub position (suc n)) seek_underflow
  target (end _) position = fail (
      custom unsupported
        "SeekFrom::End is not supported for block devices (unknown size at this layer)")

  pub seek : SeekFrom → Cio W ℕ
  unfolding target
  seek from (c, w) =
      (do
        new_pos ← target from c.position
        if new_pos % sector_size == 0 then set_position new_pos else fail seek_unaligned)
        (c, w)
