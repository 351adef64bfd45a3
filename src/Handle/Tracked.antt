-- ===== src/Handle/Tracked.antt =====
-- The tracked write pointer of zone_handle/mod.rs under sequences of calls.
use zoned.Base.{ℕ, ◌+◌, ◌*◌, ◌≤◌, ◌≡◌, List, [], ◌∷◌}
use zoned.Errors.{Outcome, ok, err, panic, timeout, ZonedError}
use zoned.Types.{Sector, sector_size}
use zoned.Device
use zoned.Device.{ZonedDevice}
use zoned.Handle.{
  ZoneHandle, write_sequential, writev_sequential, write_all_sequential, reset, finish, open_zone,
  close_zone, report,
}

-- A call of a method on the handle.
pub data Call : Type 0 where
  writes writes_all : List ℕ → Call
  writes_vectored : List (List ℕ) → Call
  resets opens closes finishes reports : Call

-- The state after a call, and after a sequence of calls, whatever they return.
pub after : {W : Type 0} → Call → ZoneHandle W × W → ZoneHandle W × W
after (writes buf) s = (write_sequential buf s).1
after (writes_all buf) s = (write_all_sequential buf s).1
after (writes_vectored bufs) s = (writev_sequential bufs s).1
after resets s = (reset s).1
after opens s = (open_zone s).1
after closes s = (close_zone s).1
after finishes s = (finish s).1
after reports s = (report s).1

pub run : {W : Type 0} → List Call → ZoneHandle W × W → ZoneHandle W × W
run [] s = s
run (c ∷ cs) s = run cs (after c s)

-- The handle `h` is still that of the zone of `h₀`, and its pointer is in the zone or at its end.
pub record Tracks {W : Type 0} (h₀ h : ZoneHandle W) : Type 0 where
  pub same_device : h.device ≡ h₀.device
  pub same_start : h.start ≡ h₀.start
  pub same_len : h.len ≡ h₀.len
  pub above : h₀.start ≤ h.write_pointer
  pub below : h.write_pointer ≤ h₀.start + h₀.len

-- The number of bytes that a write returned, if it returned one, ends within the zone.
abbrev pub EndsBy : Sector → Sector → Outcome ZonedError ℕ → Type 0
EndsBy s end (ok n) = s * sector_size + n ≤ end * sector_size
EndsBy s end (err e) = Unit {0}
EndsBy s end panic = Unit {0}
EndsBy s end timeout = Unit {0}

-- A device that takes no write across the end of the zone from `start` to `end`: a write that
-- begins in the zone ends in it.
pub record Confines {W : Type 0} (d : ZonedDevice W) (start end : Sector) : Type 0 where
  pub write_ends :
      (s : Sector) (buf : List ℕ) (w : W)
      → start ≤ s
      → s ≤ end
      → EndsBy s end (Device.write_at d s buf w).0
  pub writev_ends :
      (s : Sector) (bufs : List (List ℕ)) (w : W)
      → start ≤ s
      → s ≤ end
      → EndsBy s end (Device.writev_at d s bufs w).0
