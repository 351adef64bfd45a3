-- ===== src/Async/Handle.antt =====
-- async_api/zone_handle.rs: the handle of a zone behind a mutex. A call locks it on a thread of the
-- runtime for the length of a method, so that a method runs in what the mutex holds, the handle.
use zoned.Base.{ℕ, Bool, List}
use zoned.Types.{Sector, Zone, ZoneIndex}
use zoned.Handle
use zoned.Handle.{ZoneHandle, Hio}
use zoned.Async.{Runtime, spawn_blocking}

-- `inner` is what the mutex holds at first.
pub record AsyncZoneHandle (W : Type 0) : Type 0 where
  pub inner : ZoneHandle W

abbrev pub new : {W : Type 0} → ZoneHandle W → AsyncZoneHandle W
new handle = record { inner = handle }

module _ (rt : Runtime) {W : Type 0} where
  pub write_sequential : List ℕ → Hio W ℕ
  write_sequential buf = spawn_blocking rt (Handle.write_sequential buf)

  unfoldable pub write_all_sequential : List ℕ → Hio W (Unit {0})
  write_all_sequential buf = spawn_blocking rt (Handle.write_all_sequential buf)

  pub writev_sequential : List (List ℕ) → Hio W ℕ
  writev_sequential bufs = spawn_blocking rt (Handle.writev_sequential bufs)

  unfoldable pub reset : Hio W (Unit {0})
  reset = spawn_blocking rt Handle.reset

  pub open_zone : Hio W (Unit {0})
  open_zone = spawn_blocking rt Handle.open_zone

  pub close_zone : Hio W (Unit {0})
  close_zone = spawn_blocking rt Handle.close_zone

  pub finish : Hio W (Unit {0})
  finish = spawn_blocking rt Handle.finish

  pub report : Hio W Zone
  report = spawn_blocking rt Handle.report

-- The accessors lock without a thread of their own.
module _ {W : Type 0} where
  abbrev locked : {A : Type 0} → (ZoneHandle W → A) → ZoneHandle W × W → A × (ZoneHandle W × W)
  locked f (h, w) = (f h, (h, w))

  pub start : ZoneHandle W × W → Sector × (ZoneHandle W × W)
  start = locked (λ h. h.start)

  pub len : ZoneHandle W × W → Sector × (ZoneHandle W × W)
  len = locked (λ h. h.len)

  pub is_empty : ZoneHandle W × W → Bool × (ZoneHandle W × W)
  is_empty = locked Handle.is_empty

  unfoldable pub capacity : ZoneHandle W × W → Sector × (ZoneHandle W × W)
  capacity = locked (λ h. h.capacity)

  pub write_pointer : ZoneHandle W × W → Sector × (ZoneHandle W × W)
  write_pointer = locked (λ h. h.write_pointer)

  pub zone_index : ZoneHandle W × W → ZoneIndex × (ZoneHandle W × W)
  zone_index = locked (λ h. h.zone_index)
