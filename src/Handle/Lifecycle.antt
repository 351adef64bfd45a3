-- ===== src/Handle/Lifecycle.antt =====
-- The life of a handle of zone_handle/mod.rs: what a finish and a reset do to the writes after them.
use zoned.Base.{
  ℕ, ◌+◌, ◌≤◌, ◌<◌, ◌≡◌, ap, sym, subst, ◌∙◌, ◌*◌, ◌%◌, length, take-length, List, ◌∷◌, arith,
  le→leb, u64_mod, add_u64,
}
use zoned.Errors.{Outcome, ok, err, panic, timeout, ZonedError, zone_full, and_then}
use zoned.Types.{Sector, sector_size}
use zoned.Device
use zoned.Device.{ZonedDevice}
use zoned.Device.Storage.{overlay, Same, Storage}
use zoned.Handle.Write.{write_all_sequential-Appended}
use zoned.Handle.{
  ZoneHandle, set_pointer, capacity_end, write_sequential, writev_sequential, write_loop,
  write_all_sequential, finish, reset,
}

-- At its capacity a handle refuses every way to write with `ZoneFull`, asks nothing of the device
-- and stays as it is.
pub full_refuses :
    {W : Type 0} (h : ZoneHandle W) (w : W) (b : ℕ) (bs : List ℕ) (bufs : List (List ℕ))
    → capacity_end h ≤ h.write_pointer
    → (write_sequential (b ∷ bs) (h, w) ≡ (err (zone_full h.zone_index), (h, w)))
      × (writev_sequential bufs (h, w) ≡ (err (zone_full h.zone_index), (h, w)))
      × (write_all_sequential (b ∷ bs) (h, w) ≡ (err (zone_full h.zone_index), (h, w)))
unfolding write_sequential writev_sequential write_all_sequential write_loop
full_refuses h w b bs bufs full = (rw (le→leb _ _ full), rw (le→leb _ _ full), rw (le→leb _ _ full))

-- A successful call that ends by setting the pointer has set it.
set_after :
    {W : Type 0} (h : ZoneHandle W) (s : Sector) (r : Outcome ZonedError (Unit {0}) × W)
    (h' : ZoneHandle W) (w' : W)
    → and_then (r.0, (h, r.1)) (λ _. set_pointer s) ≡ (ok tt, (h', w'))
    → h' ≡ record h { write_pointer = s }
set_after h s (ok u, w) h' w' e =
    ap (λ (p : Outcome ZonedError (Unit {0}) × (ZoneHandle _ × _)). p.1.0) (sym e)
set_after h s (err x, w) h' w' e = cc
set_after h s (panic, w) h' w' e = cc
set_after h s (timeout, w) h' w' e = cc

-- A successful reset has put the pointer back at the start of the zone.
pub reset-start :
    {W : Type 0} (h h' : ZoneHandle W) (w w' : W)
    → reset (h, w) ≡ (ok tt, (h', w'))
    → h' ≡ record h { write_pointer = h.start }
unfolding reset
reset-start h h' w w' e = set_after h h.start (Device.reset_zones h.device h.start h.len w) h' w' e

module _ {W : Type 0} (h h' : ZoneHandle W) (w w' : W) (buf : List ℕ) where
  -- After a successful finish every write is refused with `ZoneFull` and asks nothing of the
  -- device, until the pointer moves. (The capacity is within the zone, which ends below 2^64.)
  pub finish-write_refused :
      h.capacity ≤ h.len
      → h.start + h.len < u64_mod
      → finish (h, w) ≡ (ok tt, (h', w'))
      → write_sequential buf (h', w') ≡ (err (zone_full h'.zone_index), (h', w'))
  unfolding finish write_sequential
  finish-write_refused within fits e =
      let h'-is =
        set_after h (add_u64 h.start h.len) (Device.finish_zones h.device h.start h.len w) h' w'
          e in
      rw (
        le→leb (capacity_end h') h'.write_pointer (
          omega (
            arith,
            ap (λ (x : ZoneHandle W). x.write_pointer) h'-is,
            ap (λ (x : ZoneHandle W). x.start) h'-is,
            ap (λ (x : ZoneHandle W). x.capacity) h'-is,
          )))

-- A buffer that was written from the start of the zone stands there.
pub written-Same :
    {W : Type 0} (media : W → ℕ → ℕ) (buf : List ℕ) (h h1 : ZoneHandle W) (w1 : W)
    (h' : ZoneHandle W) (w' : W)
    → Storage h.device media
    → h1 ≡ record h { write_pointer = h.start }
    → h.start * sector_size + length buf ≤ u64_mod
    → length buf % sector_size ≡ 0
    → write_all_sequential buf (h1, w1) ≡ (ok tt, (h', w'))
    → Same (media w') (overlay (media w1) (h.start * sector_size) buf)
written-Same {W} media buf h h1 w1 h' w' storage at_start fits whole e i =
    let pointer : h1.write_pointer ≡ h.start =
      ap (λ (x : ZoneHandle W). x.write_pointer) at_start in
    let a =
      write_all_sequential-Appended media h1 buf w1
        (subst (λ (x : ZoneHandle W). Storage x.device media) (sym at_start) storage)
        (omega (arith, fits, pointer)) whole in
    ap (λ (s : Outcome ZonedError (Unit {0}) × (ZoneHandle W × W)). media s.1.1 i) (sym e)
    ∙ a.bytes i
    ∙ ap (λ b. overlay (media w1) (h1.write_pointer * sector_size) b i)
        (take-length a.count buf (
          omega (
            arith,
            a.whole (ap (λ (s : Outcome ZonedError (Unit {0}) × (ZoneHandle W × W)). s.0) e),
          )))
    ∙ ap (λ s. overlay (media w1) (s * sector_size) buf i) pointer

-- Nor does such a write change the device of the handle.
pub written-device :
    {W : Type 0} (media : W → ℕ → ℕ) (buf : List ℕ) (h1 : ZoneHandle W) (w1 : W) (h' : ZoneHandle W)
    (w' : W)
    → Storage h1.device media
    → h1.write_pointer * sector_size + length buf ≤ u64_mod
    → length buf % sector_size ≡ 0
    → write_all_sequential buf (h1, w1) ≡ (ok tt, (h', w'))
    → h'.device ≡ h1.device
written-device {W} media buf h1 w1 h' w' storage fits whole e =
    let a = write_all_sequential-Appended media h1 buf w1 storage fits whole in
    ap (λ (s : Outcome ZonedError (Unit {0}) × (ZoneHandle W × W)). s.1.0.device) (sym e)
    ∙ ap (λ (x : ZoneHandle W). x.device) a.handle
