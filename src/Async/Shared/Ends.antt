-- ===== src/Async/Shared/Ends.antt =====
-- A write of async_api/zone_handle.rs comes back and leaves the handle on its device.
use zoned.Base.{
  ℕ, zero, suc, ◌*◌, ◌≤◌, ◌≡◌, refl, sym, subst, inl, inr, false, ◌==◌, ltb, leb, Bool-cases, List,
  [], ◌∷◌, arith, length, drop, length-drop, u64_mod,
}
use zoned.Errors.{Outcome, ok, err, panic, timeout, ZonedError, Returns, and_then, return, ◌>>◌}
use zoned.Device
use zoned.Device.{ZonedDevice}
use zoned.Handle
use zoned.Types.{Sector, sector_size}
use zoned.Handle.{ZoneHandle, Hio, advance, write_sequential, write_loop, after_write, capacity_end}
use zoned.Async.{
  Runtime, Runs, spawn_blocking, spawn_blocking-ok, spawn_blocking-Returns, spawn_blocking-panic,
}
use zoned.Async.Handle.{write_all_sequential}

-- A call that comes to an end, if only by a panic.
abbrev pub Ends : {E A : Type 0} → Outcome E A → Type 0
Ends (ok a) = Unit {0}
Ends (err e) = Unit {0}
Ends panic = Unit {0}
Ends timeout = ⊥

-- A call on a handle that comes to an end and leaves it on its device.
abbrev Kept : {W A : Type 0} → ZonedDevice W → Outcome ZonedError A × (ZoneHandle W × W) → Type 0
Kept d r = Ends r.0 × (r.1.0.device ≡ d)

module _ {W : Type 0} (d : ZonedDevice W)
    (answers : (buf : List ℕ) (offset : ℕ) (w : W) → Ends (d.inner.write_at buf offset w).0) where
  write_at-Ends : (s : Sector) (buf : List ℕ) (w : W) → Ends (Device.write_at d s buf w).0
  unfolding Device.write_at
  write_at-Ends s buf w = elim (Bool-cases (leb u64_mod (s * sector_size))) [
    | inl beyond ↦ rw beyond tt
    | inr within ↦ rw within (answers buf (s * sector_size) w)
  ]

  write_sequential-Kept :
      (buf : List ℕ) (h : ZoneHandle W) (w : W)
      → h.device ≡ d
      → Kept d (write_sequential buf (h, w))
  unfolding write_sequential
  write_sequential-Kept buf h w e = elim (Bool-cases (leb (capacity_end h) h.write_pointer)) [
    | inl full ↦ rw full (tt, e)
    | inr room ↦ rw room (
        written (Device.write_at h.device h.write_pointer buf w) (
          subst (λ (x : ZonedDevice W). Ends (Device.write_at x h.write_pointer buf w).0) (sym e)
            (write_at-Ends h.write_pointer buf w)))
  ]
    where
      written :
          (r : Outcome ZonedError ℕ × W)
          → Ends r.0
          → Kept d (and_then (r.0, (h, r.1)) (λ n. advance n >> return n))
      written (ok n, w') k = (tt, e)
      written (err x, w') k = (tt, e)
      written (panic, w') k = (tt, e)
      written (timeout, w') k = elim k [ ]

  write_loop-Kept :
      (fuel : ℕ) (buf : List ℕ) (h : ZoneHandle W) (w : W)
      → length buf ≤ fuel
      → h.device ≡ d
      → Kept d (write_loop fuel buf (h, w))
  unfolding write_loop after_write
  write_loop-Kept fuel [] h w le e = (tt, e)
  write_loop-Kept zero (b ∷ bs) h w le e = absurd (omega arith)
  write_loop-Kept (suc fuel) (b ∷ bs) h w le e =
      round (write_sequential (b ∷ bs) (h, w)) (write_sequential-Kept (b ∷ bs) h w e)
        (λ n h' w' e'. write_loop-Kept fuel (drop n bs) h' w' (omega (arith, length-drop n bs)) e')
    where
      round :
          (r : Outcome ZonedError ℕ × (ZoneHandle W × W))
          → Kept d r
          → ((n : ℕ) (h' : ZoneHandle W) (w' : W)
              → h'.device ≡ d
              → Kept d (write_loop fuel (drop n bs) (h', w')))
          → Kept d (and_then r (after_write (write_loop fuel) (b ∷ bs)))
      round (ok zero, (h', w')) (k, e') again = (tt, e')
      round (ok (suc n), (h', w')) (k, e') again =
          let some_bytes : (suc n == 0) ≡ false = ground arith in
          elim (Bool-cases (ltb (length (b ∷ bs)) (suc n))) [
            | inl beyond ↦ rw (some_bytes, beyond) (tt, e')
            | inr within ↦ rw (some_bytes, within) (again n h' w' e')
          ]
      round (err x, (h', w')) (k, e') again = (tt, e')
      round (panic, (h', w')) (k, e') again = (tt, e')
      round (timeout, (h', w')) (k, e') again = elim k [ ]

  module _ (rt : Runtime) (runs : Runs rt) where
    -- A panic of the call is an error of the task that made it.
    spawn_blocking-Kept :
        {A : Type 0} (f : Hio W A) (s : ZoneHandle W × W)
        → Kept d (f s)
        → Returns (spawn_blocking rt f s).0 × ((spawn_blocking rt f s).1.0.device ≡ d)
    spawn_blocking-Kept {A} f s k = go (f s) refl k
      where
        go :
            (r : Outcome ZonedError A × (ZoneHandle W × W))
            → f s ≡ r
            → Kept d r
            → Returns (spawn_blocking rt f s).0 × ((spawn_blocking rt f s).1.0.device ≡ d)
        go (ok a, s') e (_, kept) = let v = spawn_blocking-ok rt runs f s s' a e in rw v (tt, kept)
        go (err x, s') e (_, kept) =
            let v = spawn_blocking-Returns rt runs f s (rw e tt) in rw (v, e) (tt, kept)
        go (panic, s') e (_, kept) =
            let (text, v) = spawn_blocking-panic rt runs f s s' e in rw v (tt, kept)
        go (timeout, s') e (k', _) = elim k' [ ]

    pub write_all-Kept :
        (buf : List ℕ) (s : ZoneHandle W × W)
        → s.0.device ≡ d
        → Returns (write_all_sequential rt buf s).0
          × ((write_all_sequential rt buf s).1.0.device ≡ d)
    unfolding write_all_sequential Handle.write_all_sequential
    write_all-Kept buf (h, w) e =
        spawn_blocking-Kept (Handle.write_all_sequential buf) (h, w)
          (write_loop-Kept (length buf) buf h w (omega arith) e)
