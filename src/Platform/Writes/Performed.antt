-- ===== src/Platform/Writes/Performed.antt =====
-- A positional write of the platforms, from the device to the system call.
use zoned.Base.{
  ℕ, ◌-◌, ◌*◌, [], ◌<◌, ◌≡◌, refl, ◌∙◌, inl, inr, String, Bool, true, false, List, arith, ltb,
  ltb→lt, Bool-cases, u64_mod, ℤ, pos, negsuc,
}
use mathlib.Core.List.{flatten}
use zoned.Errors.{
  Outcome, ok, err, panic, timeout, convert_err, and_then, IoError, io, invalid_range,
}
use zoned.Types.{Sector, sector_size}
use zoned.Platform.Kernel.{Kernel}
use zoned.Platform.Files
use zoned.Device
use zoned.Device.{ZonedDevice}
use zoned.Device.Bounds.{Checked, positional-Checked}
use zoned.Device.Storage.{Honest}
use zoned.Platform.Writes.{off_t_end, Vectored, PosixWrites, Performed, Stores}

module _ {W : Type 0} (media : W → ℕ → ℕ) (k : Kernel W) (fd : ℕ) (posix : PosixWrites k fd media)
    (path : String) where
  -- The error is the one that pwrite gave, and the one of errno behind pwritev.
  abbrev pub Gave : List ℕ → ℕ → W → IoError → W → Type 0
  Gave buf offset w e w' = k.pwrite fd buf offset w ≡ (err e, w')

  abbrev pub InErrno : IoError → W → Type 0
  InErrno e w' = e ≡ k.last_os_error w'

  write_at-Performed :
      (buf : List ℕ) (offset : ℕ) (w : W)
      → offset < u64_mod
      → Performed media path
          (Gave buf offset w)
          u64_mod
          offset
          buf
          w
          (Files.write_at k path true fd buf offset w)
  unfolding Files.write_at
  write_at-Performed buf offset w below =
      go (k.pwrite fd buf offset w) refl (posix.pwrites buf offset w)
    where
      go :
          (r : Outcome IoError ℕ × W)
          → k.pwrite fd buf offset w ≡ r
          → Honest media (media w) offset buf r
          → Performed media path
              (Gave buf offset w)
              u64_mod
              offset
              buf
              w
              (convert_err (io path) r.0, r.1)
      go (ok n, w') e h = inl (n, w', refl, below, h)
      go (err x, w') e h = inr (x, w', refl, e, h)
      go (panic, w') e h = elim h [ ]
      go (timeout, w') e h = elim h [ ]

  writev_at-Performed :
      (bufs : List (List ℕ)) (offset : ℕ) (w : W)
      → Performed media path InErrno off_t_end offset
          (flatten bufs)
          w
          (Files.writev_at k path true fd bufs offset w)
  unfolding Files.writev_at Files.count_or_error
  writev_at-Performed bufs offset w = elim (Bool-cases (ltb offset off_t_end)) [
    | inl below ↦ rw below (
        fitting (ltb→lt _ _ below) (k.pwritev fd bufs (pos offset) w)
          (posix.pwritevs bufs (pos offset) w))
    | inr beyond ↦ rw beyond (
        negative (u64_mod - offset - 1) (k.pwritev fd bufs (negsuc (u64_mod - offset - 1)) w)
          (posix.pwritevs bufs (negsuc (u64_mod - offset - 1)) w))
  ]
    where
      fitting :
          offset < off_t_end
          → (r : Outcome IoError ℤ × W) → Vectored media (media w) (pos offset) (flatten bufs) r
          → Performed media path InErrno off_t_end offset
              (flatten bufs)
              w
              (and_then (convert_err (io path) r.0, r.1) (Files.count_or_error k path))
      fitting below (ok (pos n), w') h = inl (n, w', refl, below, h)
      fitting below (ok (negsuc n), w') h = inr (k.last_os_error w', w', refl, refl, h)
      fitting below (err x, w') h = elim h [ ]
      fitting below (panic, w') h = elim h [ ]
      fitting below (timeout, w') h = elim h [ ]

      negative :
          (x : ℕ) (r : Outcome IoError ℤ × W)
          → Vectored media (media w) (negsuc x) (flatten bufs) r
          → Performed media path InErrno off_t_end offset
              (flatten bufs)
              w
              (and_then (convert_err (io path) r.0, r.1) (Files.count_or_error k path))
      negative x (ok (pos n), w') h = elim h [ ]
      negative x (ok (negsuc n), w') h = inr (k.last_os_error w', w', refl, refl, h)
      negative x (err y, w') h = elim h [ ]
      negative x (panic, w') h = elim h [ ]
      negative x (timeout, w') h = elim h [ ]

  -- A device that writes as both platforms do.
  pub write_at-Stores :
      (d : ZonedDevice W) (writable : Bool)
      → ((buf : List ℕ) (offset : ℕ) (w : W)
          → d.inner.write_at buf offset w ≡ Files.write_at k path writable fd buf offset w)
      → (s : Sector) (buf : List ℕ) (w : W)
      → Stores media path writable
          (Gave buf (s * sector_size) w)
          u64_mod
          s
          buf
          w
          (Device.write_at d s buf w)
  unfolding Files.write_at
  write_at-Stores d writable same s buf w = go writable refl (positional-Checked d s w buf []).0
    where
      go :
          (b : Bool)
          → writable ≡ b
          → Checked
              (s * sector_size < u64_mod)
              (invalid_range s 0)
              w
              (d.inner.write_at buf (s * sector_size) w)
              (Device.write_at d s buf w)
          → Stores media path writable
              (Gave buf (s * sector_size) w)
              u64_mod
              s
              buf
              w
              (Device.write_at d s buf w)
      go b e (inr (beyond, r)) = inl (omega (arith, beyond), r)
      go false e (inl (below, r)) = inr (inl (below, e, r ∙ same buf _ w ∙ rw e refl))
      go true e (inl (below, r)) = inr (
          inr (
            below,
            e,
            rw (r, same buf (s * sector_size) w, e)
                (write_at-Performed buf (s * sector_size) w below),
          ))

  pub writev_at-Stores :
      (d : ZonedDevice W) (writable : Bool)
      → ((bufs : List (List ℕ)) (offset : ℕ) (w : W)
          → d.inner.writev_at bufs offset w ≡ Files.writev_at k path writable fd bufs offset w)
      → (s : Sector) (bufs : List (List ℕ)) (w : W)
      → Stores media path writable InErrno off_t_end s
          (flatten bufs)
          w
          (Device.writev_at d s bufs w)
  unfolding Files.writev_at
  writev_at-Stores d writable same s bufs w = go writable refl (positional-Checked d s w [] bufs).2
    where
      go :
          (b : Bool)
          → writable ≡ b
          → Checked
              (s * sector_size < u64_mod)
              (invalid_range s 0)
              w
              (d.inner.writev_at bufs (s * sector_size) w)
              (Device.writev_at d s bufs w)
          → Stores media path writable InErrno off_t_end s
              (flatten bufs)
              w
              (Device.writev_at d s bufs w)
      go b e (inr (beyond, r)) = inl (omega (arith, beyond), r)
      go false e (inl (below, r)) = inr (inl (below, e, r ∙ same bufs _ w ∙ rw e refl))
      go true e (inl (below, r)) = inr (
          inr (
            below,
            e,
            rw (r, same bufs (s * sector_size) w, e) (writev_at-Performed bufs (s * sector_size) w),
          ))
