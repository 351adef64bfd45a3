-- ===== src/Platform/Writes/Stored.antt =====
-- The positional writes of a device on Linux and on FreeBSD.
use zoned.Base.{ℕ, ◌*◌, ◌≡◌, refl, List, u64_mod}
use mathlib.Core.List.{flatten}
use zoned.Errors.{err}
use zoned.Types.{Sector, sector_size}
use zoned.Platform.Linux
use zoned.Platform.Freebsd
use zoned.Device
use zoned.Device.{ZonedDevice}
use zoned.Platform.Writes.{off_t_end, PosixWrites, Stores}
use zoned.Platform.Writes.Performed.{write_at-Stores, writev_at-Stores}

-- Over a pwrite and a pwritev that are those of a file on the medium, a write and a vectored write through a device of
-- Linux or of FreeBSD do the same: they are refused with InvalidRange where the byte offset of the sector does not
-- fit 64 bits, with ReadOnly where the device was opened for reading, and otherwise put the first bytes of their buffers
-- at the offset, as many as they report, or change nothing and fail with the error of the system call, with the path of the
-- device; a vectored write at an offset of 2^63 or more does not succeed.
pub platforms-Stores :
    {W : Type 0} (media : W → ℕ → ℕ) (linux : Linux.Ioctls W) (f : Linux.File)
    (freebsd : Freebsd.Ioctls W) (g : Freebsd.File)
    → PosixWrites linux.kernel f.fd media
    → PosixWrites freebsd.kernel g.fd media
    → (s : Sector) (buf : List ℕ) (bufs : List (List ℕ)) (w : W)
    → (Stores media f.path f.writable
          (λ e w'. linux.kernel.pwrite f.fd buf (s * sector_size) w ≡ (err e, w'))
          u64_mod
          s
          buf
          w
          (Device.write_at (record { inner = Linux.platform linux f }) s buf w)
        × Stores media f.path f.writable
            (λ e w'. e ≡ linux.kernel.last_os_error w')
            off_t_end
            s
            (flatten bufs)
            w
            (Device.writev_at (record { inner = Linux.platform linux f }) s bufs w))
      × (Stores media g.path g.writable
            (λ e w'. freebsd.kernel.pwrite g.fd buf (s * sector_size) w ≡ (err e, w'))
            u64_mod
            s
            buf
            w
            (Device.write_at (record { inner = Freebsd.platform freebsd g }) s buf w)
          × Stores media g.path g.writable
              (λ e w'. e ≡ freebsd.kernel.last_os_error w')
              off_t_end
              s
              (flatten bufs)
              w
              (Device.writev_at (record { inner = Freebsd.platform freebsd g }) s bufs w))
unfolding Linux.platform Freebsd.platform
platforms-Stores media linux f freebsd g a b s buf bufs w = (
  (
    write_at-Stores media linux.kernel f.fd a f.path _ f.writable (λ buf' o v. refl) s buf w,
    writev_at-Stores media linux.kernel f.fd a f.path _ f.writable (λ bufs' o v. refl) s bufs w,
  ),
  (
    write_at-Stores media freebsd.kernel g.fd b g.path _ g.writable (λ buf' o v. refl) s buf w,
    writev_at-Stores media freebsd.kernel g.fd b g.path _ g.writable (λ bufs' o v. refl) s bufs w,
  ),
)
