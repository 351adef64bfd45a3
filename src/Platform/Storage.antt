-- ===== src/Platform/Storage.antt =====
-- The reads and writes of both platforms, over the system calls of a file on a medium.
use zoned.Base.{ℕ, refl, String, Bool, true, false, List}
use zoned.Errors.{Outcome, ok, err, panic, timeout, convert_err, io}
use zoned.Platform.Kernel.{Kernel}
use zoned.Platform.Files
use zoned.Platform.Linux
use zoned.Platform.Freebsd
use zoned.Device.Storage.{Honest, Storage}
use zoned.Device.Reads.{HonestRead, Readable}

-- pwrite and pread of a file whose bytes are those of the medium, as POSIX describes them: a write
-- puts the first bytes of the buffer at the offset, in whole sectors where the buffer is whole sectors,
-- a read fills the first bytes of its buffer, and a failure changes nothing.
pub record OnMedium {W : Type 0} (k : Kernel W) (fd : ℕ) (media : W → ℕ → ℕ) : Type 0 where
  pub pwrites :
      (buf : List ℕ) (offset : ℕ) (w : W)
      → Honest media (media w) offset buf (k.pwrite fd buf offset w)
  pub preads :
      (buf : List ℕ) (offset : ℕ) (w : W)
      → HonestRead media (media w) offset buf (k.pread fd buf offset w)

module _ {W : Type 0} (media : W → ℕ → ℕ) where
  -- Another error does not make a call less honest.
  convert_err-Honest :
      {E F : Type 0} (g : E → F) (m : ℕ → ℕ) (offset : ℕ) (buf : List ℕ) (r : Outcome E ℕ × W)
      → Honest media m offset buf r
      → Honest media m offset buf (convert_err g r.0, r.1)
  convert_err-Honest g m offset buf (ok n, w) h = h
  convert_err-Honest g m offset buf (err e, w) h = h
  convert_err-Honest g m offset buf (panic, w) h = h
  convert_err-Honest g m offset buf (timeout, w) h = h

  convert_err-HonestRead :
      {E F : Type 0} (g : E → F) (m : ℕ → ℕ) (offset : ℕ) (buf : List ℕ)
      (r : Outcome E (ℕ × List ℕ) × W)
      → HonestRead media m offset buf r
      → HonestRead media m offset buf (convert_err g r.0, r.1)
  convert_err-HonestRead g m offset buf (ok n, w) h = h
  convert_err-HonestRead g m offset buf (err e, w) h = h
  convert_err-HonestRead g m offset buf (panic, w) h = h
  convert_err-HonestRead g m offset buf (timeout, w) h = h

  module _ (k : Kernel W) (fd : ℕ) (on_medium : OnMedium k fd media) (path : String) where
    write_at-Honest :
        (writable : Bool) (buf : List ℕ) (offset : ℕ) (w : W)
        → Honest media (media w) offset buf (Files.write_at k path writable fd buf offset w)
    unfolding Files.write_at
    write_at-Honest true buf offset w =
        convert_err-Honest (io path) (media w) offset buf _ (on_medium.pwrites buf offset w)
    write_at-Honest false buf offset w = λ i. refl

    read_at-HonestRead :
        (buf : List ℕ) (offset : ℕ) (w : W)
        → HonestRead media (media w) offset buf (Files.read_at k path fd buf offset w)
    unfolding Files.read_at
    read_at-HonestRead buf offset w =
        convert_err-HonestRead (io path) (media w) offset buf _ (on_medium.preads buf offset w)

  -- Over system calls that are those of a file on the medium, a device of either platform, opened for
  -- reading or for writing, has honest writes and reads: what the theorems on writes and reads ask.
  pub platforms-Storage :
      (linux : Linux.Ioctls W) (f : Linux.File) (freebsd : Freebsd.Ioctls W) (g : Freebsd.File)
      → OnMedium linux.kernel f.fd media
      → OnMedium freebsd.kernel g.fd media
      → (Storage (record { inner = Linux.platform linux f }) media
          × Readable (record { inner = Linux.platform linux f }) media)
        × (Storage (record { inner = Freebsd.platform freebsd g }) media
            × Readable (record { inner = Freebsd.platform freebsd g }) media)
  unfolding Linux.platform Freebsd.platform
  platforms-Storage linux f freebsd g a b = (
    (
      record { honest = write_at-Honest linux.kernel f.fd a f.path f.writable },
      record { honest = read_at-HonestRead linux.kernel f.fd a f.path },
    ),
    (
      record { honest = write_at-Honest freebsd.kernel g.fd b g.path g.writable },
      record { honest = read_at-HonestRead freebsd.kernel g.fd b g.path },
    ),
  )
