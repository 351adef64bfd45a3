-- ===== src/Platform/Writes.antt =====
-- The positional writes of a device on both platforms, down to the system calls.
pub mod Performed
pub mod Stored
use zoned.Base.{
  ℕ, ◌-◌, ◌*◌, [], ◌≤◌, ◌<◌, ◌≡◌, refl, ◌∙◌, ◌⊎◌, inl, inr, String, Bool, true, false, List, arith,
  ltb, ltb→lt, Bool-cases, u64_mod, ℤ, pos, negsuc,
}
use mathlib.Core.List.{flatten}
use zoned.Errors.{
  Outcome, ok, err, panic, timeout, convert_err, and_then, IoError, ZonedError, io, invalid_range,
}
use zoned.Types.{Sector, sector_size}
use zoned.Platform.Kernel.{Kernel}
use zoned.Platform.Files
use zoned.Platform.Linux
use zoned.Platform.Freebsd
use zoned.Device
use zoned.Device.{ZonedDevice}
use zoned.Device.Bounds.{Checked, positional-Checked}
use zoned.Device.Storage.{Same, Honest}

-- The end of the offsets of 64 signed bits.
abbrev pub off_t_end : ℕ
off_t_end = 9223372036854775808

-- What pwritev gives as POSIX has it: the count of the bytes that it put at the offset, the buffers one
-- behind the other, or a negative number with nothing written, as at every negative offset.
abbrev pub Vectored :
    {W : Type 0} → (W → ℕ → ℕ) → (ℕ → ℕ) → ℤ → List ℕ → Outcome IoError ℤ × W → Type 0
Vectored media m (pos offset) bytes (ok (pos n), w) =
    Honest {E = IoError} media m offset bytes (ok n, w)
Vectored media m (negsuc x) bytes (ok (pos n), w) = ⊥
Vectored media m offset bytes (ok (negsuc x), w) = Same (media w) m
Vectored media m offset bytes (err e, w) = ⊥
Vectored media m offset bytes (panic, w) = ⊥
Vectored media m offset bytes (timeout, w) = ⊥

-- pwrite and pwritev of a file whose bytes are those of the medium.
pub record PosixWrites {W : Type 0} (k : Kernel W) (fd : ℕ) (media : W → ℕ → ℕ) : Type 0 where
  pub pwrites :
      (buf : List ℕ) (offset : ℕ) (w : W)
      → Honest media (media w) offset buf (k.pwrite fd buf offset w)
  pub pwritevs :
      (bufs : List (List ℕ)) (offset : ℤ) (w : W)
      → Vectored media (media w) offset (flatten bufs) (k.pwritev fd bufs offset w)

-- A write of the bytes at a sector, whose byte offset is below `limit` if it succeeds. An error is one that
-- `Raised` admits, and names the path of the device.
abbrev pub Performed :
    {W : Type 0}
    → (W → ℕ → ℕ)
    → String
    → (IoError → W → Type 0)
    → ℕ
    → ℕ
    → List ℕ
    → W
    → Outcome ZonedError ℕ × W
    → Type 0
Performed {W} media path Raised limit offset bytes w r =
    ((n : ℕ) × (w' : W) × (r ≡ (ok n, w'))
      × (offset < limit)
      × Honest {E = IoError} media (media w) offset bytes (ok n, w'))
    ⊎ ((e : IoError) × (w' : W) × (r ≡ (err (io path e), w'))
        × Raised e w'
        × Same (media w') (media w))

-- All that a write at a sector comes to: refused for its offset, refused on a device that was opened for
-- reading, or performed.
abbrev pub Stores :
    {W : Type 0}
    → (W → ℕ → ℕ)
    → String
    → Bool
    → (IoError → W → Type 0)
    → ℕ
    → Sector
    → List ℕ
    → W
    → Outcome ZonedError ℕ × W
    → Type 0
Stores media path writable Raised limit s bytes w r =
    ((u64_mod ≤ s * sector_size) × (r ≡ (err (invalid_range s 0), w)))
    ⊎ (((s * sector_size < u64_mod)
          × (writable ≡ false)
          × (r ≡ (err (ZonedError.read_only path), w)))
        ⊎ ((s * sector_size < u64_mod)
            × (writable ≡ true)
            × Performed media path Raised limit (s * sector_size) bytes w r))
